-- ===== src/Config/Servers/Heads.antt =====
-- The heads of the banks that read_config_server of src-cpp/server/server.cc collects, and the loop
-- that looks for the server's own bank.
use chain_replication.Base.{
  ℕ, zero, suc, ℤ, String, str_eq, eq_iff, ◌≡◌, refl, ap, subst, ◌∙◌, false, true, some, none, List,
  [], ◌∷◌, arith, length, get_elem?,
}
use chain_replication.Base.Map.{Map, find}
use chain_replication.Base.Map.Apart.{adds, Apart, Once, Apart-first, Apart-next, insert_cons}
use chain_replication.Exec.{ok, ◌>>=◌}
use chain_replication.Exec.Rules.{bind_ok}
use chain_replication.Proto.{Address}
use chain_replication.Server.State.{Process}
use chain_replication.Config.{Json, fold_each}
use chain_replication.Config.Arrays.{ElementsFrom, IsArray, fold_list, fold_each_lem}
use chain_replication.Config.Described.{
  BankEntry, servers, chain_of, chains, IsAddress, NumberedFrom, IsBank, AreBanks,
}
use chain_replication.Config.Chains.Reading.{address_at_lem}
use chain_replication.Config.Servers.{read_bank_head, read_own_bank, own_bank_from}

abbrev pub heads : List BankEntry → Map Address
heads [] = []
heads (e ∷ es) = (e.bank_id, e.first) ∷ heads es

-- A bank that has no chain has no head.
heads-none :
    (k : String) (es : List BankEntry) → find k (chains es) ≡ none → find k (heads es) ≡ none
unfolding find
heads-none k [] h = refl
heads-none k (e ∷ es) h = ground (arith, heads-none k es)

pub heads-Once : (es : List BankEntry) → Once (chains es) → Once (heads es)
heads-Once [] o = tt
heads-Once (e ∷ es) o = (heads-none e.bank_id es o.0, heads-Once es o.1)

pub find-chains_at :
    (es : List BankEntry) (j : ℕ) (e : BankEntry)
    → Once (chains es)
    → get_elem? es j ≡ some e
    → find e.bank_id (chains es) ≡ some (chain_of e)
unfolding find
find-chains_at [] j e o at = cc
find-chains_at (d ∷ es) zero e o at = ground (arith, eq_iff d.bank_id e.bank_id)
find-chains_at (d ∷ es) (suc j) e o at =
    ground (arith, eq_iff d.bank_id e.bank_id, find-chains_at es j e o.1 at, o.0)

pub find-heads_at :
    (es : List BankEntry) (j : ℕ) (e : BankEntry)
    → Once (chains es)
    → get_elem? es j ≡ some e
    → find e.bank_id (heads es) ≡ some e.first
unfolding find
find-heads_at [] j e o at = cc
find-heads_at (d ∷ es) zero e o at = ground (arith, eq_iff d.bank_id e.bank_id)
find-heads_at (d ∷ es) (suc j) e o at = ground (
  arith,
  eq_iff d.bank_id e.bank_id,
  find-heads_at es j e o.1 at,
  find-chains_at es j e o.1 at,
  o.0,
)

apart_ids :
    (d e : BankEntry) (es : List BankEntry) (j : ℕ)
    → Once (chains (d ∷ es))
    → get_elem? es j ≡ some e
    → str_eq d.bank_id e.bank_id ≡ false
apart_ids d e es j o at =
    ground (arith, eq_iff d.bank_id e.bank_id, find-chains_at es j e o.1 at, o.0)

module _ {A : Type 0} (json : Json A) where
  abbrev with_heads : Map Address → Process A → Process A
  with_heads m p = record p { server = record p.server { bank_head_list = m } }

  -- The first value of a list of servers.
  pub first_value :
      (list : json.Value) (vs : List json.Value) (e : BankEntry)
      → ElementsFrom json 0 list vs
      → NumberedFrom json 1 vs (servers e)
      → (w : json.Value) × (json.at 0 list ≡ ok w) × IsAddress json w e.first
  first_value list [] e h n = absurd n
  first_value list (w ∷ vs) e h n = (w, h.0, n.0)

  read_bank_head_lem :
      (v : json.Value) (e : BankEntry) (p : Process A)
      → IsBank json v e
      → find e.bank_id p.server.bank_head_list ≡ none
      → read_bank_head json v p
        ≡ (ok tt, with_heads ((e.bank_id, e.first) ∷ p.server.bank_head_list) p)
  unfolding read_bank_head ◌>>=◌
  read_bank_head_lem v e p h fresh =
      let (w, here, addr) = first_value h.list h.values e h.array.elements h.numbered in
      rw (h.list_here, here)
        (rw (address_at_lem json w e.first p addr)
          (rw (h.bank_id, insert_cons e.bank_id e.first p.server.bank_head_list fresh)))

  read_bank_heads_lem :
      (vs : List json.Value) (es : List BankEntry) (p : Process A)
      → AreBanks json vs es
      → Once (heads es)
      → Apart (heads es) p.server.bank_head_list
      → fold_list vs (λ v _. read_bank_head json v) tt p
        ≡ (ok tt, with_heads (adds (heads es) p.server.bank_head_list) p)
  unfolding fold_list adds
  read_bank_heads_lem [] [] p h o a = refl
  read_bank_heads_lem [] (e ∷ es) p h o a = absurd h
  read_bank_heads_lem (v ∷ vs) [] p h o a = absurd h
  read_bank_heads_lem (v ∷ vs) (e ∷ es) p h o a =
      let m = p.server.bank_head_list in
      bind_ok (read_bank_head json v) (λ _. fold_list vs (λ v _. read_bank_head json v) tt)
        (read_bank_head_lem v e p h.0 (Apart-first e.bank_id e.first (heads es) m a))
      ∙ read_bank_heads_lem vs es _ h.1 o.1 (Apart-next e.bank_id e.first (heads es) m o.0 a)

  pub each_head_lem :
      {v : json.Value} (vs : List json.Value) (es : List BankEntry) (p : Process A)
      → IsArray json v vs
      → AreBanks json vs es
      → Once (heads es)
      → Apart (heads es) p.server.bank_head_list
      → fold_each json v (λ bank_json _. read_bank_head json bank_json) tt p
        ≡ (ok tt, with_heads (adds (heads es) p.server.bank_head_list) p)
  each_head_lem {v} vs es p arr h o a =
      ap (λ k. k p) (fold_each_lem json (λ bank_json _. read_bank_head json bank_json) v vs tt arr)
      ∙ read_bank_heads_lem vs es p h o a

  -- The loop comes to the bank at position `j`, and to no other.
  pub own_bank_from_lem :
      (i random : ℕ) (root list : json.Value) (vs : List json.Value) (es : List BankEntry) (j : ℕ)
      (e : BankEntry) (chainno : ℤ) (p : Process A)
      → ElementsFrom json i list vs
      → AreBanks json vs es
      → Once (chains es)
      → get_elem? es j ≡ some e
      → (v : json.Value) × (get_elem? vs j ≡ some v)
        × IsBank json v e
        × (own_bank_from json (length vs) i random root list e.bank_id chainno p
            ≡ read_own_bank json random root v e.bank_id chainno p)
  unfolding own_bank_from ◌>>=◌
  own_bank_from_lem i random root list [] [] j e chainno p els h o at = absurd (cc)
  own_bank_from_lem i random root list [] (d ∷ es) j e chainno p els h o at = absurd h
  own_bank_from_lem i random root list (v ∷ vs) [] j e chainno p els h o at = absurd h
  own_bank_from_lem i random root list (v ∷ vs) (d ∷ es) zero e chainno p els h o at =
      let same : d ≡ e = cc in
      let own : str_eq d.bank_id e.bank_id ≡ true = ground (arith, eq_iff d.bank_id e.bank_id) in
      (v, refl, subst (IsBank json v) same h.0, rw (els.0, h.0.bank_id) (rw own))
  own_bank_from_lem i random root list (v ∷ vs) (d ∷ es) (suc j) e chainno p els h o at =
      let other : str_eq d.bank_id e.bank_id ≡ false = apart_ids d e es j o at in
      let (w, here, bank, same) =
        own_bank_from_lem (suc i) random root list vs es j e chainno p els.1 h.1 o.1 at in
      (w, here, bank, rw (els.0, h.0.bank_id) (rw other same))
