-- ===== src/Config/Clients/Ends.antt =====
-- The ends of the chains that read_config_client of src-cpp/client/client.cc gives each client.
use chain_replication.Base.{
  ℕ, zero, suc, ◌-◌, String, ◌≡◌, refl, ap, ◌∙◌, eq_iff, some, none, List, [], ◌∷◌, length,
  get_elem?, arith,
}
use chain_replication.Base.Map.{Map, find}
use chain_replication.Base.Map.Apart.{
  adds, Apart, Once, Apart-first, Apart-next, insert_cons, nothing_yet,
}
use chain_replication.Exec.{ok, ◌>>=◌}
use chain_replication.Exec.Rules.{bind_ok}
use chain_replication.Proto.{Address}
use chain_replication.Proto.Float.{FloatOps}
use chain_replication.Master.Chain.View.{last_or}
use chain_replication.Config.{Json, fold_each}
use chain_replication.Config.Arrays.{IsArray, fold_list, fold_each_lem, element_at}
use chain_replication.Config.Described.{BankEntry, servers, chains, IsBank, AreBanks}
use chain_replication.Config.Chains.Reading.{address_at_lem, numbered_length}
use chain_replication.Config.Servers.Place.{value_at}
use chain_replication.Config.Servers.Heads.{heads, heads-Once, first_value, find-chains_at}
use chain_replication.Config.Clients.{read_bank_ends}

abbrev pub tails : List BankEntry → Map Address
tails [] = []
tails (e ∷ es) = (e.bank_id, last_or e.first e.others) ∷ tails es

tails-none :
    (k : String) (es : List BankEntry) → find k (chains es) ≡ none → find k (tails es) ≡ none
unfolding find
tails-none k [] h = refl
tails-none k (e ∷ es) h = ground (arith, tails-none k es)

pub tails-Once : (es : List BankEntry) → Once (chains es) → Once (tails es)
tails-Once [] o = tt
tails-Once (e ∷ es) o = (tails-none e.bank_id es o.0, tails-Once es o.1)

pub find-tails_at :
    (es : List BankEntry) (j : ℕ) (e : BankEntry)
    → Once (chains es)
    → get_elem? es j ≡ some e
    → find e.bank_id (tails es) ≡ some (last_or e.first e.others)
unfolding find
find-tails_at [] j e o at = cc
find-tails_at (d ∷ es) zero e o at = ground (arith, eq_iff d.bank_id e.bank_id)
find-tails_at (d ∷ es) (suc j) e o at = ground (
  arith,
  eq_iff d.bank_id e.bank_id,
  find-tails_at es j e o.1 at,
  find-chains_at es j e o.1 at,
  o.0,
)

last_at : (x : Address) (xs : List Address) → get_elem? (x ∷ xs) (length xs) ≡ some (last_or x xs)
last_at x [] = refl
last_at x (y ∷ ys) = last_at y ys

module _ {A : Type 0} ⦃f : FloatOps A⦄ (json : Json A) {S : Type 0} where
  read_bank_ends_lem :
      (v : json.Value) (e : BankEntry) (hs ts : Map Address) (s : S)
      → IsBank json v e
      → find e.bank_id hs ≡ none
      → find e.bank_id ts ≡ none
      → read_bank_ends json v (hs, ts) s
        ≡ (ok ((e.bank_id, e.first) ∷ hs, (e.bank_id, last_or e.first e.others) ∷ ts), s)
  unfolding read_bank_ends ◌>>=◌
  read_bank_ends_lem v e hs ts s h fresh_h fresh_t =
      let (w, here, addr) = first_value json h.list h.values e h.array.elements h.numbered in
      let (z, z_at, z_addr) =
        value_at json 1 h.values (servers e) (length e.others) (last_or e.first e.others) h.numbered
          (last_at e.first e.others) in
      let size : json.size h.list - 1 ≡ length e.others =
        omega (arith, h.array.size, numbered_length json 1 h.values (servers e) h.numbered) in
      let last : json.at (json.size h.list - 1) h.list ≡ ok z =
        ap (λ n. json.at n h.list) size
        ∙ element_at json h.list h.values (length e.others) z h.array z_at in
      rw (h.list_here, here)
        (rw (address_at_lem json w e.first s addr, last)
          (rw (address_at_lem json z (last_or e.first e.others) s z_addr) (
            rw (
              h.bank_id,
              insert_cons e.bank_id e.first hs fresh_h,
              insert_cons e.bank_id (last_or e.first e.others) ts fresh_t,
            ))))

  read_ends_lem :
      (vs : List json.Value) (es : List BankEntry) (hs ts : Map Address) (s : S)
      → AreBanks json vs es
      → Once (heads es)
      → Once (tails es)
      → Apart (heads es) hs
      → Apart (tails es) ts
      → fold_list vs (read_bank_ends json) (hs, ts) s
        ≡ (ok (adds (heads es) hs, adds (tails es) ts), s)
  unfolding fold_list adds
  read_ends_lem [] [] hs ts s h o p a b = refl
  read_ends_lem [] (e ∷ es) hs ts s h o p a b = absurd h
  read_ends_lem (v ∷ vs) [] hs ts s h o p a b = absurd h
  read_ends_lem (v ∷ vs) (e ∷ es) hs ts s h o p a b =
      let t = last_or e.first e.others in
      bind_ok (read_bank_ends json v (hs, ts)) (fold_list vs (read_bank_ends json)) (
        read_bank_ends_lem v e hs ts s h.0 (Apart-first e.bank_id e.first (heads es) hs a)
          (Apart-first e.bank_id t (tails es) ts b))
      ∙ read_ends_lem vs es _ _ s h.1 o.1 p.1 (Apart-next e.bank_id e.first (heads es) hs o.0 a)
          (Apart-next e.bank_id t (tails es) ts p.0 b)

  pub each_ends_lem :
      {list : json.Value} (vs : List json.Value) (es : List BankEntry) (s : S)
      → IsArray json list vs
      → AreBanks json vs es
      → Once (chains es)
      → fold_each json list (read_bank_ends json) ([], []) s
        ≡ (ok (adds (heads es) [], adds (tails es) []), s)
  each_ends_lem {list} vs es s arr h o =
      ap (λ k. k s) (fold_each_lem json (read_bank_ends json) list vs ([], []) arr)
      ∙ read_ends_lem vs es [] [] s h (heads-Once es o) (tails-Once es o) (nothing_yet (heads es))
          (nothing_yet (tails es))
