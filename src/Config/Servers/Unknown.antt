-- ===== src/Config/Servers/Unknown.antt =====
-- read_config_server of src-cpp/server/server.cc with a bank that the file does not name.
use chain_replication.Base.{
  ℕ, suc, ℤ, String, str_eq, false, ◌≡◌, refl, sym, subst, some, none, List, [], ◌∷◌, length, arith,
}
use chain_replication.Base.Map.{find}
use chain_replication.Base.Map.Apart.{adds, Apart, Once, nothing_yet}
use chain_replication.Exec.{ok, ◌>>=◌}
use chain_replication.Server.State.{Process}
use chain_replication.Config.{Json, load}
use chain_replication.Config.Arrays.{ElementsFrom}
use chain_replication.Config.Described.{BankEntry, chains, AreBanks, Setting, Describes}
use chain_replication.Config.Servers.{own_bank_from, read_config_server}
use chain_replication.Config.Servers.Heads.{heads, heads-Once, each_head_lem}

module _ {A : Type 0} (json : Json A) (random : ℕ) where
  -- A bank that the file does not name.
  unknown_bank :
      (i : ℕ) (root list : json.Value) (vs : List json.Value) (es : List BankEntry) (id : String)
      (chainno : ℤ) (p : Process A)
      → ElementsFrom json i list vs
      → AreBanks json vs es
      → find id (chains es) ≡ none
      → own_bank_from json (length vs) i random root list id chainno p ≡ (ok 1, p)
  unfolding own_bank_from ◌>>=◌ find
  unknown_bank i root list [] [] id chainno p els h none_here = refl
  unknown_bank i root list [] (e ∷ es) id chainno p els h none_here = absurd h
  unknown_bank i root list (v ∷ vs) [] id chainno p els h none_here = absurd h
  unknown_bank i root list (v ∷ vs) (e ∷ es) id chainno p els h none_here =
      let other : str_eq e.bank_id id ≡ false = ground arith in
      rw (els.0, h.0.bank_id)
        (rw other (unknown_bank (suc i) root list vs es id chainno p els.1 h.1 (ground arith)))

  -- On a file that describes banks with ids of their own, a bank id that is not among them ends a
  -- server that starts with 1. It has learnt the heads and nothing else.
  pub read_config_server_unknown :
      (dir : String) (root : json.Value) (s : Setting) (bankid : String) (chainno : ℤ)
      (p : Process A)
      → load json dir ≡ some root
      → Describes json root s
      → Once (chains s.banks)
      → find bankid (chains s.banks) ≡ none
      → p.server.bank_head_list ≡ []
      → read_config_server json random dir bankid chainno p ≡ (
        ok 1,
        record p {
          server = record p.server {
            bank_head_list = adds (heads s.banks) p.server.bank_head_list;
          };
        },
      )
  unfolding read_config_server ◌>>=◌
  read_config_server_unknown dir root s bankid chainno p here d once unknown no_heads =
      rw (here, read_config_server, d.banks_here)
        (rw
          (
            each_head_lem json d.bank_values s.banks p d.bank_array d.banks
                (heads-Once s.banks once) fresh,
            d.bank_array.size,
          )
          (unknown_bank 0 root d.bank_list d.bank_values s.banks bankid chainno _
            d.bank_array.elements d.banks unknown))
    where
      fresh : Apart (heads s.banks) p.server.bank_head_list
      fresh = subst (Apart (heads s.banks)) (sym no_heads) (nothing_yet (heads s.banks))
