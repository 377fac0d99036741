-- ===== src/Server/Link/Balances.antt =====
-- A single server of src-cpp/server/server.cc takes a sequence of updates: what becomes of the balances.
use chain_replication.Base.{
  String, ◌≡◌, true, false, none, List, [], ◌∷◌, All, str_eq, if◌then◌else◌,
}
use chain_replication.Base.Map.{Map, find}
use chain_replication.Proto.{Request}
use chain_replication.Proto.Float.{FloatOps}
use chain_replication.Server.State.{ChainServer, Process}
use chain_replication.Server.Accounts.Balances.{applied}
use chain_replication.Server.History.{history_key}
use chain_replication.Server.Link.Forward.{stamped, ready}
use chain_replication.Server.Link.Finish.{IsQuiet, replied}
use chain_replication.Server.Link.AsOne.{is_local}

module _ {A : Type 0} ⦃f : FloatOps A⦄ where
  -- The balance of account `j` after the requests, each by its own rule.
  abbrev pub balance_after : String → List (Request A) → A → A
  balance_after j [] b = b
  balance_after j (x ∷ xs) b = balance_after j xs (if str_eq x.account_id j then applied x b else b)

  -- No two have the same id and account.
  abbrev pub Apart : List (Request A) → Type 0
  Apart [] = Unit
  Apart (x ∷ xs) = All (λ y. str_eq (history_key x) (history_key y) ≡ false) xs × Apart xs

  abbrev pub Unseen : ChainServer A → List (Request A) → Type 0
  Unseen s xs = All (λ x. find (history_key x) s.processed_map ≡ none) xs

  pub record IsAlone (p : Process A) : Type 0 where
    pub head : p.server.ishead ≡ true
    pub tail : p.server.istail ≡ true
    pub quiet : IsQuiet p

  module _ (x : Request A) (p : Process A) (o : IsAlone p) (u : is_local x.type ≡ true) where
    abbrev done_with : Process A
    done_with = replied (stamped x p.server) (ready p)
