-- ===== src/Server/Validity.antt =====
-- The invariant of a chain server, and the parts of src-cpp/server/server.cc that keep it.
pub mod Sequence
pub mod Ledger
pub mod Parts
pub mod Requests
pub mod Acks
pub mod Promotion
pub mod Messages
use chain_replication.Base.{ℕ, ◌<◌, String, ◌≡◌, true, false, List, [], ◌∷◌}
use chain_replication.Base.Map.Keyed.{IsKeyed}
use chain_replication.Proto.{Request}
use chain_replication.Proto.Float.{FloatOps, zero_float, ◌<f◌}
use chain_replication.Server.State.{ChainServer, accounts}
use chain_replication.Server.Accounts.Balances.{balance_at}
use chain_replication.Server.History.{history_key}
use chain_replication.Server.Update.{is_transfer}
use Sequence.{Between}
use Ledger.{AccountsKeyed}

-- Only transfers wait in the list.
abbrev pub Transfers : {A : Type 0} → List (Request A) → Type 0
Transfers [] = Unit
Transfers (x ∷ xs) = (is_transfer x.type ≡ true) × Transfers xs

module _ {A : Type 0} ⦃f : FloatOps A⦄ where
  pub record IsValidUpTo (n : ℕ) (s : ChainServer A) : Type 0 where
    -- The sent list has rising numbers, none above `n`.
    pub ordered : Between 0 n s.sent_list
    -- No balance is below zero.
    pub covered : (j : String) → balance_at j (accounts s) <f zero_float ≡ false
    -- An account stands under its own id, and a request under its own key, each once.
    pub accounts_keyed : AccountsKeyed (accounts s)
    pub history_keyed : IsKeyed history_key s.processed_map
    -- At a tail that is not extending the chain, only transfers wait.
    pub tail_waits : s.istail ≡ true → s.extending_chain ≡ false → Transfers s.sent_list

  -- Between two messages, `n` is the last number taken.
  abbrev pub IsValid : ChainServer A → Type 0
  IsValid s = IsValidUpTo s.bank_update_seq s
