-- ===== src/Server/Accounts.antt =====
-- The accounts of a server: `get_or_create_account`, `get_balance` and `update_balance` of
-- src-cpp/server/server.cc.
pub mod Balances
use chain_replication.Base.{String, Bool, true, false, none, some, if◌then◌else◌}
use chain_replication.Base.Map.{Map, find, insert, assign}
use chain_replication.Proto.{Request, RequestType, withdraw, transfer}
use chain_replication.Proto.Float.{FloatOps, zero_float, ◌+f◌, ◌-f◌, ◌<f◌}
use chain_replication.Server.State.{Account, UpdateBalanceOutcome, success, insufficient_funds}

abbrev pub takes_money : RequestType → Bool
takes_money withdraw = true
takes_money transfer = true
takes_money _ = false

module _ {A : Type 0} ⦃f : FloatOps A⦄ where
  abbrev pub new_account : String → Account A
  new_account account_id = record { accountid = account_id; balance = zero_float }

  -- The account that the returned reference names, and whether it is new. The insertion follows a
  -- `find` that failed, so the code's `assert` on it holds by `insert_fresh`.
  unfoldable pub get_or_create_account :
      Request A → Map (Account A) → Map (Account A) × Account A × Bool
  get_or_create_account req m = elim (find req.account_id m) [
    | none ↦
        ((insert req.account_id (new_account req.account_id) m).0, new_account req.account_id, true)
    | some account ↦ (m, account, false)
  ]

  unfoldable pub get_balance : String → Map (Account A) → Map (Account A) × A
  get_balance account_id m = elim (find account_id m) [
    | none ↦ ((insert account_id (new_account account_id) m).0, zero_float)
    | some account ↦ (m, account.balance)
  ]

  unfoldable pub update_balance :
      Request A → Map (Account A) → Map (Account A) × UpdateBalanceOutcome
  update_balance req m =
      let (m', account, is_new) = get_or_create_account req m in
      if takes_money req.type
      then (if account.balance <f req.amount then (m', insufficient_funds) else (
        assign req.account_id (record account { balance = account.balance -f req.amount }) m',
        success,
      ))
      else (
        assign req.account_id (record account { balance = account.balance +f req.amount }) m',
        success,
      )
