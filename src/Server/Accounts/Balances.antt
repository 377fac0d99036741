-- ===== src/Server/Accounts/Balances.antt =====
-- The accounts as a ledger: one balance for every account id, 0 for an account that is not there.
use chain_replication.Base.{
  String, ◌≡◌, Option, none, some, arith, str_eq, eq_iff, eq_refl, if◌then◌else◌,
}
use chain_replication.Base.Map.{Map, find, assign, find-insert, find-assign}
use chain_replication.Proto.{Request}
use chain_replication.Proto.Float.{FloatOps, zero_float, ◌+f◌, ◌-f◌, ◌<f◌}
use chain_replication.Server.State.{Account, UpdateBalanceOutcome, success, insufficient_funds}
use chain_replication.Server.Accounts.{
  takes_money, get_or_create_account, get_balance, update_balance, new_account,
}

module _ {A : Type 0} ⦃f : FloatOps A⦄ where
  abbrev pub or_zero : Option (Account A) → A
  or_zero none = zero_float
  or_zero (some a) = a.balance

  unfoldable pub balance_at : String → Map (Account A) → A
  balance_at j m = or_zero (find j m)

  -- What a request does to the balance of its account.
  unfoldable pub applied : Request A → A → A
  applied req b =
      if takes_money req.type
      then (if b <f req.amount then b else b -f req.amount)
      else b +f req.amount

  unfoldable pub funded : Request A → A → UpdateBalanceOutcome
  funded req b =
      if takes_money req.type
      then (if b <f req.amount then insufficient_funds else success)
      else success

  balance_at-assign :
      (j k : String) (a w : Account A) (m : Map (Account A))
      → find k m ≡ some w
      → balance_at j (assign k a m) ≡ (if str_eq k j then a.balance else balance_at j m)
  unfolding balance_at
  balance_at-assign j k a w m h = ground (arith, find-assign j k a m)

  -- The account that an update works on: it is there afterwards, and no balance has changed.
  pub get_or_create_account_lem :
      (req : Request A) (m : Map (Account A))
      → let (m', account, is_new) = get_or_create_account req m in
        (find req.account_id m' ≡ some account)
        × (account.balance ≡ balance_at req.account_id m)
        × ((j : String) → balance_at j m' ≡ balance_at j m)
  unfolding get_or_create_account balance_at
  get_or_create_account_lem req m = (
    ground (arith, find-insert k k (new_account k) m, eq_refl k),
    ground arith,
    λ j. ground (arith, find-insert j k (new_account k) m, eq_iff k j),
  )
    where
      k : String
      k = req.account_id

  -- An update changes the balance of its own account alone, by its own rule.
  pub balance_at-update_balance :
      (j : String) (req : Request A) (m : Map (Account A))
      → balance_at j (update_balance req m).0
        ≡ (if str_eq req.account_id j then applied req (balance_at j m) else balance_at j m)
  unfolding applied update_balance
  balance_at-update_balance j req m = ground (
    arith,
    get_or_create_account_lem req m,
    (get_or_create_account_lem req m).2 j,
    eq_iff req.account_id j,
    balance_at-assign j req.account_id (paid (account.balance +f req.amount)) account m',
    balance_at-assign j req.account_id (paid (account.balance -f req.amount)) account m',
  )
    where
      m' : Map (Account A)
      m' = (get_or_create_account req m).0

      account : Account A
      account = (get_or_create_account req m).1

      paid : A → Account A
      paid b = record account { balance = b }

  pub outcome-update_balance :
      (req : Request A) (m : Map (Account A))
      → (update_balance req m).1 ≡ funded req (balance_at req.account_id m)
  unfolding balance_at funded update_balance
  outcome-update_balance req m = ground (arith, get_or_create_account_lem req m)

  pub balance_at-get_balance :
      (j k : String) (m : Map (Account A)) → balance_at j (get_balance k m).0 ≡ balance_at j m
  unfolding balance_at get_balance
  balance_at-get_balance j k m = ground (arith, find-insert j k (new_account k) m, eq_iff k j)

  pub get_balance_lem : (k : String) (m : Map (Account A)) → (get_balance k m).1 ≡ balance_at k m
  unfolding balance_at get_balance
  get_balance_lem k m = ground arith
