-- ===== src/Server/Validity/Ledger.antt =====
-- `update_request_reply` of src-cpp/server/server.cc changes the accounts alone, keeps them apart,
-- and takes no balance below zero.
use chain_replication.Base.{String, ◌≡◌, false, arith, Option-cases, inl, inr, Bool-cases}
use chain_replication.Base.Map.{Map}
use chain_replication.Base.Map.Keyed.{IsKeyed, insert-IsKeyed, assign-IsKeyed, find-IsKeyed}
use chain_replication.Proto.{Request}
use chain_replication.Proto.Float.{FloatOps, SignLaws, zero_float, ◌+f◌, ◌-f◌, ◌<f◌}
use chain_replication.Server.State.{ChainServer, Account, accounts, with_accounts}
use chain_replication.Server.Accounts.{
  get_or_create_account, get_balance, update_balance, new_account,
}
use chain_replication.Server.Accounts.Balances.{balance_at, applied}
use chain_replication.Server.History.{
  update_request_reply, check_update_request, settle, req_consistent,
}
use chain_replication.Server.History.Verdict.{
  recorded, update_request_reply_duplicate, update_request_reply_conflict, update_request_reply_new,
}

abbrev pub accountid_of : {A : Type 0} → Account A → String
accountid_of a = a.accountid

abbrev pub AccountsKeyed : {A : Type 0} → Map (Account A) → Type 0
AccountsKeyed m = IsKeyed accountid_of m

module _ {A : Type 0} ⦃f : FloatOps A⦄ where
  -- What stays the same, on every branch.
  pub update_request_reply_frame :
      (req : Request A) (s : ChainServer A)
      → let (s', req') = update_request_reply req s in
        (s' ≡ with_accounts s (accounts s'))
        × (req' ≡ record req { check_result = req'.check_result; reply = req'.reply })
  unfolding update_request_reply settle
  update_request_reply_frame req s = ground arith

  get_or_create_account-Keyed :
      (req : Request A) (m : Map (Account A))
      → AccountsKeyed m
      → AccountsKeyed (get_or_create_account req m).0
        × ((get_or_create_account req m).1.accountid ≡ req.account_id)
  unfolding get_or_create_account
  get_or_create_account-Keyed req m h = (
    ground (arith, insert-IsKeyed accountid_of k (new_account k) m),
    ground (arith, find-IsKeyed accountid_of k (get_or_create_account req m).1 m),
  )
    where
      k : String
      k = req.account_id

  pub get_balance-Keyed :
      (k : String) (m : Map (Account A)) → AccountsKeyed m → AccountsKeyed (get_balance k m).0
  unfolding get_balance
  get_balance-Keyed k m h = ground (arith, insert-IsKeyed accountid_of k (new_account k) m)

  update_balance-Keyed :
      (req : Request A) (m : Map (Account A))
      → AccountsKeyed m
      → AccountsKeyed (update_balance req m).0
  unfolding update_balance
  update_balance-Keyed req m h = ground (
    arith,
    get_or_create_account-Keyed req m h,
    assign-IsKeyed accountid_of req.account_id (paid (account.balance +f req.amount)) m',
    assign-IsKeyed accountid_of req.account_id (paid (account.balance -f req.amount)) m',
  )
    where
      m' : Map (Account A)
      m' = (get_or_create_account req m).0

      account : Account A
      account = (get_or_create_account req m).1

      paid : A → Account A
      paid b = record account { balance = b }

  pub update_request_reply-Keyed :
      (req : Request A) (s : ChainServer A)
      → AccountsKeyed (accounts s)
      → AccountsKeyed (accounts (update_request_reply req s).0)
  unfolding update_request_reply settle check_update_request
  update_request_reply-Keyed req s h = ground (
    arith,
    get_or_create_account-Keyed req (accounts s) h,
    get_balance-Keyed req.account_id created,
    update_balance-Keyed req created,
    get_balance-Keyed req.account_id (update_balance req created).0,
  )
    where
      created : Map (Account A)
      created = (get_or_create_account req (accounts s)).0

module _ {A : Type 0} ⦃f : FloatOps A⦄ (laws : SignLaws f) where
  abbrev pub Covered : Map (Account A) → Type 0
  Covered m = (j : String) → balance_at j m <f zero_float ≡ false

  applied_sign :
      (req : Request A) (b : A)
      → req.amount <f zero_float ≡ false
      → b <f zero_float ≡ false
      → applied req b <f zero_float ≡ false
  unfolding applied
  applied_sign req b p q =
      ground (arith, laws.add_sign b req.amount q p, laws.sub_sign b req.amount)

  -- An amount that is not negative never takes a balance below zero.
  pub update_request_reply-Covered :
      (req : Request A) (s : ChainServer A)
      → req.amount <f zero_float ≡ false
      → Covered (accounts s)
      → Covered (accounts (update_request_reply req s).0)
  update_request_reply-Covered req s p h j = elim (Option-cases (recorded req s)) [
    | inl new ↦ ground (
      arith,
      (update_request_reply_new req s new).1 j,
      applied_sign req (balance_at j (accounts s)) p,
      h j,
    )
    | inr (old, seen) ↦ ground (
      arith,
      update_request_reply_duplicate req old s seen,
      update_request_reply_conflict req old s seen,
      Bool-cases (req_consistent req old),
      h j,
    )
  ]
