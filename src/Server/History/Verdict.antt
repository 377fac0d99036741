-- ===== src/Server/History/Verdict.antt =====
-- What `update_request_reply` of src-cpp/server/server.cc makes of a request, by what the history
-- holds of it.
use chain_replication.Base.{
  String, ◌≡◌, refl, true, false, Option, none, some, List, [], ◌∷◌, arith, str_eq, eq_refl,
  if◌then◌else◌, is_some,
}
use chain_replication.Base.Map.{Map, find, find-insert}
use chain_replication.Proto.{Request, Reply, ReplyOutcome, CheckRequest}
use chain_replication.Proto.Float.{FloatOps}
use chain_replication.Server.State.{ChainServer, Account, accounts, with_accounts}
use chain_replication.Server.Accounts.{
  get_or_create_account, get_balance, update_balance, new_account,
}
use chain_replication.Server.Accounts.Balances.{
  balance_at, applied, funded, balance_at-update_balance, outcome-update_balance,
  balance_at-get_balance, get_balance_lem, get_or_create_account_lem,
}
use chain_replication.Server.History.{
  history_key, req_consistent, against, check_sent, check_update_request, settle,
  update_request_reply, new_reply, outcome_of,
}

module _ {A : Type 0} where
  -- The first entry of the sent list with the request's id.
  unfoldable pub first_sent : Request A → List (Request A) → Option (Request A)
  first_sent req [] = none
  first_sent req (x ∷ xs) = if str_eq req.req_id x.req_id then some x else first_sent req xs

  -- The request that the history of a server holds under the id of `req`; none if the account is new.
  unfoldable pub recorded : Request A → ChainServer A → Option (Request A)
  unfolding first_sent
  recorded req s = elim (find req.account_id (accounts s)) [
    | none ↦ none
    | some _ ↦ elim (find (history_key req) s.processed_map) [
      | some old ↦ some old
      | none ↦ first_sent req s.sent_list
    ]
  ]

module _ {A : Type 0} ⦃f : FloatOps A⦄ where
  abbrev judged : Request A → Reply A → Option (Request A) → CheckRequest × Reply A
  judged req reply none = (CheckRequest.newreq, reply)
  judged req reply (some old) = against req reply old

  check_sent_lem :
      (req : Request A) (reply : Reply A) (xs : List (Request A))
      → check_sent req reply xs ≡ judged req reply (first_sent req xs)
  unfolding check_sent first_sent
  check_sent_lem req reply [] = refl
  check_sent_lem req reply (x ∷ xs) = ground (arith, check_sent_lem req reply xs)

  module _ (req : Request A) (reply : Reply A) (s : ChainServer A) where
    abbrev checked : ChainServer A × CheckRequest × Reply A
    checked = check_update_request req reply s

    check_server : checked.0 ≡ with_accounts s (get_or_create_account req (accounts s)).0
    unfolding check_update_request
    check_server = refl

    pub check_verdict :
        ◌≡◌ {A = CheckRequest × Reply A} (checked.1, checked.2) (judged req reply (recorded req s))
    unfolding check_update_request recorded
    check_verdict = ground (arith, check_sent_lem req reply s.sent_list)

    check_known : {old : Request A} → recorded req s ≡ some old → checked.0 ≡ s
    unfolding check_update_request recorded
    check_known h = ground arith

  -- A request that agrees with the one on record under its id changes nothing, and gets the reply on
  -- record.
  pub update_request_reply_duplicate :
      (req old : Request A) (s : ChainServer A)
      → recorded req s ≡ some old
      → req_consistent req old ≡ true
      → update_request_reply req s
        ≡ (s, record req { check_result = CheckRequest.processed; reply = old.reply })
  unfolding update_request_reply settle
  update_request_reply_duplicate req old s h c =
      ground (arith, check_verdict req (new_reply req) s, check_known req (new_reply req) s h)

  -- A request that differs from the one on record under its id changes nothing. It is answered as
  -- inconsistent with the history, with the balance of its account.
  pub update_request_reply_conflict :
      (req old : Request A) (s : ChainServer A)
      → recorded req s ≡ some old
      → req_consistent req old ≡ false
      → update_request_reply req s ≡ (
        s,
        record req {
          check_result = CheckRequest.inconsistent;
          reply = record (new_reply req) {
            outcome = ReplyOutcome.inconsistent_with_history;
            balance = balance_at req.account_id (accounts s);
          };
        },
      )
  unfolding update_request_reply settle recorded
  update_request_reply_conflict req old s h c = ground (
    arith,
    check_verdict req (new_reply req) s,
    check_known req (new_reply req) s h,
    get_balance_lem req.account_id (accounts s),
  )

  -- A request that is not on record is carried out once: on its own account, by its own rule. The
  -- reply has the new balance, and nothing else of the server changes.
  pub update_request_reply_new :
      (req : Request A) (s : ChainServer A)
      → recorded req s ≡ none
      → let (s', req') = update_request_reply req s in
        let before = balance_at req.account_id (accounts s) in
        (s' ≡ with_accounts s (accounts s'))
        × ((j : String)
            → balance_at j (accounts s') ≡ (
                if str_eq req.account_id j
                then applied req (balance_at j (accounts s))
                else balance_at j (accounts s)))
        × (req' ≡ record req {
          check_result = CheckRequest.newreq;
          reply = record (new_reply req) {
            outcome = outcome_of (funded req before);
            balance = applied req before;
          };
        })
  unfolding update_request_reply settle
  update_request_reply_new req s h = (
    ground (arith, verdict, server),
    λ j. ground (
      arith,
      verdict,
      server,
      balances j,
      balance_at-update_balance j req created,
      balance_at-get_balance j req.account_id updated,
    ),
    ground (
      arith,
      verdict,
      server,
      balances req.account_id,
      outcome-update_balance req created,
      get_balance_lem req.account_id updated,
      balance_at-update_balance req.account_id req created,
      eq_refl req.account_id,
    ),
  )
    where
      created : Map (Account A)
      created = (get_or_create_account req (accounts s)).0

      updated : Map (Account A)
      updated = (update_balance req created).0

      verdict :
          ◌≡◌ {A = CheckRequest × Reply A}
            ((checked req (new_reply req) s).1, (checked req (new_reply req) s).2)
            (judged req (new_reply req) (recorded req s))
      verdict = check_verdict req (new_reply req) s

      server : (checked req (new_reply req) s).0 ≡ with_accounts s created
      server = check_server req (new_reply req) s

      balances : (j : String) → balance_at j created ≡ balance_at j (accounts s)
      balances = (get_or_create_account_lem req (accounts s)).2

  -- Its account is there afterwards.
  pub update_request_reply-knows :
      (req : Request A) (s : ChainServer A)
      → recorded req s ≡ none
      → is_some (find req.account_id (accounts (update_request_reply req s).0)) ≡ true
  unfolding update_request_reply settle get_balance
  update_request_reply-knows req s h = ground (
    arith,
    check_verdict req (new_reply req) s,
    find-insert k k (new_account k) updated,
    eq_refl k,
  )
    where
      k : String
      k = req.account_id

      updated : Map (Account A)
      updated = (update_balance req (accounts (checked req (new_reply req) s).0)).0
