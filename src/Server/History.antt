-- ===== src/Server/History.antt =====
-- The history of a server, and how an update request is held against it: `req_consistent`,
-- `check_update_request`, `update_request_reply` and the two lists of src-cpp/server/server.cc.
pub mod Verdict
pub mod Once
pub mod Reuse
use chain_replication.Base.{
  String, Bool, true, false, ◌&&◌, none, some, List, [], ◌∷◌, ◌++◌, str_eq, if◌then◌else◌,
}
use Prim.Native.String.{◌++◌ as joined_text}
use chain_replication.Base.Map.{find, insert}
use chain_replication.Proto.{
  Request, RequestType, query, deposit, withdraw, transfer, transfer_to, Reply, ReplyOutcome,
  CheckRequest,
}
use chain_replication.Proto.Float.{FloatOps, zero_float, ◌==f◌}
use chain_replication.Server.State.{
  ChainServer, UpdateBalanceOutcome, success, insufficient_funds, accounts, with_accounts,
}
use chain_replication.Server.Accounts.{get_or_create_account, get_balance, update_balance}

unfoldable pub type_eq : RequestType → RequestType → Bool
type_eq query query = true
type_eq deposit deposit = true
type_eq withdraw withdraw = true
type_eq transfer transfer = true
type_eq transfer_to transfer_to = true
type_eq _ _ = false

abbrev pub outcome_of : UpdateBalanceOutcome → ReplyOutcome
outcome_of success = ReplyOutcome.processed
outcome_of insufficient_funds = ReplyOutcome.insufficient_funds

module _ {A : Type 0} where
  -- The key of `processed_map_`: `req.req_id() + "_" + req.account_id()`.
  unfoldable pub history_key : Request A → String
  history_key req = joined_text req.req_id (joined_text "_" req.account_id)

  unfoldable pub insert_processed_list : Request A → ChainServer A → ChainServer A
  insert_processed_list req s = elim (find (history_key req) s.processed_map) [
    | none ↦ record s { processed_map = (insert (history_key req) req s.processed_map).0 }
    | some old ↦ s
  ]

  unfoldable pub insert_sent_list : Request A → ChainServer A → ChainServer A
  insert_sent_list req s = record s { sent_list = s.sent_list ++ req ∷ [] }

  unfoldable pub pop_front : List (Request A) → List (Request A)
  pop_front [] = []
  pop_front (x ∷ xs) = xs

  unfoldable pub pop_sent_list : ChainServer A → ChainServer A
  unfolding pop_front
  pop_sent_list s = record s { sent_list = pop_front s.sent_list }

module _ {A : Type 0} ⦃f : FloatOps A⦄ where
  unfoldable pub req_consistent : Request A → Request A → Bool
  req_consistent a b =
      type_eq a.type b.type
      && str_eq a.bank_id b.bank_id
      && a.amount ==f b.amount
      && str_eq a.dest_bank_id b.dest_bank_id
      && str_eq a.dest_account_id b.dest_account_id

  -- What the code does once it has found `old`: the reply is copied if the two agree.
  abbrev pub against : Request A → Reply A → Request A → CheckRequest × Reply A
  against req reply old =
      if req_consistent req old
      then (CheckRequest.processed, old.reply)
      else (CheckRequest.inconsistent, reply)

  -- The loop over `sent_list_`, which looks at the request's id alone.
  unfoldable pub check_sent : Request A → Reply A → List (Request A) → CheckRequest × Reply A
  check_sent req reply [] = (CheckRequest.newreq, reply)
  check_sent req reply (x ∷ xs) =
      if str_eq req.req_id x.req_id then against req reply x else check_sent req reply xs

  -- What follows `get_or_create_account` in `check_update_request`.
  unfoldable pub check_history : Bool → Request A → Reply A → ChainServer A → CheckRequest × Reply A
  unfolding check_sent
  check_history true req reply s = (CheckRequest.newreq, reply)
  check_history false req reply s = elim (find (history_key req) s.processed_map) [
    | some old ↦ against req reply old
    | none ↦ check_sent req reply s.sent_list
  ]

  unfoldable pub check_update_request :
      Request A → Reply A → ChainServer A → ChainServer A × CheckRequest × Reply A
  unfolding get_or_create_account check_history
  check_update_request req reply s =
      let (m, account, is_new) = get_or_create_account req (accounts s) in
      let (check, reply') = check_history is_new req reply s in (with_accounts s m, check, reply')

  abbrev pub new_reply : Request A → Reply A
  new_reply req = record {
    req_id = req.req_id;
    outcome = ReplyOutcome.processed;
    account_id = req.account_id;
    balance = zero_float;
  }

  -- The `switch` of `update_request_reply`, and the balance that it sets after it.
  unfoldable pub settle :
      CheckRequest → Request A → Reply A → ChainServer A → ChainServer A × Reply A
  unfolding get_balance update_balance
  settle CheckRequest.inconsistent req reply s =
      let (m, balance) = get_balance req.account_id (accounts s) in
      (
        with_accounts s m,
        record reply { outcome = ReplyOutcome.inconsistent_with_history; balance = balance },
      )
  settle CheckRequest.processed req reply s = (s, reply)
  settle CheckRequest.newreq req reply s =
      let (m, result) = update_balance req (accounts s) in
      let (m', balance) = get_balance req.account_id m in
      (with_accounts s m', record reply { outcome = outcome_of result; balance = balance })

  unfoldable pub update_request_reply : Request A → ChainServer A → ChainServer A × Request A
  unfolding check_update_request settle
  update_request_reply req s =
      let (s', check, reply) = check_update_request req (new_reply req) s in
      let (s'', reply') = settle check req reply s' in
      (s'', record req { check_result = check; reply = reply' })
