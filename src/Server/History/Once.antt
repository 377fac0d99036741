-- ===== src/Server/History/Once.antt =====
-- A request that is sent again: the histories that src-cpp/server/server.cc keeps make an update
-- happen once, however often it is sent.
use chain_replication.Base.{◌≡◌, true, none, some, arith, eq_refl, if◌then◌else◌, is_some}
use chain_replication.Base.Map.{find, find-insert}
use chain_replication.Proto.{Request, ReplyOutcome, CheckRequest}
use chain_replication.Proto.Float.{FloatOps}
use chain_replication.Server.State.{ChainServer, accounts}
use chain_replication.Server.Accounts.Balances.{balance_at}
use chain_replication.Server.History.{
  history_key, req_consistent, update_request_reply, insert_processed_list, insert_sent_list,
  new_reply,
}
use chain_replication.Server.History.Verdict.{
  recorded, update_request_reply_duplicate, update_request_reply_conflict, update_request_reply_new,
  update_request_reply-knows,
}

module _ {A : Type 0} where
  -- The same id and account: a client that sends its request again, or another under its number.
  pub record SameId (a b : Request A) : Type 0 where
    pub same_req : a.req_id ≡ b.req_id
    pub same_account : a.account_id ≡ b.account_id

module _ {A : Type 0} ⦃f : FloatOps A⦄ where
  -- What a server has put into its history answers every later request with that id.
  recorded-insert_processed_list :
      (a b : Request A) (s : ChainServer A)
      → SameId a b
      → is_some (find b.account_id (accounts s)) ≡ true
      → find (history_key b) s.processed_map ≡ none
      → recorded a (insert_processed_list b s) ≡ some b
  unfolding recorded insert_processed_list history_key
  recorded-insert_processed_list a b s e k h = ground (
    arith,
    find-insert (history_key a) (history_key b) b s.processed_map,
    eq_refl (history_key b),
  )

  -- What becomes of the second of two requests with one id.
  unfoldable pub second : Request A → Request A → A → Request A
  second again first balance =
      if req_consistent again first
      then record again { check_result = CheckRequest.processed; reply = first.reply }
      else record again {
        check_result = CheckRequest.inconsistent;
        reply = record (new_reply again) {
          outcome = ReplyOutcome.inconsistent_with_history;
          balance = balance;
        };
      }

  recorded_answer :
      (again first : Request A) (s : ChainServer A)
      → recorded again s ≡ some first
      → update_request_reply again s
        ≡ (s, second again first (balance_at again.account_id (accounts s)))
  unfolding second
  recorded_answer again first s h = ground (
    arith,
    update_request_reply_duplicate again first s,
    update_request_reply_conflict again first s,
  )

  -- What `update_request_reply` does at the first of two requests is all that happens to the
  -- accounts: the server that has recorded it answers the second from its history.
  module _ (req again : Request A) (s : ChainServer A) (same : SameId again req)
      (new : recorded req s ≡ none) (unseen : find (history_key req) s.processed_map ≡ none) where
    abbrev pub answered : ChainServer A × Request A
    answered = update_request_reply req s

    abbrev pub processed_then : ChainServer A
    processed_then = insert_processed_list answered.1 answered.0

    abbrev pub sent_then : ChainServer A
    sent_then = insert_sent_list answered.1 answered.0

    same_answered : SameId again answered.1
    same_answered = ground (arith, same, update_request_reply_new req s new)

    unseen_answered : find (history_key answered.1) answered.0.processed_map ≡ none
    unfolding history_key
    unseen_answered = ground (arith, unseen, update_request_reply_new req s new)

    known_answered : is_some (find answered.1.account_id (accounts answered.0)) ≡ true
    known_answered =
        ground (arith, update_request_reply-knows req s new, update_request_reply_new req s new)

    after_processed : recorded again processed_then ≡ some answered.1
    after_processed =
        recorded-insert_processed_list again answered.1 answered.0 same_answered known_answered
          unseen_answered

    -- A request that was not on record is carried out and put into the processed map. A second
    -- request with the same id and account is then answered with the first one's reply if the two
    -- agree, and refused if not. Either way the server stays as it is.
    pub resubmit_processed : update_request_reply again processed_then ≡ (
      processed_then,
      second again answered.1 (balance_at again.account_id (accounts processed_then)),
    )
    resubmit_processed = recorded_answer again answered.1 processed_then after_processed
