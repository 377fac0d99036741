-- ===== src/Server/Update.antt =====
-- Requests, acknowledgements and transfers at a server: `receive_request` and the handlers below it,
-- `receive_ack`, `handle_transfer` and `receive_transfer_reply` of src-cpp/server/server.cc.
pub mod Local
pub mod Effect
use chain_replication.Base.{
  ℕ, Bool, true, false, not, ◌&&◌, ◌||◌, List, [], ◌∷◌, ◌++◌, leb, ◌==◌, str_eq, is_empty, u32_inc,
  u32_dec, if◌then◌else◌,
}
use chain_replication.Exec.{Result, Exec, pure, done, require, ◌>>=◌, ◌>>◌}
use chain_replication.Proto.{
  Request, RequestType, query, transfer, Reply, ReplyOutcome, CheckRequest, Acknowledge,
}
use chain_replication.Proto.Float.{FloatOps}
use chain_replication.Server.State.{ChainServer, Process, accounts, with_accounts, asks, updates}
use chain_replication.Server.Accounts.{get_balance}
use chain_replication.Server.History.{
  insert_processed_list, insert_sent_list, pop_sent_list, update_request_reply,
}
use chain_replication.Server.Send.{
  forward_request, reply_to_client, sendback_ack, forward_transfer_to_downstream,
}

abbrev pub is_newreq : CheckRequest → Bool
is_newreq CheckRequest.newreq = true
is_newreq _ = false

abbrev pub is_processed : ReplyOutcome → Bool
is_processed ReplyOutcome.processed = true
is_processed _ = false

abbrev pub is_transfer : RequestType → Bool
is_transfer transfer = true
is_transfer _ = false

module _ {A : Type 0} where
  -- The `while` loop of `receive_ack`, on the list that it pops.
  unfoldable pub pop_acked : ℕ → List (Request A) → ChainServer A → ChainServer A
  pop_acked n [] s = s
  pop_acked n (x ∷ xs) s =
      let rest = pop_acked n xs (pop_sent_list (insert_processed_list x s)) in
      if leb x.bank_update_seq n then rest else s

  unfoldable pub receive_ack : Acknowledge → Exec (Process A) (Unit {0})
  unfolding ◌>>=◌
  receive_ack ack = do
    updates (λ s. pop_acked ack.bank_update_seq s.sent_list s)
    ishead ← asks (λ s. s.ishead)
    if not ishead then sendback_ack ack else done

  -- `it->req_id() == req.req_id() && it->account_id() == req.account_id()` for some entry.
  unfoldable pub processing : Request A → List (Request A) → Bool
  processing req [] = false
  processing req (x ∷ xs) =
      (str_eq x.req_id req.req_id && str_eq x.account_id req.account_id) || processing req xs

  -- The first `if` of `handle_transfer`: a new transfer is recorded, and goes downstream if it was
  -- carried out here.
  unfoldable pub start_transfer : Request A → Exec (Process A) (Unit {0})
  unfolding ◌>>=◌
  start_transfer req = do
    updates (insert_processed_list req)
    if is_processed req.reply.outcome
        then (updates (insert_sent_list req) >> forward_transfer_to_downstream req)
        else done

  -- A repeated transfer is answered unless it is still on its way downstream.
  unfoldable pub answer_duplicate : Request A → Exec (Process A) (Unit {0})
  unfolding ◌>>=◌
  answer_duplicate req = do
    busy ← asks (λ s. processing req s.sent_list)
    if not busy then reply_to_client req else done

  unfoldable pub handle_transfer : Request A → Exec (Process A) (Unit {0})
  unfolding ◌>>=◌
  handle_transfer req = do
    if is_newreq req.check_result then start_transfer req else done
    if not (is_processed req.reply.outcome)
        then reply_to_client req
        else if not (is_newreq req.check_result)
        then answer_duplicate req
        else done

  -- The branch for other requests, at a single server and at a tail.
  unfoldable pub finish_update : Request A → Exec (Process A) (Unit {0})
  unfolding ◌>>=◌
  finish_update req = do
    if is_newreq req.check_result then updates (insert_processed_list req) else done
    extending ← asks (λ s. s.extending_chain)
    if extending then updates (insert_sent_list req) else done
    reply_to_client req

  -- The loop of `receive_transfer_reply` at one entry: whether it is the one replied to.
  abbrev pub replied : Reply A → Request A → Bool
  replied reply x = str_eq x.req_id reply.req_id && str_eq x.dest_account_id reply.account_id

  -- What follows the erasure: the acknowledgement waits until no transfer is pending.
  unfoldable pub ack_when_empty : Exec (Process A) (Unit {0})
  unfolding ◌>>=◌
  ack_when_empty = do
    ready ← asks (λ s. is_empty s.sent_list && not s.ishead)
    seq ← asks (λ s. s.bank_update_seq)
    if ready then sendback_ack (record { bank_update_seq = seq }) else done

  -- The loop's iterator stands between the entries that it has passed and those to come.
  unfoldable pub erase_replied :
      Reply A → List (Request A) → List (Request A) → Exec (Process A) (Unit {0})
  unfolding ◌>>=◌
  erase_replied reply passed [] = done
  erase_replied reply passed (x ∷ xs) =
      let erased = (do
        reply_to_client x
        updates (λ s. record s { sent_list = passed ++ xs })
        ack_when_empty
        erase_replied reply passed xs) in
      let kept = erase_replied reply (passed ++ x ∷ []) xs in
      if replied reply x then erased else kept

  unfoldable pub receive_transfer_reply : Reply A → Exec (Process A) (Unit {0})
  unfolding ◌>>=◌
  receive_transfer_reply reply = do
    require (is_processed reply.outcome)
    sent_list ← asks (λ s. s.sent_list)
    erase_replied reply [] sent_list

module _ {A : Type 0} ⦃f : FloatOps A⦄ where
  -- `update_request_reply(req)`: the request comes back with its reply.
  unfoldable pub replies : Request A → Exec (Process A) (Request A)
  replies req p =
      let (s, req') = update_request_reply req p.server in (Result.ok req', record p { server = s })

  -- The balance is read, and an unknown account created.
  unfoldable pub reads_balance : Request A → Exec (Process A) A
  reads_balance req p =
      let (m, balance) = get_balance req.account_id (accounts p.server) in
      (Result.ok balance, record p { server = with_accounts p.server m })

  unfoldable pub handle_query : Request A → Exec (Process A) (Unit {0})
  unfolding ◌>>=◌
  handle_query req = do
    balance ← reads_balance req
    reply_to_client (record req {
      reply = record {
        req_id = req.req_id;
        outcome = ReplyOutcome.processed;
        account_id = req.account_id;
        balance = balance;
      };
    })

  unfoldable pub head_handle_update : Request A → Exec (Process A) (Unit {0})
  unfolding ◌>>=◌
  head_handle_update req = do
    req' ← replies req
    updates (insert_sent_list req')
    forward_request req'

  unfoldable pub single_handle_update : Request A → Exec (Process A) (Unit {0})
  unfolding ◌>>=◌
  single_handle_update req = do
    req' ← replies req
    if is_transfer req'.type then handle_transfer req' else finish_update req'

  unfoldable pub tail_handle_update : Request A → Exec (Process A) (Unit {0})
  unfolding ◌>>=◌
  tail_handle_update req = do
    req' ← replies req
    if is_transfer req'.type then handle_transfer req' else finish_update req'
    idle ← asks (λ s. is_empty s.sent_list)
    if idle then sendback_ack (record { bank_update_seq = req'.bank_update_seq }) else done

  unfoldable pub internal_handle_update : Request A → Exec (Process A) (Unit {0})
  unfolding ◌>>=◌
  internal_handle_update req = do
    req' ← replies req
    updates (insert_sent_list req')
    forward_request req'

  -- At a head: the next sequence number goes into the request.
  unfoldable pub number_request : Request A → Exec (Process A) (Request A)
  unfolding ◌>>=◌
  number_request req = do
    updates (λ s. record s { bank_update_seq = u32_inc s.bank_update_seq })
    seq ← asks (λ s. s.bank_update_seq)
    pure (record req { bank_update_seq = seq })

  -- What `receive_request` does with an update at a server that is not the head: a number that is not
  -- new is dropped, and the next one is asserted to follow.
  unfoldable pub follow_request : Bool → Bool → Request A → Exec (Process A) (Unit {0})
  unfolding ◌>>=◌
  follow_request ishead istail req = do
    seq ← asks (λ s. s.bank_update_seq)
    if leb req.bank_update_seq seq then done else (do
      require (seq == u32_dec req.bank_update_seq)
      updates (λ s. record s { bank_update_seq = req.bank_update_seq })
      if not ishead && istail
          then tail_handle_update req
          else (do require (not ishead && not istail); internal_handle_update req))

  -- The tests of `receive_request` on an update, in the code's order.
  unfoldable pub receive_at : Bool → Bool → Request A → Exec (Process A) (Unit {0})
  unfolding ◌>>=◌
  receive_at ishead istail req =
      if ishead && not istail
      then (do req' ← number_request req; head_handle_update req')
      else if ishead && istail
      then (do req' ← number_request req; single_handle_update req')
      else follow_request ishead istail req

  unfoldable pub receive_update : Request A → Exec (Process A) (Unit {0})
  unfolding ◌>>=◌
  receive_update req = do
    ishead ← asks (λ s. s.ishead)
    istail ← asks (λ s. s.istail)
    receive_at ishead istail req

  unfoldable pub receive_request : Request A → Exec (Process A) (Unit {0})
  unfolding ◌>>=◌
  receive_request req = elim req.type [
    | query ↦ (do istail ← asks (λ s. s.istail); require istail; handle_query req)
    | _ ↦ receive_update req
  ]
