-- ===== src/Server/Update/Local.antt =====
-- What the last steps of the handlers in src-cpp/server/server.cc do to `*cs`, and a rule for code
-- whose changes to the object come before its sends: no outcome of a send, and no crash after one,
-- changes what it does.
use chain_replication.Base.{◌≡◌, refl, ◌∙◌, Bool, true, false, not, is_empty, arith, if◌then◌else◌}
use chain_replication.Exec.{Result, ok, exited, aborted, threw, continue, Exec, done, ◌>>=◌}
use chain_replication.Proto.{Request, Acknowledge}
use chain_replication.Server.State.{ChainServer, Process, asks}
use chain_replication.Server.History.{insert_processed_list, insert_sent_list}
use chain_replication.Server.Send.Frame.{
  Keeps, forward_request-Keeps, sendback_ack-Keeps, reply_to_client-Keeps,
  forward_transfer_to_downstream-Keeps, frame_rules,
}
use chain_replication.Server.Send.{
  forward_request, reply_to_client, sendback_ack, forward_transfer_to_downstream,
}
use chain_replication.Server.Update.{
  is_newreq, is_processed, is_transfer, pop_acked, receive_ack, start_transfer, answer_duplicate,
  handle_transfer, finish_update,
}

module _ {A : Type 0} where
  -- `m` changes the server by `e`, whatever its outcome.
  pub record Effect {Q : Type 0} (e : ChainServer A → ChainServer A) (m : Exec (Process A) Q)
      : Type 0 where
    pub at : (p : Process A) → (m p).1.server ≡ e p.server

  pub Effect-then :
      {P Q : Type 0} (e : ChainServer A → ChainServer A) (m : Exec (Process A) P)
      (g : P → Exec (Process A) Q)
      → Effect e m
      → ((x : P) → Keeps (g x))
      → Effect e (m >>= g)
  unfolding ◌>>=◌
  Effect-then {P} e m g h k = record { at = λ p. kept (m p).0 (m p).1 ∙ h.at p }
    where
      kept : (r : Result P) (q : Process A) → (continue r g q).1.server ≡ q.server
      kept (ok x) q = (k x).at q
      kept exited q = refl
      kept aborted q = refl
      kept threw q = refl

  -- The same effect, with the sends that come last.
  Effect-if :
      {Q : Type 0} (b : Bool) (d e : ChainServer A → ChainServer A) (m n : Exec (Process A) Q)
      → Effect d m
      → Effect e n
      → Effect (if b then d else e) (if b then m else n)
  Effect-if true d e m n h k = h
  Effect-if false d e m n h k = k

  reply_to_client-at :
      (req : Request A) (q : Process A) → (reply_to_client req q).1.server ≡ q.server
  reply_to_client-at req q = (reply_to_client-Keeps req).at q

  sendback_ack-at : (ack : Acknowledge) (q : Process A) → (sendback_ack ack q).1.server ≡ q.server
  sendback_ack-at ack q = (sendback_ack-Keeps ack).at q

  pub forward_request-at :
      (req : Request A) (q : Process A) → (forward_request req q).1.server ≡ q.server
  forward_request-at req q = (forward_request-Keeps req).at q

  downstream-at :
      (req : Request A) (q : Process A) → (forward_transfer_to_downstream req q).1.server ≡ q.server
  downstream-at req q = (forward_transfer_to_downstream-Keeps req).at q

  unfoldable pub finish_effect : Request A → ChainServer A → ChainServer A
  finish_effect req s =
      let s' = (if is_newreq req.check_result then insert_processed_list req s else s) in
      if s'.extending_chain then insert_sent_list req s' else s'

  finish_update-Effect : (req : Request A) → Effect (finish_effect req) (finish_update req)
  unfolding finish_update ◌>>=◌ finish_effect
  finish_update-Effect req = record { at = λ p. grind (arith, reply_to_client-at) }

  unfoldable pub transfer_effect : Request A → ChainServer A → ChainServer A
  transfer_effect req s =
      if is_newreq req.check_result
      then (if is_processed req.reply.outcome
          then insert_sent_list req (insert_processed_list req s)
          else insert_processed_list req s)
      else s

  answer_duplicate-Keeps : (req : Request A) → Keeps (answer_duplicate req)
  unfolding answer_duplicate
  answer_duplicate-Keeps req = search (frame_rules, reply_to_client-Keeps)

  start_transfer-Effect :
      (req : Request A)
      → is_newreq req.check_result ≡ true
      → Effect (transfer_effect req) (start_transfer req)
  unfolding start_transfer ◌>>=◌ transfer_effect
  start_transfer-Effect req h = record { at = λ p. grind (arith, downstream-at) }

  begin_transfer-Effect :
      (req : Request A) (b : Bool)
      → is_newreq req.check_result ≡ b
      → Effect (transfer_effect req) (if b then start_transfer req else done)
  unfolding transfer_effect
  begin_transfer-Effect req true h = start_transfer-Effect req h
  begin_transfer-Effect req false h = record { at = λ p. ground arith }

  handle_transfer-Effect : (req : Request A) → Effect (transfer_effect req) (handle_transfer req)
  unfolding handle_transfer
  handle_transfer-Effect req =
      Effect-then (transfer_effect req) _ (λ _. answers)
        (begin_transfer-Effect req (is_newreq req.check_result) refl) (λ _. answers-Keeps)
    where
      answers : Exec (Process A) (Unit {0})
      answers =
          if not (is_processed req.reply.outcome)
          then reply_to_client req
          else if not (is_newreq req.check_result)
          then answer_duplicate req
          else done

      answers-Keeps : Keeps answers
      answers-Keeps = search (frame_rules, reply_to_client-Keeps, answer_duplicate-Keeps)

  -- Past `update_request_reply`, at a single server or a tail.
  unfoldable pub local_effect : Request A → ChainServer A → ChainServer A
  local_effect req s = if is_transfer req.type then transfer_effect req s else finish_effect req s

  abbrev pub handle_local : Request A → Exec (Process A) (Unit {0})
  handle_local req = if is_transfer req.type then handle_transfer req else finish_update req

  pub handle_local-Effect : (req : Request A) → Effect (local_effect req) (handle_local req)
  unfolding local_effect
  handle_local-Effect req = record {
    at = λ p. ground (arith, (handle_transfer-Effect req).at p, (finish_update-Effect req).at p);
  }

  -- The end of `tail_handle_update`.
  abbrev pub acknowledge_idle : Request A → Exec (Process A) (Unit {0})
  acknowledge_idle req = do
    idle ← asks (λ s. is_empty s.sent_list)
    if idle then sendback_ack (record { bank_update_seq = req.bank_update_seq }) else done

  pub acknowledge_idle-Keeps : (req : Request A) → Keeps (acknowledge_idle req)
  acknowledge_idle-Keeps req = search (frame_rules, sendback_ack-Keeps)

  pub receive_ack-Effect :
      (ack : Acknowledge)
      → Effect (λ s. pop_acked ack.bank_update_seq s.sent_list s) (receive_ack ack)
  unfolding receive_ack ◌>>=◌
  receive_ack-Effect ack = record {
    at = λ p. ground (
      arith,
      sendback_ack-at ack
          (record p { server = pop_acked ack.bank_update_seq p.server.sent_list p.server }),
    );
  }
