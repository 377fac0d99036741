-- ===== src/Server/Link/Finish.antt =====
-- The last server of a chain in src-cpp/server/server.cc takes an update: `finish_update`,
-- `tail_handle_update` and `single_handle_update` there, and the acknowledgement at the head.
use chain_replication.Base.{
  ◌≡◌, refl, ap, ◌∙◌, Bool, true, false, [], ◌∷◌, arith, if◌then◌else◌, is_empty,
}
use chain_replication.Base.Map.{Map, insert}
use chain_replication.Exec.{ok, ◌>>=◌}
use chain_replication.Exec.Rules.{bind_ok}
use chain_replication.Proto.{Request}
use chain_replication.Proto.Float.{FloatOps}
use chain_replication.Server.State.{ChainServer, Process, no_failure, accounts, with_accounts}
use chain_replication.Server.History.{
  history_key, insert_processed_list, pop_sent_list, update_request_reply, new_reply,
}
use chain_replication.Server.History.Verdict.{recorded, check_verdict}
use chain_replication.Server.Update.{
  is_newreq, is_transfer, finish_update, handle_transfer, replies, tail_handle_update,
  single_handle_update, pop_acked, receive_ack,
}
use chain_replication.Server.Validity.Ledger.{update_request_reply_frame}
use chain_replication.Server.Link.Round.{
  IsReliable, posted, reply_packet, ack_packet, reply_to_client-posted, sendback_ack-posted,
}
use chain_replication.Server.Link.Forward.{answered}

module _ {A : Type 0} where
  -- A history with a request put on record, if it is new.
  abbrev pub filed_map : Bool → Request A → Map (Request A) → Map (Request A)
  filed_map true x m = (insert (history_key x) x m).0
  filed_map false x m = m

  abbrev pub filed : Bool → Request A → ChainServer A → ChainServer A
  filed b x s = record s { processed_map = filed_map b x s.processed_map }

  insert_processed_list_lem :
      (x : Request A) (s : ChainServer A) → insert_processed_list x s ≡ filed true x s
  unfolding insert_processed_list insert
  insert_processed_list_lem x s = ground arith

  finish_update_lem :
      (x : Request A) (p : Process A)
      → IsReliable p.wire.net
      → p.server.fail_scenario ≡ no_failure
      → p.server.extending_chain ≡ false
      → finish_update x p ≡ (
        ok tt,
        record p {
          server = filed (is_newreq x.check_result) x p.server;
          wire = posted (reply_packet x) p.wire;
        },
      )
  unfolding finish_update ◌>>=◌
  finish_update_lem x p o f e =
      ground (arith, insert_processed_list_lem x p.server, e)
      ∙ reply_to_client-posted x (record p { server = filed (is_newreq x.check_result) x p.server })
          o f

  -- The acknowledgement of the one request that waits at a head.
  pub receive_ack_lem :
      (x : Request A) (p : Process A)
      → p.server.ishead ≡ true
      → p.server.sent_list ≡ x ∷ []
      → receive_ack (record { bank_update_seq = x.bank_update_seq }) p
        ≡ (ok tt, record p { server = record (filed true x p.server) { sent_list = [] } })
  unfolding receive_ack pop_acked pop_sent_list ◌>>=◌
  receive_ack_lem x p h l = rw (popped, h) refl
    where
      popped :
          pop_acked x.bank_update_seq p.server.sent_list p.server
          ≡ record (filed true x p.server) { sent_list = [] }
      popped =
          ap (λ xs. pop_acked x.bank_update_seq xs p.server) l
          ∙ ground (arith, insert_processed_list_lem x p.server, l)

module _ {A : Type 0} ⦃f : FloatOps A⦄ where
  -- With nothing waiting, a request that is not new is on record already.
  pub filed_again :
      (req : Request A) (s : ChainServer A)
      → s.sent_list ≡ []
      → let x = answered req s in
        filed_map true x s.processed_map ≡ filed_map (is_newreq x.check_result) x s.processed_map
  unfolding insert update_request_reply history_key recorded
  filed_again req s l = ground (arith, l, check_verdict req (new_reply req) s)

  -- The last server, once it has taken a request.
  abbrev pub finished : Request A → ChainServer A → ChainServer A
  finished req s =
      let (s', x) = update_request_reply req s in
      filed (is_newreq x.check_result) x (with_accounts s (accounts s'))

  abbrev pub replied : Request A → Process A → Process A
  replied req p = record p {
    server = finished req p.server;
    wire = posted (reply_packet (answered req p.server)) p.wire;
  }

  -- A process that has nothing else to do.
  pub record IsQuiet (p : Process A) : Type 0 where
    pub reliable : IsReliable p.wire.net
    pub sound : p.server.fail_scenario ≡ no_failure
    pub settled : p.server.extending_chain ≡ false
    pub nothing_sent : p.server.sent_list ≡ []

  -- The server once its accounts have changed.
  abbrev answering : Request A → Process A → Process A
  answering req p = record p {
    server = with_accounts p.server (accounts (update_request_reply req p.server).0);
  }

  replies_lem :
      (req : Request A) (p : Process A)
      → replies req p ≡ (ok (answered req p.server), answering req p)
  unfolding replies
  replies_lem req p =
      ap (λ s. (ok (answered req p.server), record p { server = s }))
        (update_request_reply_frame req p.server).0

  module _ (req : Request A) (p : Process A) (o : IsQuiet p)
      (t : is_transfer req.type ≡ false) where
    finish_lem : finish_update (answered req p.server) (answering req p) ≡ (ok tt, replied req p)
    finish_lem =
        finish_update_lem (answered req p.server) (answering req p) o.reliable o.sound o.settled

    same : answered req p.server ≡ record req {
      check_result = (answered req p.server).check_result;
      reply = (answered req p.server).reply;
    }
    same = (update_request_reply_frame req p.server).1

    kind : is_transfer (answered req p.server).type ≡ false
    kind = ap (λ x. is_transfer (Request.type x)) same ∙ t

    seq : (answered req p.server).bank_update_seq ≡ req.bank_update_seq
    seq = ap (λ x. Request.bank_update_seq x) same

    idle : is_empty p.server.sent_list ≡ true
    idle = ap is_empty o.nothing_sent

    pub single_handle_update_lem : single_handle_update req p ≡ (ok tt, replied req p)
    unfolding single_handle_update
    single_handle_update_lem =
        bind_ok (replies req)
          (λ x. if is_transfer x.type then handle_transfer x else finish_update x)
          (replies_lem req p)
        ∙ rw kind finish_lem

    pub tail_handle_update_lem : tail_handle_update req p ≡ (
      ok tt,
      record (replied req p) {
        wire =
            posted (ack_packet p.server.pre_server_addr req.bank_update_seq) (replied req p).wire;
      },
    )
    unfolding tail_handle_update ◌>>=◌
    tail_handle_update_lem =
        rw (replies_lem req p, kind, finish_lem, idle, seq)
          (sendback_ack-posted req.bank_update_seq (replied req p) o.reliable.streams o.sound)
