-- ===== src/Server/Link/Forward.antt =====
-- What a server of src-cpp/server/server.cc that has a successor does with an update, as an equation:
-- the head and the internal servers, without failures.
use chain_replication.Base.{
  ◌+◌, ◌<◌, ◌≡◌, sym, ap, subst, ◌∙◌, Bool, true, false, [], ◌∷◌, ◌++◌, arith, leb, ◌==◌, u32_mod,
  u32_inc, u32_dec, u32_dec_exact,
}
use chain_replication.Exec.{ok, ◌>>=◌}
use chain_replication.Proto.{Request, RequestType, query}
use chain_replication.Proto.Float.{FloatOps}
use chain_replication.Server.State.{ChainServer, Process, no_failure, accounts}
use chain_replication.Server.History.{insert_sent_list, update_request_reply}
use chain_replication.Server.Send.{forward_request}
use chain_replication.Server.Update.{
  replies, head_handle_update, internal_handle_update, number_request, follow_request, receive_at,
  receive_update, receive_request,
}
use chain_replication.Server.Update.Effect.{numbered}
use chain_replication.Server.Validity.Ledger.{update_request_reply_frame}
use chain_replication.Server.Reconfigure.Resend.{IsOpen, sent, forward_request-sent}
use chain_replication.Server.Link.{Replicas}
use chain_replication.Server.Link.Answers.{answer_again, answers_alike}

abbrev pub is_update : RequestType → Bool
is_update query = false
is_update _ = true

module _ {A : Type 0} ⦃f : FloatOps A⦄ where
  -- The answered request, which goes down the chain.
  abbrev pub answered : Request A → ChainServer A → Request A
  answered req s = (update_request_reply req s).1

  -- The server once it has taken the request and keeps it waiting.
  abbrev pub kept : Request A → ChainServer A → ChainServer A
  kept req s = record s {
    bank = record s.bank { account_map = accounts (update_request_reply req s).0 };
    sent_list = s.sent_list ++ answered req s ∷ [];
  }

  insert_answered :
      (req : Request A) (s : ChainServer A)
      → insert_sent_list (answered req s) (update_request_reply req s).0 ≡ kept req s
  unfolding insert_sent_list
  insert_answered req s =
      ap (insert_sent_list (answered req s)) (update_request_reply_frame req s).0

  -- The process once it has also sent the request on.
  abbrev pub passed_on : Request A → Process A → Process A
  passed_on req p = record p {
    server = kept req p.server;
    wire = sent p.server.succ_server_addr (answered req p.server) p.wire;
  }

  head_handle_update_lem :
      (req : Request A) (p : Process A)
      → IsOpen p.wire.net
      → p.server.fail_scenario ≡ no_failure
      → head_handle_update req p ≡ (ok tt, passed_on req p)
  unfolding head_handle_update replies ◌>>=◌
  head_handle_update_lem req p o n =
      subst
        (λ s.
          forward_request (answered req p.server) (record p { server = s })
          ≡ (ok tt, passed_on req p))
        (sym (insert_answered req p.server))
        (forward_request-sent (answered req p.server) (record p { server = kept req p.server }) o n)

  internal_handle_update_lem :
      (req : Request A) (p : Process A)
      → IsOpen p.wire.net
      → p.server.fail_scenario ≡ no_failure
      → internal_handle_update req p ≡ (ok tt, passed_on req p)
  unfolding internal_handle_update head_handle_update
  internal_handle_update_lem req p o n = head_handle_update_lem req p o n

  -- An update goes through `receive_at`, with the server's place.
  pub receive_update_lem :
      (req : Request A) (b c : Bool) (p : Process A)
      → is_update req.type ≡ true
      → p.server.ishead ≡ b
      → p.server.istail ≡ c
      → receive_request req p ≡ receive_at b c req p
  unfolding receive_request receive_update ◌>>=◌
  receive_update_lem req b c p u h t =
      subst (λ x. receive_request req p ≡ receive_at x c req p) h
        (subst (λ y. receive_request req p ≡ receive_at p.server.ishead y req p) t (ground arith))

  -- What the head makes of a request, and its state before the answer.
  abbrev pub stamped : Request A → ChainServer A → Request A
  stamped req s = record req { bank_update_seq = u32_inc s.bank_update_seq }

  abbrev pub ready : Process A → Process A
  ready p = record p { server = numbered (u32_inc p.server.bank_update_seq) p.server }

  pub at_head :
      (req : Request A) (p : Process A)
      → IsOpen p.wire.net
      → p.server.fail_scenario ≡ no_failure
      → receive_at true false req p ≡ (ok tt, passed_on (stamped req p.server) (ready p))
  unfolding receive_at number_request ◌>>=◌
  at_head req p o n = head_handle_update_lem (stamped req p.server) (ready p) o n

  -- The request that follows the last one is taken behind the head.
  pub behind_head :
      (req : Request A) (p : Process A)
      → IsOpen p.wire.net
      → p.server.fail_scenario ≡ no_failure
      → p.server.bank_update_seq + 1 ≡ req.bank_update_seq
      → req.bank_update_seq < u32_mod
      → receive_at false false req p
        ≡ (ok tt, passed_on req (record p { server = numbered req.bank_update_seq p.server }))
  unfolding receive_at follow_request ◌>>=◌
  behind_head req p o n next room =
      rw (newer, follows)
        (internal_handle_update_lem req
          (record p { server = numbered req.bank_update_seq p.server }) o n)
    where
      newer : leb req.bank_update_seq p.server.bank_update_seq ≡ false
      newer = ground (arith, next)

      follows : p.server.bank_update_seq == u32_dec req.bank_update_seq ≡ true
      follows = ground (arith, u32_dec_exact req.bank_update_seq, next, room)

  -- The request that the head forwards, and the head afterwards.
  abbrev pub forwarded : Request A → Process A → Request A
  forwarded req p = answered (stamped req p.server) (ready p).server

  abbrev pub head_after : Request A → Process A → Process A
  head_after req p = passed_on (stamped req p.server) (ready p)

  module _ (req : Request A) (p : Process A) where
    pub seq_forwarded : (forwarded req p).bank_update_seq ≡ u32_inc p.server.bank_update_seq
    seq_forwarded =
        ap (λ (x : Request A). x.bank_update_seq)
          (update_request_reply_frame (stamped req p.server) (ready p).server).1

    pub type_forwarded : (forwarded req p).type ≡ req.type
    type_forwarded =
        ap (λ (x : Request A). x.type)
          (update_request_reply_frame (stamped req p.server) (ready p).server).1

    -- The next server answers what the head has answered as the head did.
    answers_again :
        (update_request_reply (forwarded req p) (ready p).server)
        ≡ update_request_reply (stamped req p.server) (ready p).server
    answers_again =
        ap (λ x. update_request_reply x (ready p).server)
          (update_request_reply_frame (stamped req p.server) (ready p).server).1
        ∙ answer_again (stamped req p.server) _ _ (ready p).server

    -- So do its replicas.
    pub alike :
        (t' : ChainServer A)
        → Replicas p.server t'
        → let t = numbered (forwarded req p).bank_update_seq t' in
          (answered (forwarded req p) t ≡ forwarded req p)
          × (accounts (update_request_reply (forwarded req p) t).0
              ≡ accounts (update_request_reply (stamped req p.server) (ready p).server).0)
    alike t' r =
        let e =
          answers_alike (forwarded req p) (ready p).server
            (numbered (forwarded req p).bank_update_seq t') r.same_accounts r.same_history
            r.same_sent in
        (e.0 ∙ ap (λ v. v.1) answers_again, e.1 ∙ ap (λ v. accounts v.0) answers_again)
