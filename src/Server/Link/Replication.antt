-- ===== src/Server/Link/Replication.antt =====
-- A head of src-cpp/server/server.cc takes updates, and the internal server behind it takes what the
-- head forwards.
use chain_replication.Base.{
  ◌+◌, ◌<◌, ◌≡◌, refl, ap, ◌∙◌, true, false, List, [], ◌∷◌, ◌++◌, length, arith, All, u32_mod,
  u32_inc_exact,
}
use chain_replication.Exec.{ok, for_each, ◌>>=◌}
use chain_replication.Proto.{Request}
use chain_replication.Proto.Float.{FloatOps}
use chain_replication.Server.State.{Process, no_failure}
use chain_replication.Server.Update.{receive_request}
use chain_replication.Server.Update.Effect.{numbered}
use chain_replication.Server.Reconfigure.Resend.{IsOpen, all_sent}
use chain_replication.Server.Link.{Replicas}
use chain_replication.Server.Link.Forward.{
  is_update, receive_update_lem, passed_on, at_head, behind_head, forwarded, head_after, alike,
  seq_forwarded, type_forwarded,
}

module _ {A : Type 0} ⦃f : FloatOps A⦄ where
  -- A head and the internal server behind it, on networks on which TCP sends go through.
  pub record IsLink (p q : Process A) : Type 0 where
    pub head : p.server.ishead ≡ true
    pub not_tail : p.server.istail ≡ false
    pub not_head_next : q.server.ishead ≡ false
    pub not_tail_next : q.server.istail ≡ false
    pub sound : p.server.fail_scenario ≡ no_failure
    pub sound_next : q.server.fail_scenario ≡ no_failure
    pub lossless : IsOpen p.wire.net
    pub lossless_next : IsOpen q.wire.net
    pub replicas : Replicas p.server q.server

  -- The next server afterwards.
  abbrev next_after : Request A → Process A → Process A
  next_after x q = passed_on x (record q { server = numbered x.bank_update_seq q.server })

  module _ (req : Request A) (p q : Process A) (l : IsLink p q) where
    IsLink-after : IsLink (head_after req p) (next_after (forwarded req p) q)
    IsLink-after = record {
      head = l.head;
      not_tail = l.not_tail;
      not_head_next = l.not_head_next;
      not_tail_next = l.not_tail_next;
      sound = l.sound;
      sound_next = l.sound_next;
      lossless = l.lossless;
      lossless_next = l.lossless_next;
      replicas = record {
        same_accounts = (alike req p q.server l.replicas).1;
        same_history = l.replicas.same_history;
        same_sent = λ i. l.replicas.same_sent i ++ (alike req p q.server l.replicas).0 i ∷ [];
        same_seq = seq_forwarded req p;
      };
    }

    head_step : is_update req.type ≡ true → receive_request req p ≡ (ok tt, head_after req p)
    head_step u =
        receive_update_lem req true false p u l.head l.not_tail ∙ at_head req p l.lossless l.sound

    next_step :
        is_update req.type ≡ true
        → p.server.bank_update_seq + 1 < u32_mod
        → receive_request (forwarded req p) q ≡ (ok tt, next_after (forwarded req p) q)
    next_step u room =
        receive_update_lem (forwarded req p) false false q (ap is_update (type_forwarded req p) ∙ u)
          l.not_head_next l.not_tail_next
        ∙ behind_head (forwarded req p) q l.lossless_next l.sound_next
            (ground (
              arith,
              l.replicas.same_seq,
              seq_forwarded req p,
              u32_inc_exact p.server.bank_update_seq room,
            ))
            (ground (arith, seq_forwarded req p, u32_inc_exact p.server.bank_update_seq room))

  -- What the head forwards of a sequence of requests.
  abbrev pub all_forwarded : List (Request A) → Process A → List (Request A)
  all_forwarded [] p = []
  all_forwarded (req ∷ reqs) p = forwarded req p ∷ all_forwarded reqs (head_after req p)

  -- A head and the internal server behind it are replicas of one another, on networks on which TCP
  -- sends go through. The head takes any sequence of updates for which it has numbers left, and the
  -- server behind it takes what the head forwards, in the same order. Then both take all of it and
  -- no assertion fails, what the head sends is exactly one request for each update, in their order,
  -- and the two are replicas again: the same accounts, history, sent list and last number.
  pub receive_request-Replicas :
      (reqs : List (Request A)) (p q : Process A)
      → IsLink p q
      → All (λ req. is_update req.type ≡ true) reqs
      → p.server.bank_update_seq + length reqs < u32_mod
      → let head = for_each reqs receive_request p in
        let next = for_each (all_forwarded reqs p) receive_request q in
        (head.0 ≡ ok tt)
        × (next.0 ≡ ok tt)
        × (head.1.wire ≡ all_sent p.server.succ_server_addr (all_forwarded reqs p) p.wire)
        × Replicas head.1.server next.1.server
  unfolding for_each ◌>>=◌
  receive_request-Replicas [] p q l u room = (refl, refl, refl, l.replicas)
  receive_request-Replicas (req ∷ reqs) p q l u room =
      rw (head_step req p q l u.0, next_step req p q l u.0 (omega arith))
        (receive_request-Replicas reqs (head_after req p) (next_after (forwarded req p) q)
          (IsLink-after req p q l) u.1
          (omega (arith, u32_inc_exact p.server.bank_update_seq (omega arith))))
