-- ===== src/Server/Link/AsOne/Run.antt =====
-- Sequences of updates at a chain of two servers of src-cpp/server/server.cc, and at a single server.
use chain_replication.Base.{
  ◌+◌, ◌<◌, ◌≡◌, refl, sym, ap, subst, ◌∙◌, true, List, [], ◌∷◌, arith, All, length, u32_mod,
  u32_inc_exact, is_some, keep, if◌then◌else◌,
}
use chain_replication.Exec.{ok, for_each, ◌>>=◌}
use chain_replication.Proto.{Address, Request}
use chain_replication.Proto.Float.{FloatOps}
use chain_replication.Wire.{Packet}
use chain_replication.Server.State.{ChainServer, Process}
use chain_replication.Server.Update.{receive_request}
use chain_replication.Server.Update.Effect.{numbered}
use chain_replication.Server.Link.{Replicas}
use chain_replication.Server.Link.Round.{reply_packet}
use chain_replication.Server.Link.Finish.{replied}
use chain_replication.Server.Link.Forward.{answered, forwarded, alike}
use chain_replication.Server.Link.AsOne.{
  is_local, round, head_at_end, ready_for, tail_at_end, down_lem,
}
use chain_replication.Server.Link.AsOne.Step.{
  IsPair, IsSingle, single_step, round_lem, IsPair-after, IsSingle-after,
}

module _ {A : Type 0} ⦃f : FloatOps A⦄ where
  -- The replies among the packets that went out.
  abbrev pub replies_in : List (Packet A) → List (Packet A)
  replies_in ks = keep (λ k. is_some k.message.reply) ks

  -- A head and the tail behind it are replicas of one another and have nothing waiting, and a single
  -- server has the same data. All sends go through, no crash is injected, and the chain is not being
  -- extended. The head takes any sequence of updates other than transfers, for which it has numbers
  -- left: what it sends reaches the tail, and the acknowledgement of the tail reaches the head, before
  -- the next update comes. The single server takes the same sequence. Then no assertion fails, the
  -- tail has sent exactly the replies that the single server has sent, in their order, to the same
  -- clients, the head has nothing waiting, and both the tail and the single server have the accounts,
  -- the history, the sent list and the last number of the head.
  pub chain_as_one :
      (reqs : List (Request A)) (p q o : Process A)
      → IsPair p q
      → IsSingle p o
      → All (λ req. is_local req.type ≡ true) reqs
      → p.server.bank_update_seq + length reqs < u32_mod
      → replies_in q.wire.packets ≡ replies_in o.wire.packets
      → let two = for_each reqs round (p, q) in
        let one = for_each reqs receive_request o in
        (two.0 ≡ ok tt)
        × (one.0 ≡ ok tt)
        × (replies_in two.1.1.wire.packets ≡ replies_in one.1.wire.packets)
        × (two.1.0.server.sent_list ≡ [])
        × (Replicas two.1.0.server two.1.1.server × Replicas two.1.0.server one.1.server)
  unfolding for_each ◌>>=◌
  chain_as_one [] p q o l s u room e =
      (refl, refl, e, l.quiet.nothing_sent, (l.replicas, s.replicas))
  chain_as_one (req ∷ reqs) p q o l s u room e =
      rw (round_lem req p u.0 q l (omega arith), single_step req p u.0 o s)
        (chain_as_one reqs (head_at_end req p) (tail_at_end (forwarded req p) q)
          (replied (forwarded req p) (ready_for (forwarded req p) o)) (IsPair-after req p u.0 q l)
          (IsSingle-after req p u.0 q l o s) u.1
          (omega (arith, u32_inc_exact p.server.bank_update_seq (omega arith)))
          (λ i. reply_packet (same_reply i) ∷ e i))
    where
      same_reply :
          answered (forwarded req p) (numbered (forwarded req p).bank_update_seq q.server)
          ≡ answered (forwarded req p) (numbered (forwarded req p).bank_update_seq o.server)
      same_reply = (alike req p q.server l.replicas).0 ∙ sym (alike req p o.server s.replicas).0

  -- Who was replied to, the latest first.
  abbrev pub answered_to : List (Packet A) → List Address
  answered_to [] = []
  answered_to (k ∷ ks) =
      if is_some k.message.reply then k.target ∷ answered_to ks else answered_to ks

  abbrev pub asked_by : List (Request A) → List Address → List Address
  asked_by [] before = before
  asked_by (req ∷ reqs) before = asked_by reqs (req.client_addr ∷ before)

  reply_target :
      (req : Request A) (p : Process A) (t : ChainServer A)
      → Replicas p.server t
      → (answered (forwarded req p) (numbered (forwarded req p).bank_update_seq t)).client_addr
        ≡ req.client_addr
  reply_target req p t r = ap (λ x. Request.client_addr x) ((alike req p t r).0 ∙ down_lem req p)

  -- A head and the tail behind it are replicas of one another and have nothing waiting, all sends go
  -- through, no crash is injected, and the chain is not being extended. The head takes a sequence of
  -- updates other than transfers, for which it has numbers left, each once the acknowledgement of
  -- the one before has come. Then no assertion fails, the tail sends one reply for each update to the
  -- client that it names, in the order of the updates, and no other reply, and the head ends with
  -- nothing waiting.
  pub every_update_answered :
      (reqs : List (Request A)) (p q : Process A)
      → IsPair p q
      → All (λ req. is_local req.type ≡ true) reqs
      → p.server.bank_update_seq + length reqs < u32_mod
      → let two = for_each reqs round (p, q) in
        (two.0 ≡ ok tt)
        × (answered_to two.1.1.wire.packets ≡ asked_by reqs (answered_to q.wire.packets))
        × (two.1.0.server.sent_list ≡ [])
  unfolding for_each ◌>>=◌
  every_update_answered [] p q l u room = (refl, refl, l.quiet.nothing_sent)
  every_update_answered (req ∷ reqs) p q l u room = rw (round_lem req p u.0 q l (omega arith)) (
      subst
        (λ a.
          let two = for_each reqs round (head_at_end req p, tail_at_end (forwarded req p) q) in
          (two.0 ≡ ok tt)
          × (answered_to two.1.1.wire.packets ≡ asked_by reqs (a ∷ answered_to q.wire.packets))
          × (two.1.0.server.sent_list ≡ []))
        (reply_target req p q.server l.replicas)
        (every_update_answered reqs (head_at_end req p) (tail_at_end (forwarded req p) q)
          (IsPair-after req p u.0 q l) u.1
          (omega (arith, u32_inc_exact p.server.bank_update_seq (omega arith)))))
