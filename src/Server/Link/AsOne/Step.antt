-- ===== src/Server/Link/AsOne/Step.antt =====
-- One update at a chain of two servers of src-cpp/server/server.cc, and at a single server.
use chain_replication.Base.{
  ℕ, ◌+◌, ◌<◌, ◌≡◌, refl, sym, ap, ◌∙◌, true, false, [], ◌∷◌, ◌++◌, arith, leb, ◌==◌, u32_mod,
  u32_inc, u32_dec, u32_inc_exact, u32_dec_exact,
}
use chain_replication.Exec.{ok, ◌>>=◌}
use chain_replication.Proto.{Request}
use chain_replication.Proto.Float.{FloatOps}
use chain_replication.Server.State.{ChainServer, Process, accounts, with_accounts}
use chain_replication.Server.Update.{
  is_newreq, is_transfer, follow_request, number_request, receive_at, receive_request, receive_ack,
}
use chain_replication.Server.Update.Effect.{numbered}
use chain_replication.Server.Link.{Replicas}
use chain_replication.Server.Link.Round.{posted, reply_packet}
use chain_replication.Server.Link.Finish.{
  filed, replied, IsQuiet, receive_ack_lem, single_handle_update_lem, tail_handle_update_lem,
}
use chain_replication.Server.Link.Forward.{
  is_update, receive_update_lem, stamped, ready, at_head, forwarded, head_after, seq_forwarded,
  type_forwarded,
}
use chain_replication.Server.Link.AsOne.{
  is_local, local_update, round, head_at_end, ready_for, tail_at_end, number_again,
  finished-Replicas,
}

module _ {A : Type 0} ⦃f : FloatOps A⦄ where
  -- A head and the tail behind it.
  pub record IsPair (p q : Process A) : Type 0 where
    pub head : p.server.ishead ≡ true
    pub not_tail : p.server.istail ≡ false
    pub not_head : q.server.ishead ≡ false
    pub tail : q.server.istail ≡ true
    pub quiet : IsQuiet p
    pub quiet_tail : IsQuiet q
    pub replicas : Replicas p.server q.server

  -- A single server with the same data as the head.
  pub record IsSingle (p o : Process A) : Type 0 where
    pub head : o.server.ishead ≡ true
    pub tail : o.server.istail ≡ true
    pub quiet : IsQuiet o
    pub replicas : Replicas p.server o.server

  pub numbered-IsQuiet :
      (n : ℕ) (p : Process A) → IsQuiet p → IsQuiet (record p { server = numbered n p.server })
  numbered-IsQuiet n p o = record {
    reliable = o.reliable;
    sound = o.sound;
    settled = o.settled;
    nothing_sent = o.nothing_sent;
  }

  module _ (req : Request A) (p : Process A) (u : is_local req.type ≡ true) where
    pub single_step :
        (o : Process A)
        → IsSingle p o
        → receive_request req o ≡ (ok tt, replied (forwarded req p) (ready_for (forwarded req p) o))
    unfolding receive_at number_request ◌>>=◌
    single_step o s =
        receive_update_lem req true true o (local_update req.type u).0 s.head s.tail
        ∙ single_handle_update_lem (stamped req o.server) (ready o)
            (numbered-IsQuiet (u32_inc o.server.bank_update_seq) o s.quiet)
            (local_update req.type u).1
        ∙ (λ i. (ok tt, done_with (number_again req p o.server s.replicas i) (same_number i)))
      where
        done_with : ChainServer A × Request A → ℕ → Process A
        done_with (s', x') n = record o {
          server =
              filed (is_newreq x'.check_result) x'
                (with_accounts (numbered n o.server) (accounts s'));
          wire = posted (reply_packet x') o.wire;
        }

        same_number : u32_inc o.server.bank_update_seq ≡ (forwarded req p).bank_update_seq
        same_number = ap u32_inc s.replicas.same_seq ∙ sym (seq_forwarded req p)

    module _ (q : Process A) (l : IsPair p q) where
      head_step : receive_request req p ≡ (ok tt, head_after req p)
      head_step =
          receive_update_lem req true false p (local_update req.type u).0 l.head l.not_tail
          ∙ at_head req p l.quiet.reliable.streams l.quiet.sound

      ack_step :
          receive_ack
            (record { bank_update_seq = (forwarded req p).bank_update_seq })
            (head_after req p)
          ≡ (ok tt, head_at_end req p)
      ack_step =
          receive_ack_lem (forwarded req p) (head_after req p) l.head
            (ap (λ xs. xs ++ (forwarded req p) ∷ []) l.quiet.nothing_sent)

      tail_step :
          p.server.bank_update_seq + 1 < u32_mod
          → receive_request (forwarded req p) q ≡ (ok tt, tail_at_end (forwarded req p) q)
      unfolding receive_at follow_request ◌>>=◌
      tail_step room =
          receive_update_lem (forwarded req p) false true q
            (ap is_update (type_forwarded req p) ∙ (local_update req.type u).0) l.not_head l.tail
          ∙ rw (newer, follows)
              (tail_handle_update_lem (forwarded req p) (ready_for (forwarded req p) q)
                (numbered-IsQuiet (forwarded req p).bank_update_seq q l.quiet_tail)
                (ap is_transfer (type_forwarded req p) ∙ (local_update req.type u).1))
        where
          next : q.server.bank_update_seq + 1 ≡ (forwarded req p).bank_update_seq
          next = ground (
            arith,
            l.replicas.same_seq,
            seq_forwarded req p,
            u32_inc_exact p.server.bank_update_seq room,
          )

          newer : leb (forwarded req p).bank_update_seq q.server.bank_update_seq ≡ false
          newer = ground (arith, next)

          follows : q.server.bank_update_seq == u32_dec (forwarded req p).bank_update_seq ≡ true
          follows = ground (
            arith,
            u32_dec_exact (forwarded req p).bank_update_seq,
            next,
            room,
            l.replicas.same_seq,
          )

      pub round_lem :
          p.server.bank_update_seq + 1 < u32_mod
          → round req (p, q) ≡ (ok tt, (head_at_end req p, tail_at_end (forwarded req p) q))
      unfolding round ◌>>=◌
      round_lem room = rw (head_step, tail_step room, ack_step) refl

      pub IsPair-after : IsPair (head_at_end req p) (tail_at_end (forwarded req p) q)
      IsPair-after = record {
        head = l.head;
        not_tail = l.not_tail;
        not_head = l.not_head;
        tail = l.tail;
        quiet = record {
          reliable = l.quiet.reliable;
          sound = l.quiet.sound;
          settled = l.quiet.settled;
          nothing_sent = refl;
        };
        quiet_tail = record {
          reliable = l.quiet_tail.reliable;
          sound = l.quiet_tail.sound;
          settled = l.quiet_tail.settled;
          nothing_sent = l.quiet_tail.nothing_sent;
        };
        replicas = finished-Replicas req p q.server l.replicas l.quiet.nothing_sent;
      }

      pub IsSingle-after :
          (o : Process A)
          → IsSingle p o
          → IsSingle (head_at_end req p) (replied (forwarded req p) (ready_for (forwarded req p) o))
      IsSingle-after o s = record {
        head = s.head;
        tail = s.tail;
        quiet = record {
          reliable = s.quiet.reliable;
          sound = s.quiet.sound;
          settled = s.quiet.settled;
          nothing_sent = s.quiet.nothing_sent;
        };
        replicas = finished-Replicas req p o.server s.replicas l.quiet.nothing_sent;
      }
