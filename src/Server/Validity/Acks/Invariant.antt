-- ===== src/Server/Validity/Acks/Invariant.antt =====
-- `receive_ack` of src-cpp/server/server.cc keeps the invariant.
use chain_replication.Base.{ℕ, ◌≡◌, sym, ap, subst, List, [], ◌∷◌, arith}
use chain_replication.Proto.{Request, Acknowledge}
use chain_replication.Proto.Float.{FloatOps}
use chain_replication.Server.State.{ChainServer, Process}
use chain_replication.Server.History.{insert_processed_list, pop_front, pop_sent_list}
use chain_replication.Server.Update.{pop_acked, receive_ack}
use chain_replication.Server.Update.Local.{receive_ack-Effect}
use chain_replication.Server.Validity.{IsValidUpTo, IsValid, Transfers}
use chain_replication.Server.Validity.Sequence.{Between, Between-widen}
use chain_replication.Server.Validity.Parts.{insert_processed_list-IsValid}
use chain_replication.Server.Validity.Acks.{moved, frame-pop_acked}

module _ {A : Type 0} ⦃f : FloatOps A⦄ where
  Between-pop : (n : ℕ) (xs : List (Request A)) → Between 0 n xs → Between 0 n (pop_front xs)
  unfolding pop_front
  Between-pop n [] h = h
  Between-pop n (x ∷ xs) h =
      Between-widen 0 n x.bank_update_seq n xs (omega arith) (omega arith) h.1

  Transfers-pop : (xs : List (Request A)) → Transfers xs → Transfers (pop_front xs)
  unfolding pop_front
  Transfers-pop [] h = h
  Transfers-pop (x ∷ xs) h = h.1

  pop_sent_list-IsValid :
      (n : ℕ) (s : ChainServer A) → IsValidUpTo n s → IsValidUpTo n (pop_sent_list s)
  unfolding pop_sent_list
  pop_sent_list-IsValid n s v = record {
    ordered = Between-pop n s.sent_list v.ordered;
    covered = v.covered;
    accounts_keyed = v.accounts_keyed;
    history_keyed = v.history_keyed;
    tail_waits = λ t e. Transfers-pop s.sent_list (v.tail_waits t e);
  }

  pop_acked-IsValid :
      (n k : ℕ) (xs : List (Request A)) (s : ChainServer A)
      → IsValidUpTo n s
      → IsValidUpTo n (pop_acked k xs s)
  unfolding pop_acked
  pop_acked-IsValid n k [] s v = v
  pop_acked-IsValid n k (x ∷ xs) s v = ground (
    arith,
    v,
    pop_acked-IsValid n k xs (moved x s) (
        pop_sent_list-IsValid n (insert_processed_list x s)
          (insert_processed_list-IsValid n x s v)),
  )

  -- An acknowledgement keeps the invariant.
  pub receive_ack-IsValid :
      (ack : Acknowledge) (p : Process A) → IsValid p.server → IsValid (receive_ack ack p).1.server
  receive_ack-IsValid ack p v = subst IsValid (sym ((receive_ack-Effect ack).at p)) (
      subst (λ n. IsValidUpTo n t) (sym seq_same)
        (pop_acked-IsValid s.bank_update_seq ack.bank_update_seq s.sent_list s v))
    where
      s : ChainServer A
      s = p.server

      t : ChainServer A
      t = pop_acked ack.bank_update_seq s.sent_list s

      seq_same : t.bank_update_seq ≡ s.bank_update_seq
      seq_same =
          ap (λ (x : ChainServer A). x.bank_update_seq)
            (frame-pop_acked ack.bank_update_seq s.sent_list s)
