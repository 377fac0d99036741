-- ===== src/Server/Validity/Messages/Erasure.antt =====
-- `receive_transfer_reply` of src-cpp/server/server.cc: the loop that erases the transfers replied to
-- keeps the invariant, though every reply may be the last thing that the process sends.
use chain_replication.Base.{
  ℕ, ◌≡◌, refl, sym, ap, subst, ◌∙◌, List, [], ◌∷◌, ◌++◌, arith, Bool-cases, inl, inr,
}
use chain_replication.Exec.{Result, ok, exited, aborted, threw, continue, Exec, require, ◌>>=◌}
use chain_replication.Proto.{Request, Reply}
use chain_replication.Proto.Float.{FloatOps}
use chain_replication.Server.State.{ChainServer, Process}
use chain_replication.Server.Send.Frame.{
  Keeps, Keeps-require, frame_rules, reply_to_client-Keeps, sendback_ack-Keeps,
}
use chain_replication.Server.Send.{reply_to_client}
use chain_replication.Server.Update.{
  replied, ack_when_empty, erase_replied, receive_transfer_reply, is_processed,
}
use chain_replication.Server.Validity.{IsValid, Transfers}
use chain_replication.Server.Validity.Sequence.{Between, Between-widen}

module _ {A : Type 0} where
  Between-remove :
      (lo hi : ℕ) (passed : List (Request A)) (x : Request A) (xs : List (Request A))
      → Between lo hi (passed ++ x ∷ xs)
      → Between lo hi (passed ++ xs)
  Between-remove lo hi [] x xs h =
      Between-widen lo hi x.bank_update_seq hi xs (omega (arith, h.0)) (omega arith) h.1
  Between-remove lo hi (y ∷ passed) x xs h =
      (h.0, Between-remove y.bank_update_seq hi passed x xs h.1)

  Transfers-remove :
      (passed : List (Request A)) (x : Request A) (xs : List (Request A))
      → Transfers (passed ++ x ∷ xs)
      → Transfers (passed ++ xs)
  Transfers-remove [] x xs h = h.1
  Transfers-remove (y ∷ passed) x xs h = (h.0, Transfers-remove passed x xs h.1)

  step_on :
      (passed : List (Request A)) (x : Request A) (xs : List (Request A))
      → passed ++ x ∷ xs ≡ (passed ++ x ∷ []) ++ xs
  step_on [] x xs = refl
  step_on (y ∷ passed) x xs = ap (λ l. y ∷ l) (step_on passed x xs)

  ack_when_empty-Keeps : Keeps {A = A} ack_when_empty
  unfolding ack_when_empty
  ack_when_empty-Keeps = search (frame_rules, sendback_ack-Keeps)

module _ {A : Type 0} ⦃f : FloatOps A⦄ where
  -- Sends, and code that is safe after them whatever they came to.
  pub after_sends :
      {P Q : Type 0} (m : Exec (Process A) P) (g : P → Exec (Process A) Q) (p : Process A)
      → Keeps m
      → IsValid p.server
      → ((x : P) (q : Process A) → q.server ≡ p.server → IsValid (g x q).1.server)
      → IsValid ((m >>= g) p).1.server
  unfolding ◌>>=◌
  after_sends {P} m g p k v h = go (m p).0 (m p).1 (k.at p)
    where
      go : (r : Result P) (q : Process A) → q.server ≡ p.server → IsValid (continue r g q).1.server
      go (ok x) q e = h x q e
      go exited q e = subst IsValid (sym e) v
      go aborted q e = subst IsValid (sym e) v
      go threw q e = subst IsValid (sym e) v

  erased-IsValid :
      (passed : List (Request A)) (x : Request A) (xs : List (Request A)) (s : ChainServer A)
      → s.sent_list ≡ passed ++ x ∷ xs
      → IsValid s
      → IsValid (record s { sent_list = passed ++ xs })
  erased-IsValid passed x xs s e v = record {
    ordered =
        Between-remove 0 s.bank_update_seq passed x xs
          (subst (Between 0 s.bank_update_seq) e v.ordered);
    covered = v.covered;
    accounts_keyed = v.accounts_keyed;
    history_keyed = v.history_keyed;
    tail_waits = λ t c. Transfers-remove passed x xs (subst Transfers e (v.tail_waits t c));
  }

  erase_replied-IsValid :
      (reply : Reply A) (passed xs : List (Request A)) (p : Process A)
      → p.server.sent_list ≡ passed ++ xs
      → IsValid p.server
      → IsValid (erase_replied reply passed xs p).1.server
  unfolding erase_replied ◌>>=◌
  erase_replied-IsValid reply passed [] p e v = v
  erase_replied-IsValid reply passed (x ∷ xs) p e v = elim (Bool-cases (replied reply x)) [
    | inl b ↦ rw b (
        after_sends (reply_to_client x) _ p (reply_to_client-Keeps x) v (λ _ q same.
          let q' = record q { server = record q.server { sent_list = passed ++ xs } } in
          let v' =
            erased-IsValid passed x xs q.server (ap (λ s. ChainServer.sent_list s) same ∙ e)
              (subst IsValid (sym same) v) in
          after_sends ack_when_empty _ q' ack_when_empty-Keeps v' (λ _ r again.
            erase_replied-IsValid reply passed xs r (ap (λ s. ChainServer.sent_list s) again)
              (subst IsValid (sym again) v'))))
    | inr b ↦ rw b (erase_replied-IsValid reply (passed ++ x ∷ []) xs p (e ∙ step_on passed x xs) v)
  ]

  pub receive_transfer_reply-IsValid :
      (reply : Reply A) (p : Process A)
      → IsValid p.server
      → IsValid (receive_transfer_reply reply p).1.server
  unfolding receive_transfer_reply ◌>>=◌
  receive_transfer_reply-IsValid reply p v =
      after_sends (require (is_processed reply.outcome)) _ p (Keeps-require _) v (λ _ q same.
        erase_replied-IsValid reply [] q.server.sent_list q refl (subst IsValid (sym same) v))
