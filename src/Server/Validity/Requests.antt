-- ===== src/Server/Validity/Requests.antt =====
-- Requests and acknowledgements keep the invariant: `receive_request` and `receive_ack` of
-- src-cpp/server/server.cc.
use chain_replication.Base.{
  ℕ, subst, ◌+◌, ◌<◌, ◌≡◌, ◌∙◌, sym, ap, true, false, arith, u32_inc, u32_inc_exact, u32_mod,
  Bool-cases, inl, inr, if◌then◌else◌,
}
use chain_replication.Proto.{Request}
use chain_replication.Proto.Float.{FloatOps, SignLaws, zero_float, ◌<f◌}
use chain_replication.Server.State.{ChainServer, Process}
use chain_replication.Server.History.{insert_processed_list, insert_sent_list, update_request_reply}
use chain_replication.Server.Update.{is_newreq, is_transfer, receive_request}
use chain_replication.Server.Update.Local.{transfer_effect, finish_effect, local_effect}
use chain_replication.Server.Update.Effect.{
  forward_effect, final_effect, query_effect, update_effect, request_effect, receive_request-Effect,
  numbered,
}
use chain_replication.Server.Validity.{IsValidUpTo, IsValid}
use chain_replication.Server.Validity.Ledger.{update_request_reply_frame}
use chain_replication.Server.Validity.Parts.{
  IsValid-widen, insert_processed_list-IsValid, insert_sent_list-IsValid, numbered-IsValid,
  get_balance-IsValid, update_request_reply-IsValid,
}

module _ {A : Type 0} ⦃f : FloatOps A⦄ where
  transfer_effect-IsValid :
      (n : ℕ) (req : Request A) (s : ChainServer A)
      → n < req.bank_update_seq
      → is_transfer req.type ≡ true
      → IsValidUpTo n s
      → IsValidUpTo req.bank_update_seq (transfer_effect req s)
  unfolding transfer_effect
  transfer_effect-IsValid n req s p t v = ground (
    arith,
    IsValid-widen n req.bank_update_seq s (omega arith) v,
    IsValid-widen n req.bank_update_seq (insert_processed_list req s) (omega arith)
        (insert_processed_list-IsValid n req s v),
    insert_sent_list-IsValid n req (insert_processed_list req s) p (λ _ _. t)
        (insert_processed_list-IsValid n req s v),
  )

  finish_effect-IsValid :
      (n : ℕ) (req : Request A) (s : ChainServer A)
      → n < req.bank_update_seq
      → IsValidUpTo n s
      → IsValidUpTo req.bank_update_seq (finish_effect req s)
  unfolding finish_effect
  finish_effect-IsValid n req s p v = elim (Bool-cases s'.extending_chain) [
    | inl e ↦ rw e (insert_sent_list-IsValid n req s' p (λ _ k. cc) v')
    | inr e ↦ rw e (IsValid-widen n req.bank_update_seq s' (omega arith) v')
  ]
    where
      s' : ChainServer A
      s' = if is_newreq req.check_result then insert_processed_list req s else s

      v' : IsValidUpTo n s'
      v' = ground (arith, insert_processed_list-IsValid n req s v)

  local_effect-IsValid :
      (n : ℕ) (req : Request A) (s : ChainServer A)
      → n < req.bank_update_seq
      → IsValidUpTo n s
      → IsValidUpTo req.bank_update_seq (local_effect req s)
  unfolding local_effect
  local_effect-IsValid n req s p v =
      ground (arith, transfer_effect-IsValid n req s p, finish_effect-IsValid n req s p v)

module _ {A : Type 0} ⦃f : FloatOps A⦄ (laws : SignLaws f) (n : ℕ) (req : Request A)
    (s : ChainServer A) (p : n < req.bank_update_seq) (amount : req.amount <f zero_float ≡ false)
    (v : IsValidUpTo n s) where
  abbrev answered : ChainServer A × Request A
  answered = update_request_reply req s

  seq_answered : answered.1.bank_update_seq ≡ req.bank_update_seq
  seq_answered = ap (λ (x : Request A). x.bank_update_seq) (update_request_reply_frame req s).1

  answered-IsValid : IsValidUpTo n answered.0
  answered-IsValid = update_request_reply-IsValid laws n req s amount v

  below_answered : n < answered.1.bank_update_seq
  below_answered = omega (arith, seq_answered)

  final_effect-IsValid : IsValidUpTo req.bank_update_seq (final_effect req s)
  unfolding final_effect
  final_effect-IsValid =
      subst (λ k. IsValidUpTo k (final_effect req s)) seq_answered
        (local_effect-IsValid n answered.1 answered.0 below_answered answered-IsValid)

  not_tail : s.istail ≡ false → answered.0.istail ≡ false
  not_tail t = ap (λ (x : ChainServer A). x.istail) (update_request_reply_frame req s).0 ∙ t

  forward_effect-IsValid : s.istail ≡ false → IsValidUpTo req.bank_update_seq (forward_effect req s)
  unfolding forward_effect
  forward_effect-IsValid t =
      subst (λ k. IsValidUpTo k (forward_effect req s)) seq_answered
        (insert_sent_list-IsValid n answered.1 answered.0 below_answered (λ e _. cc (not_tail t))
          answered-IsValid)

module _ {A : Type 0} ⦃f : FloatOps A⦄ where
  at_seq : (k : ℕ) (s : ChainServer A) → k ≡ s.bank_update_seq → IsValidUpTo k s → IsValid s
  at_seq k s e v = subst (λ n. IsValidUpTo n s) e v

  -- The number in `bank_update_seq` after an update, and what an update leaves alone.
  seq_final :
      (req : Request A) (s : ChainServer A)
      → (final_effect req s).bank_update_seq ≡ s.bank_update_seq
  unfolding final_effect local_effect transfer_effect finish_effect insert_processed_list
      insert_sent_list
  seq_final req s = ground (arith, update_request_reply_frame req s)

  seq_forward :
      (req : Request A) (s : ChainServer A)
      → (forward_effect req s).bank_update_seq ≡ s.bank_update_seq
  unfolding forward_effect insert_sent_list
  seq_forward req s = ground (arith, update_request_reply_frame req s)

  module _ (laws : SignLaws f) (req : Request A) (amount : req.amount <f zero_float ≡ false) where
    taken-IsValid :
        (k : ℕ) (s : ChainServer A)
        → s.bank_update_seq < k
        → IsValid s
        → (s.istail ≡ true
            → IsValid (final_effect (record req { bank_update_seq = k }) (numbered k s)))
          × (s.istail ≡ false
              → IsValid (forward_effect (record req { bank_update_seq = k }) (numbered k s)))
    taken-IsValid k s p v = (
      (λ _. at_seq k _ (sym (seq_final req' t)) (final_effect-IsValid laws n req' t p amount v')),
      (λ e.
          at_seq k _ (sym (seq_forward req' t))
            (forward_effect-IsValid laws n req' t p amount v' e)),
    )
      where
        n : ℕ
        n = s.bank_update_seq

        req' : Request A
        req' = record req { bank_update_seq = k }

        t : ChainServer A
        t = numbered k s

        v' : IsValidUpTo n t
        v' = numbered-IsValid n k s v

    update_effect-IsValid :
        (s : ChainServer A)
        → s.bank_update_seq + 1 < u32_mod
        → IsValid s
        → IsValid (update_effect req s)
    unfolding update_effect
    update_effect-IsValid s room v = ground (
      arith,
      u32_inc_exact s.bank_update_seq room,
      taken-IsValid (u32_inc s.bank_update_seq) s,
      taken-IsValid req.bank_update_seq s,
      v,
    )

    -- A request keeps the invariant, whatever becomes of the messages it causes: its amount must not be
    -- negative, the sequence number must not have reached the largest 32-bit value, and the sums and
    -- differences of amounts must have the signs that the laws of the parameter ask for.
    pub receive_request-IsValid :
        (p : Process A)
        → p.server.bank_update_seq + 1 < u32_mod
        → IsValid p.server
        → IsValid (receive_request req p).1.server
    unfolding request_effect query_effect
    receive_request-IsValid p room v = subst IsValid (sym (receive_request-Effect req p)) (
        ground (
          arith,
          update_effect-IsValid p.server room v,
          get_balance-IsValid p.server.bank_update_seq req.account_id p.server v,
          v,
        ))
