-- ===== src/Server/Validity/Acks.antt =====
-- `receive_ack` of src-cpp/server/server.cc: which requests an acknowledgement moves from the sent
-- list to the processed map.
pub mod Invariant
use chain_replication.Base.{
  ℕ, String, ◌≤◌, ◌≡◌, ◌∙◌, sym, refl, ap, subst, true, false, List, [], ◌∷◌, arith, leb, ltb, keep,
  All, is_some, eq_iff, eq_refl, Bool-cases, inl, inr,
}
use chain_replication.Base.Map.{find, find-insert}
use chain_replication.Proto.{Request, Acknowledge}
use chain_replication.Server.State.{ChainServer, Process}
use chain_replication.Server.History.{history_key, insert_processed_list, pop_front, pop_sent_list}
use chain_replication.Server.Update.{pop_acked, receive_ack}
use chain_replication.Server.Update.Local.{receive_ack-Effect}
use chain_replication.Server.Validity.Sequence.{Between}

leb-false : (a b : ℕ) → leb a b ≡ false → ¬ (a ≤ b)
leb-false a b h p = ground arith

leb-false_le : (a b : ℕ) → leb a b ≡ false → b ≤ a
leb-false_le a b h = ground arith

module _ {A : Type 0} where
  abbrev pub IsRecorded : ChainServer A → Request A → Type 0
  IsRecorded s x = is_some (find (history_key x) s.processed_map) ≡ true

  -- A step of the loop.
  abbrev pub moved : Request A → ChainServer A → ChainServer A
  moved x s = pop_sent_list (insert_processed_list x s)

  sent_list-moved :
      (x : Request A) (s : ChainServer A) → (moved x s).sent_list ≡ pop_front s.sent_list
  unfolding pop_sent_list insert_processed_list
  sent_list-moved x s = ground arith

  find-moved :
      (k : String) (x : Request A) (s : ChainServer A)
      → is_some (find k s.processed_map) ≡ true
      → find k (moved x s).processed_map ≡ find k s.processed_map
  unfolding pop_sent_list insert_processed_list
  find-moved k x s h =
      ground (arith, find-insert k (history_key x) x s.processed_map, eq_iff (history_key x) k)

  IsRecorded-moved : (x : Request A) (s : ChainServer A) → IsRecorded (moved x s) x
  unfolding pop_sent_list insert_processed_list
  IsRecorded-moved x s = ground (
    arith,
    find-insert (history_key x) (history_key x) x s.processed_map,
    eq_refl (history_key x),
  )

  keep_all :
      (n lo hi : ℕ) (xs : List (Request A))
      → Between lo hi xs
      → n ≤ lo
      → keep (λ x. ltb n x.bank_update_seq) xs ≡ xs
  keep_all n lo hi [] h p = refl
  keep_all n lo hi (x ∷ xs) h p = ground (arith, keep_all n x.bank_update_seq hi xs h.1)

  sent_list-pop_acked :
      (n lo hi : ℕ) (xs : List (Request A)) (s : ChainServer A)
      → s.sent_list ≡ xs
      → Between lo hi xs
      → (pop_acked n xs s).sent_list ≡ keep (λ x. ltb n x.bank_update_seq) xs
  unfolding pop_acked pop_front
  sent_list-pop_acked n lo hi [] s e h = e
  sent_list-pop_acked n lo hi (x ∷ xs) s e h = ground (
    arith,
    e,
    keep_all n x.bank_update_seq hi xs h.1,
    sent_list-pop_acked n x.bank_update_seq hi xs (moved x s) (sent_list-moved x s ∙ ap pop_front e)
        h.1,
  )

  -- What is on record stays on record.
  find-pop_acked :
      (k : String) (n : ℕ) (xs : List (Request A)) (s : ChainServer A)
      → is_some (find k s.processed_map) ≡ true
      → find k (pop_acked n xs s).processed_map ≡ find k s.processed_map
  unfolding pop_acked
  find-pop_acked k n [] s h = refl
  find-pop_acked k n (x ∷ xs) s h =
      ground (arith, find-moved k x s h, find-pop_acked k n xs (moved x s))

  abbrev AckedRecorded : ℕ → ChainServer A → List (Request A) → Type 0
  AckedRecorded n s xs = All (λ x. x.bank_update_seq ≤ n → IsRecorded s x) xs

  none_acked :
      (n lo hi : ℕ) (xs : List (Request A)) (s : ChainServer A)
      → Between lo hi xs
      → n ≤ lo
      → AckedRecorded n s xs
  none_acked n lo hi [] s h p = tt
  none_acked n lo hi (x ∷ xs) s h p = (
    (λ q. absurd (omega (arith, h.0))),
    none_acked n x.bank_update_seq hi xs s h.1 (omega (arith, h.0)),
  )

  pop_acked_step :
      (n : ℕ) (x : Request A) (xs : List (Request A)) (s : ChainServer A)
      → leb x.bank_update_seq n ≡ true
      → pop_acked n (x ∷ xs) s ≡ pop_acked n xs (moved x s)
  unfolding pop_acked
  pop_acked_step n x xs s e = ground arith

  pop_acked_stop :
      (n : ℕ) (x : Request A) (xs : List (Request A)) (s : ChainServer A)
      → leb x.bank_update_seq n ≡ false
      → pop_acked n (x ∷ xs) s ≡ s
  unfolding pop_acked
  pop_acked_stop n x xs s e = ground arith

  pop_acked-Recorded :
      (n lo hi : ℕ) (xs : List (Request A)) (s : ChainServer A)
      → Between lo hi xs
      → AckedRecorded n (pop_acked n xs s) xs
  unfolding pop_acked
  pop_acked-Recorded n lo hi [] s h = tt
  pop_acked-Recorded n lo hi (x ∷ xs) s h = elim (Bool-cases (leb x.bank_update_seq n)) [
    | inl e ↦
        subst (λ t. AckedRecorded n t (x ∷ xs)) (sym (pop_acked_step n x xs s e))
          (
            (λ _.
                ap is_some (find-pop_acked (history_key x) n xs (moved x s) (IsRecorded-moved x s))
                ∙ IsRecorded-moved x s),
            pop_acked-Recorded n x.bank_update_seq hi xs (moved x s) h.1,
          )
    | inr e ↦
        subst (λ t. AckedRecorded n t (x ∷ xs)) (sym (pop_acked_stop n x xs s e))
          (
            (λ q. absurd (leb-false x.bank_update_seq n e q)),
            none_acked n x.bank_update_seq hi xs s h.1 (leb-false_le x.bank_update_seq n e),
          )
  ]

  pub frame-pop_acked :
      (n : ℕ) (xs : List (Request A)) (s : ChainServer A)
      → let t = pop_acked n xs s in
        t ≡ record s { processed_map = t.processed_map; sent_list = t.sent_list }
  unfolding pop_acked pop_sent_list insert_processed_list
  frame-pop_acked n [] s = refl
  frame-pop_acked n (x ∷ xs) s = ground (arith, frame-pop_acked n xs (moved x s))

  -- An acknowledgement of `n` takes from a sent list of rising numbers exactly the requests up to
  -- `n`, leaves the others in their order, and puts each that it took on record, where what was on
  -- record stays. The rest of the server is as before, and so it is whatever becomes of the
  -- acknowledgement sent on.
  pub receive_ack_lem :
      (ack : Acknowledge) (p : Process A) (hi : ℕ)
      → Between 0 hi p.server.sent_list
      → let n = ack.bank_update_seq in
        let s = p.server in
        let t = (receive_ack ack p).1.server in
        (t.sent_list ≡ keep (λ x. ltb n x.bank_update_seq) s.sent_list)
        × All (λ x. x.bank_update_seq ≤ n → IsRecorded t x) s.sent_list
        × ((k : String)
            → is_some (find k s.processed_map) ≡ true
            → find k t.processed_map ≡ find k s.processed_map)
        × (t ≡ record s { processed_map = t.processed_map; sent_list = t.sent_list })
  receive_ack_lem ack p hi h = subst Acked (sym ((receive_ack-Effect ack).at p)) (
    sent_list-pop_acked n 0 hi s.sent_list s refl h,
    pop_acked-Recorded n 0 hi s.sent_list s h,
    (λ k. find-pop_acked k n s.sent_list s),
    frame-pop_acked n s.sent_list s,
  )
    where
      n : ℕ
      n = ack.bank_update_seq

      s : ChainServer A
      s = p.server

      Acked : ChainServer A → Type 0
      Acked t =
          (t.sent_list ≡ keep (λ x. ltb n x.bank_update_seq) s.sent_list)
          × All (λ x. x.bank_update_seq ≤ n → IsRecorded t x) s.sent_list
          × ((k : String)
              → is_some (find k s.processed_map) ≡ true
              → find k t.processed_map ≡ find k s.processed_map)
          × (t ≡ record s { processed_map = t.processed_map; sent_list = t.sent_list })
