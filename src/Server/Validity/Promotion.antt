-- ===== src/Server/Validity/Promotion.antt =====
-- `to_be_tail` of src-cpp/server/server.cc: what the server before a crashed tail keeps waiting, and
-- what it takes as processed.
pub mod Invariant
use chain_replication.Base.{
  String, ◌≡◌, ◌∙◌, sym, refl, ap, subst, Bool, true, false, not, ◌&&◌, List, [], ◌∷◌, ◌++◌, arith,
  keep, All, is_some, is_empty, Bool-cases, inl, inr, eq_iff, eq_refl, if◌then◌else◌,
}
use chain_replication.Base.Map.{find, find-insert}
use chain_replication.Exec.{Exec, done, for_each, ◌>>=◌, ◌>>◌}
use chain_replication.Exec.Rules.{Moves-for_each}
use chain_replication.Proto.{Request}
use chain_replication.Server.State.{ChainServer, Process, asks}
use chain_replication.Server.History.{history_key, insert_processed_list}
use chain_replication.Server.Send.Frame.{
  Keeps, SameServer-order, frame_rules, sendback_ack-Keeps, forward_transfer_to_downstream-Keeps,
}
use chain_replication.Server.Send.{sendback_ack, forward_transfer_to_downstream}
use chain_replication.Server.Update.{is_transfer}
use chain_replication.Server.Update.Local.{Effect}
use chain_replication.Server.Reconfigure.{move_updates, to_be_tail}
use chain_replication.Server.Validity.Acks.{IsRecorded}

module _ {A : Type 0} where
  abbrev pub waits : Request A → Bool
  waits x = is_transfer x.type

  -- A step of the loop at an entry that it takes out.
  abbrev pub taken : List (Request A) → Request A → ChainServer A → ChainServer A
  taken l x s = record (insert_processed_list x s) { sent_list = l }

  append_one : (l m : List (Request A)) (x : Request A) → (l ++ x ∷ []) ++ m ≡ l ++ x ∷ m
  append_one [] m x = refl
  append_one (y ∷ l) m x = ap (◌∷◌ y) (append_one l m x)

  pub sent_list-move_updates :
      (passed xs : List (Request A)) (s : ChainServer A)
      → s.sent_list ≡ passed ++ xs
      → (move_updates passed xs s).sent_list ≡ passed ++ keep waits xs
  unfolding move_updates
  sent_list-move_updates passed [] s e = e
  sent_list-move_updates passed (x ∷ xs) s e = ground (
    arith,
    append_one passed (keep waits xs) x,
    sent_list-move_updates (passed ++ x ∷ []) xs s (e ∙ sym (append_one passed xs x)),
    sent_list-move_updates passed xs (taken (passed ++ xs) x s) refl,
  )

  find-taken :
      (k : String) (x : Request A) (s : ChainServer A)
      → is_some (find k s.processed_map) ≡ true
      → find k (insert_processed_list x s).processed_map ≡ find k s.processed_map
  unfolding insert_processed_list
  find-taken k x s h =
      ground (arith, find-insert k (history_key x) x s.processed_map, eq_iff (history_key x) k)

  IsRecorded-taken : (x : Request A) (s : ChainServer A) → IsRecorded (insert_processed_list x s) x
  unfolding insert_processed_list
  IsRecorded-taken x s = ground (
    arith,
    find-insert (history_key x) (history_key x) x s.processed_map,
    eq_refl (history_key x),
  )

  find-move_updates :
      (k : String) (passed xs : List (Request A)) (s : ChainServer A)
      → is_some (find k s.processed_map) ≡ true
      → find k (move_updates passed xs s).processed_map ≡ find k s.processed_map
  unfolding move_updates
  find-move_updates k passed [] s h = refl
  find-move_updates k passed (x ∷ xs) s h = ground (
    arith,
    find-taken k x s h,
    find-move_updates k (passed ++ x ∷ []) xs s h,
    find-move_updates k passed xs (taken (passed ++ xs) x s),
  )

  abbrev UpdatesRecorded : ChainServer A → List (Request A) → Type 0
  UpdatesRecorded s xs = All (λ x. waits x ≡ false → IsRecorded s x) xs

  move_updates-taken :
      (passed : List (Request A)) (x : Request A) (xs : List (Request A)) (s : ChainServer A)
      → waits x ≡ false
      → move_updates passed (x ∷ xs) s ≡ move_updates passed xs (taken (passed ++ xs) x s)
  unfolding move_updates
  move_updates-taken passed x xs s e = ground arith

  move_updates_passed :
      (passed : List (Request A)) (x : Request A) (xs : List (Request A)) (s : ChainServer A)
      → waits x ≡ true
      → move_updates passed (x ∷ xs) s ≡ move_updates (passed ++ x ∷ []) xs s
  unfolding move_updates
  move_updates_passed passed x xs s e = ground arith

  move_updates-Recorded :
      (passed xs : List (Request A)) (s : ChainServer A)
      → UpdatesRecorded (move_updates passed xs s) xs
  move_updates-Recorded passed [] s = tt
  move_updates-Recorded passed (x ∷ xs) s = elim (Bool-cases (waits x)) [
    | inl e ↦
        subst (λ t. UpdatesRecorded t (x ∷ xs)) (sym (move_updates_passed passed x xs s e))
          ((λ q. ground arith), move_updates-Recorded (passed ++ x ∷ []) xs s)
    | inr e ↦
        subst (λ t. UpdatesRecorded t (x ∷ xs)) (sym (move_updates-taken passed x xs s e))
          (
            (λ _.
                ap is_some (
                  find-move_updates (history_key x) passed xs (taken (passed ++ xs) x s)
                    (IsRecorded-taken x s))
                ∙ IsRecorded-taken x s),
            move_updates-Recorded passed xs (taken (passed ++ xs) x s),
          )
  ]

  -- The two lists alone may differ.
  abbrev Framed : ChainServer A → ChainServer A → Type 0
  Framed s t = t ≡ record s { processed_map = t.processed_map; sent_list = t.sent_list }

  Framed-next : (s t u : ChainServer A) → Framed s t → Framed t u → Framed s u
  Framed-next s t u h k =
      k
      ∙ ap
          (λ (v : ChainServer A). record v {
            processed_map = u.processed_map;
            sent_list = u.sent_list;
          })
          h

  Framed-taken : (l : List (Request A)) (x : Request A) (s : ChainServer A) → Framed s (taken l x s)
  unfolding insert_processed_list
  Framed-taken l x s = ground arith

  pub frame-move_updates :
      (passed xs : List (Request A)) (s : ChainServer A) → Framed s (move_updates passed xs s)
  unfolding move_updates
  frame-move_updates passed [] s = refl
  frame-move_updates passed (x ∷ xs) s = elim (Bool-cases (waits x)) [
    | inl e ↦
        subst (Framed s) (sym (move_updates_passed passed x xs s e))
          (frame-move_updates (passed ++ x ∷ []) xs s)
    | inr e ↦ subst (Framed s) (sym (move_updates-taken passed x xs s e)) (
        Framed-next s (taken (passed ++ xs) x s) (move_updates passed xs (taken (passed ++ xs) x s))
          (Framed-taken (passed ++ xs) x s)
          (frame-move_updates passed xs (taken (passed ++ xs) x s)))
  ]

  -- What `to_be_tail` does to the server, before its sends.
  abbrev pub promoted : ChainServer A → ChainServer A
  promoted s = move_updates [] s.sent_list (record s { istail = true })

  for_each-Keeps : (xs : List (Request A)) → Keeps (for_each xs forward_transfer_to_downstream)
  for_each-Keeps xs = Moves-for_each SameServer-order xs _ forward_transfer_to_downstream-Keeps

  -- The sends that follow.
  tells : Exec (Process A) (Unit {0})
  tells = do
    sent_list ← asks (λ s. s.sent_list)
    let ack_flag = is_empty sent_list
    if ack_flag then done else for_each sent_list forward_transfer_to_downstream
    ishead ← asks (λ s. s.ishead)
    seq ← asks (λ s. s.bank_update_seq)
    if not ishead && ack_flag then sendback_ack (record { bank_update_seq = seq }) else done

  tells-Keeps : Keeps tells
  unfolding tells
  tells-Keeps = search (frame_rules, for_each-Keeps, sendback_ack-Keeps) depth 12

  pub to_be_tail-Effect : Effect promoted (to_be_tail {A = A})
  unfolding to_be_tail ◌>>=◌ tells
  to_be_tail-Effect = record { at = λ p. tells-Keeps.at _ }

  -- The server before a crashed tail becomes the tail. It keeps waiting exactly the transfers, in
  -- their order, and takes every other request that waited as processed; what was on record stays
  -- as it was. The rest of the server is as before, and so it is whatever becomes of what it sends.
  pub to_be_tail_lem :
      (p : Process A)
      → let s = p.server in
        let t = (to_be_tail p).1.server in
        (t.sent_list ≡ keep waits s.sent_list)
        × All (λ x. waits x ≡ false → IsRecorded t x) s.sent_list
        × ((k : String)
            → is_some (find k s.processed_map) ≡ true
            → find k t.processed_map ≡ find k s.processed_map)
        × (t ≡ record s { istail = true; processed_map = t.processed_map; sent_list = t.sent_list })
  to_be_tail_lem p = subst Promoted (sym (to_be_tail-Effect.at p)) (
    sent_list-move_updates [] s.sent_list s' refl,
    move_updates-Recorded [] s.sent_list s',
    (λ k. find-move_updates k [] s.sent_list s'),
    frame-move_updates [] s.sent_list s',
  )
    where
      s : ChainServer A
      s = p.server

      s' : ChainServer A
      s' = record s { istail = true }

      Promoted : ChainServer A → Type 0
      Promoted t =
          (t.sent_list ≡ keep waits s.sent_list)
          × All (λ x. waits x ≡ false → IsRecorded t x) s.sent_list
          × ((k : String)
              → is_some (find k s.processed_map) ≡ true
              → find k t.processed_map ≡ find k s.processed_map)
          × (t ≡ record s {
            istail = true;
            processed_map = t.processed_map;
            sent_list = t.sent_list;
          })
