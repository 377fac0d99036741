-- ===== src/Server/Validity/Promotion/Invariant.antt =====
-- `to_be_tail` of src-cpp/server/server.cc keeps the invariant.
use chain_replication.Base.{◌≡◌, ◌∙◌, sym, refl, subst, true, List, [], ◌∷◌, ◌++◌, arith, keep}
use chain_replication.Base.Map.{Map}
use chain_replication.Base.Map.Keyed.{IsKeyed, insert-IsKeyed}
use chain_replication.Proto.{Request}
use chain_replication.Proto.Float.{FloatOps}
use chain_replication.Server.State.{ChainServer, Process}
use chain_replication.Server.History.{history_key, insert_processed_list}
use chain_replication.Server.Reconfigure.{move_updates, to_be_tail}
use chain_replication.Server.Validity.{IsValid, Transfers}
use chain_replication.Server.Validity.Sequence.{Between, Between-keep}
use chain_replication.Server.Validity.Promotion.{
  waits, taken, sent_list-move_updates, frame-move_updates, promoted, to_be_tail-Effect,
}

module _ {A : Type 0} ⦃f : FloatOps A⦄ where
  keep-Transfers : (xs : List (Request A)) → Transfers (keep waits xs)
  keep-Transfers [] = tt
  keep-Transfers (x ∷ xs) = ground (arith, keep-Transfers xs)

  insert_processed_list-Keyed :
      (x : Request A) (s : ChainServer A)
      → IsKeyed history_key s.processed_map
      → IsKeyed history_key (insert_processed_list x s).processed_map
  unfolding insert_processed_list
  insert_processed_list-Keyed x s k =
      ground (arith, insert-IsKeyed history_key (history_key x) x s.processed_map refl k)

  move_updates-Keyed :
      (passed xs : List (Request A)) (s : ChainServer A)
      → IsKeyed history_key s.processed_map
      → IsKeyed history_key (move_updates passed xs s).processed_map
  unfolding move_updates
  move_updates-Keyed passed [] s k = k
  move_updates-Keyed passed (x ∷ xs) s k = ground (
    arith,
    move_updates-Keyed (passed ++ x ∷ []) xs s k,
    move_updates-Keyed passed xs (taken (passed ++ xs) x s) (insert_processed_list-Keyed x s k),
  )

  with_lists-IsValid :
      (s : ChainServer A) (m : Map (Request A)) (l : List (Request A))
      → Between 0 s.bank_update_seq l
      → IsKeyed history_key m
      → Transfers l
      → IsValid s
      → IsValid (record s { istail = true; processed_map = m; sent_list = l })
  with_lists-IsValid s m l b k t v = record {
    ordered = b;
    covered = v.covered;
    accounts_keyed = v.accounts_keyed;
    history_keyed = k;
    tail_waits = λ _ _. t;
  }

  -- A server that becomes the tail keeps the invariant, whether or not it is extending the chain.
  pub to_be_tail-IsValid : (p : Process A) → IsValid p.server → IsValid (to_be_tail p).1.server
  to_be_tail-IsValid p v =
      subst IsValid (sym (to_be_tail-Effect.at p ∙ frame-move_updates [] p.server.sent_list s')) (
        with_lists-IsValid p.server t.processed_map t.sent_list
          (subst (Between 0 p.server.bank_update_seq) (sym kept)
            (Between-keep 0 p.server.bank_update_seq waits p.server.sent_list v.ordered))
          (move_updates-Keyed [] p.server.sent_list s' v.history_keyed)
          (subst Transfers (sym kept) (keep-Transfers p.server.sent_list)) v)
    where
      s' : ChainServer A
      s' = record p.server { istail = true }

      t : ChainServer A
      t = promoted p.server

      kept : t.sent_list ≡ keep waits p.server.sent_list
      kept = sent_list-move_updates [] p.server.sent_list s' refl
