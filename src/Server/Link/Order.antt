-- ===== src/Server/Link/Order.antt =====
-- What a server behind the head does with an update that is not the next one, in `receive_request` of
-- src-cpp/server/server.cc.
use chain_replication.Base.{
  ℕ, ap, List, [], ◌∷◌, All, ◌+◌, ◌≤◌, ◌<◌, ◌≡◌, refl, ◌∙◌, Bool, true, false, arith, leb, ◌==◌,
  u32_mod, u32_dec, u32_dec_exact,
}
use chain_replication.Exec.{ok, aborted, for_each, ◌>>=◌}
use chain_replication.Proto.{Request}
use chain_replication.Proto.Float.{FloatOps}
use chain_replication.Server.State.{ChainServer, Process}
use chain_replication.Server.Update.{receive_request, receive_at, follow_request}
use chain_replication.Server.History.{insert_processed_list, insert_sent_list}
use chain_replication.Server.Update.Local.{transfer_effect, finish_effect, local_effect}
use chain_replication.Server.Update.Effect.{
  numbered, forward_effect, final_effect, update_effect, request_effect, receive_request-Effect,
}
use chain_replication.Server.Validity.Ledger.{update_request_reply_frame}
use chain_replication.Server.Link.Forward.{is_update, receive_update_lem}

module _ {A : Type 0} ⦃f : FloatOps A⦄ where
  at_old :
      (req : Request A) (istail : Bool) (p : Process A)
      → req.bank_update_seq ≤ p.server.bank_update_seq
      → receive_at false istail req p ≡ (ok tt, p)
  unfolding receive_at follow_request ◌>>=◌
  at_old req istail p h = rw old refl
    where
      old : leb req.bank_update_seq p.server.bank_update_seq ≡ true
      old = ground arith

  at_gap :
      (req : Request A) (istail : Bool) (p : Process A)
      → p.server.bank_update_seq + 1 < req.bank_update_seq
      → req.bank_update_seq < u32_mod
      → receive_at false istail req p ≡ (aborted, p)
  unfolding receive_at follow_request ◌>>=◌
  at_gap req istail p h room = rw (newer, apart) refl
    where
      newer : leb req.bank_update_seq p.server.bank_update_seq ≡ false
      newer = ground arith

      apart : p.server.bank_update_seq == u32_dec req.bank_update_seq ≡ false
      apart = ground (arith, u32_dec_exact req.bank_update_seq, h, room)

  receive_request_old :
      (req : Request A) (p : Process A)
      → is_update req.type ≡ true
      → p.server.ishead ≡ false
      → req.bank_update_seq ≤ p.server.bank_update_seq
      → receive_request req p ≡ (ok tt, p)
  receive_request_old req p u h old =
      receive_update_lem req false p.server.istail p u h refl ∙ at_old req p.server.istail p old

  -- What an update leaves of the number and of the place.
  abbrev SamePlace : ChainServer A → ChainServer A → Type 0
  SamePlace s t = (t.bank_update_seq ≡ s.bank_update_seq) × (t.ishead ≡ s.ishead)

  final_effect-SamePlace : (req : Request A) (s : ChainServer A) → SamePlace s (final_effect req s)
  unfolding final_effect local_effect transfer_effect finish_effect insert_processed_list
      insert_sent_list
  final_effect-SamePlace req s = ground (arith, update_request_reply_frame req s)

  forward_effect-SamePlace :
      (req : Request A) (s : ChainServer A) → SamePlace s (forward_effect req s)
  unfolding forward_effect insert_sent_list
  forward_effect-SamePlace req s = ground (arith, update_request_reply_frame req s)

  -- The next update is counted, whatever becomes of what is sent.
  taken :
      (req : Request A) (s : ChainServer A)
      → is_update req.type ≡ true
      → s.ishead ≡ false
      → s.bank_update_seq + 1 ≡ req.bank_update_seq
      → req.bank_update_seq < u32_mod
      → SamePlace (numbered req.bank_update_seq s) (request_effect req s)
  unfolding request_effect update_effect
  taken req s u h next room = ground (
    arith,
    newer,
    follows,
    h,
    final_effect-SamePlace req (numbered req.bank_update_seq s),
    forward_effect-SamePlace req (numbered req.bank_update_seq s),
  )
    where
      newer : leb req.bank_update_seq s.bank_update_seq ≡ false
      newer = ground (arith, next)

      follows : s.bank_update_seq == u32_dec req.bank_update_seq ≡ true
      follows = ground (arith, u32_dec_exact req.bank_update_seq, next, room)

  all_old :
      (olds : List (Request A)) (p : Process A) (n : ℕ)
      → p.server.ishead ≡ false
      → p.server.bank_update_seq ≡ n
      → All (λ x. (is_update x.type ≡ true) × (x.bank_update_seq ≤ n)) olds
      → for_each olds receive_request p ≡ (ok tt, p)
  unfolding for_each ◌>>=◌
  all_old [] p n h e olds = refl
  all_old (x ∷ xs) p n h e olds =
      rw (receive_request_old x p olds.0.0 h (omega (arith, olds.0.1, e)))
        (all_old xs p n h e olds.1)

  -- A server that is not the head, tail or not, takes the next update of a 32-bit number. Whatever
  -- becomes of what it sends, it then ignores any sequence of updates of numbers up to that one, as
  -- the server before it sends them again after a crash, that update itself among them: nothing is
  -- carried out twice, nothing is sent, and no assertion fails.
  pub receive_request_resent :
      (req : Request A) (olds : List (Request A)) (p : Process A)
      → is_update req.type ≡ true
      → p.server.ishead ≡ false
      → p.server.bank_update_seq + 1 ≡ req.bank_update_seq
      → req.bank_update_seq < u32_mod
      → All (λ x. (is_update x.type ≡ true) × (x.bank_update_seq ≤ req.bank_update_seq)) olds
      → let q = (receive_request req p).1 in for_each olds receive_request q ≡ (ok tt, q)
  receive_request_resent req olds p u h next room all =
      let e = receive_request-Effect req p in
      let t = taken req p.server u h next room in
      all_old olds (receive_request req p).1 req.bank_update_seq
        (ap (λ s. ChainServer.ishead s) e ∙ t.1 ∙ h)
        (ap (λ s. ChainServer.bank_update_seq s) e ∙ t.0) all

  -- A server that is not the head, tail or not, aborts on an update of a 32-bit number that leaves
  -- one out after the last that it took, and it has changed and sent nothing.
  pub receive_request_gap :
      (req : Request A) (p : Process A)
      → is_update req.type ≡ true
      → p.server.ishead ≡ false
      → p.server.bank_update_seq + 1 < req.bank_update_seq
      → req.bank_update_seq < u32_mod
      → receive_request req p ≡ (aborted, p)
  receive_request_gap req p u h gap room =
      receive_update_lem req false p.server.istail p u h refl
      ∙ at_gap req p.server.istail p gap room
