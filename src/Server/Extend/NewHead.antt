-- ===== src/Server/Extend/NewHead.antt =====
-- A tail of src-cpp/server/server.cc that extends its chain, takes an update and then hears of the new
-- head of another bank: `receive_extend_server`, `receive_request` and `handle_new_head`.
use chain_replication.Base.{
  ℕ, ◌+◌, ◌<◌, ◌≡◌, refl, ap, sym, subst, ◌∙◌, true, false, some, [], ◌∷◌, ◌++◌, arith, u32_mod,
  is_empty, u32_dec, u32_inc, u32_dec_exact, leb, ◌==◌, Bool-cases, inl, inr,
}
use chain_replication.Base.Map.{find}
use chain_replication.Exec.{aborted, ◌>>=◌}
use chain_replication.Proto.{Address, Request, Notify}
use chain_replication.Proto.Float.{FloatOps}
use chain_replication.Server.State.{ChainServer, Process}
use chain_replication.Server.History.{insert_processed_list, insert_sent_list, update_request_reply}
use chain_replication.Server.Update.{is_transfer, receive_request}
use chain_replication.Server.Update.Local.{local_effect, finish_effect}
use chain_replication.Server.Update.Effect.{
  numbered, final_effect, update_effect, request_effect, receive_request-Effect,
}
use chain_replication.Server.Reconfigure.{handle_new_head}
use chain_replication.Server.Reconfigure.NewHead.{told, new_head_unexpected}
use chain_replication.Server.Extend.{receive_extend_server}
use chain_replication.Server.Validity.Ledger.{update_request_reply_frame}
use chain_replication.Server.Link.AsOne.{is_local}

module _ {A : Type 0} ⦃f : FloatOps A⦄ where
  -- What the tail keeps of the request.
  finish_waits :
      (x : Request A) (s : ChainServer A)
      → s.extending_chain ≡ true
      → ((finish_effect x s).sent_list ≡ s.sent_list ++ x ∷ [])
        × ((finish_effect x s).bank_head_list ≡ s.bank_head_list)
        × ((finish_effect x s).istail ≡ s.istail)
  unfolding finish_effect insert_processed_list insert_sent_list
  finish_waits x s e = ground arith

  final_waits :
      (req : Request A) (s : ChainServer A)
      → is_transfer req.type ≡ false
      → s.extending_chain ≡ true
      → ((final_effect req s).sent_list ≡ s.sent_list ++ (update_request_reply req s).1 ∷ [])
        × ((final_effect req s).bank_head_list ≡ s.bank_head_list)
        × ((final_effect req s).istail ≡ s.istail)
        × (is_transfer (update_request_reply req s).1.type ≡ false)
  unfolding final_effect local_effect
  final_waits req s t e = ground (
    arith,
    update_request_reply_frame req s,
    finish_waits (update_request_reply req s).1 (update_request_reply req s).0,
  )

  -- A tail behind the head takes the request that follows the last one; a single server numbers it.
  abbrev pub Follows : Request A → ChainServer A → Type 0
  Follows req s =
      s.ishead ≡ false
      → (s.bank_update_seq + 1 ≡ req.bank_update_seq) × (req.bank_update_seq < u32_mod)

  -- One request waits, and it is no transfer.
  abbrev WaitsAlone : ChainServer A → ChainServer A → Type 0
  WaitsAlone s t =
      (x : Request A) × (t.sent_list ≡ x ∷ [])
      × (t.bank_head_list ≡ s.bank_head_list)
      × (t.istail ≡ true)
      × (is_transfer x.type ≡ false)

  final-WaitsAlone :
      (req : Request A) (s : ChainServer A)
      → s.istail ≡ true
      → s.extending_chain ≡ true
      → s.sent_list ≡ []
      → is_transfer req.type ≡ false
      → WaitsAlone s (final_effect req s)
  final-WaitsAlone req s t e l u =
      let w = final_waits req s u e in
      let x = (update_request_reply req s).1 in
      (x, w.0 ∙ ap (λ xs. xs ++ x ∷ []) l, w.1, w.2 ∙ t, w.3)

  module _ (req : Request A) (s : ChainServer A) (u : is_local req.type ≡ true) where
    abbrev next : ℕ
    next = u32_inc s.bank_update_seq

    no_transfer : is_transfer req.type ≡ false
    no_transfer = ground arith

    at_single :
        s.ishead ≡ true
        → s.istail ≡ true
        → request_effect req s
          ≡ final_effect (record req { bank_update_seq = next }) (numbered next s)
    unfolding request_effect update_effect
    at_single b t = ground arith

    at_tail :
        s.ishead ≡ false
        → s.istail ≡ true
        → Follows req s
        → request_effect req s ≡ final_effect req (numbered req.bank_update_seq s)
    unfolding request_effect update_effect
    at_tail b t h = ground (arith, newer, follows)
      where
        newer : leb req.bank_update_seq s.bank_update_seq ≡ false
        newer = ground (arith, (h b).0)

        follows : s.bank_update_seq == u32_dec req.bank_update_seq ≡ true
        follows = ground (arith, u32_dec_exact req.bank_update_seq, (h b).0, (h b).1)

    request_waits :
        s.istail ≡ true
        → s.extending_chain ≡ true
        → s.sent_list ≡ []
        → Follows req s
        → WaitsAlone s (request_effect req s)
    request_waits t e l h = elim (Bool-cases s.ishead) [
      | inl b ↦ subst (WaitsAlone s) (sym (at_single b t)) (
          final-WaitsAlone (record req { bank_update_seq = next }) (numbered next s) t e l
            no_transfer)
      | inr b ↦
          subst (WaitsAlone s) (sym (at_tail b t h))
            (final-WaitsAlone req (numbered req.bank_update_seq s) t e l no_transfer)
    ]

  extended_lem :
      (a : Address) (p : Process A)
      → p.server.sent_list ≡ []
      → (receive_extend_server a p).1.server ≡ record p.server {
        extending_chain = true;
        finish_sending_hist = false;
        succ_server_addr = a;
      }
  unfolding receive_extend_server ◌>>=◌
  extended_lem a p l = rw idle refl
    where
      idle : is_empty p.server.sent_list ≡ true
      idle = ap is_empty l

  -- A tail with nothing waiting is told to extend the chain. It then takes a deposit, a withdrawal or
  -- an incoming transfer, the next one unless it numbers it itself, on any network; and then the new
  -- head of a bank that it knows is announced. The handler of the announcement fails its assertion
  -- that only transfers wait: the process aborts.
  pub handle_new_head_aborts :
      (extend_addr : Address) (req : Request A) (notify : Notify) (old : Address) (p : Process A)
      → p.server.istail ≡ true
      → p.server.sent_list ≡ []
      → is_local req.type ≡ true
      → Follows req p.server
      → find notify.bank_id p.server.bank_head_list ≡ some old
      → let q = (receive_request req (receive_extend_server extend_addr p).1).1 in
        handle_new_head notify q ≡ (aborted, told notify q)
  handle_new_head_aborts extend_addr req notify old p t l u h known =
      let q = (receive_request req (receive_extend_server extend_addr p).1).1 in
      let (x, waits, heads, tail, plain) =
        subst (WaitsAlone extending) (sym taken) (request_waits req extending u t refl l h) in
      new_head_unexpected notify old x [] q tail waits plain
        (ap (find notify.bank_id) heads ∙ known)
    where
      extending : ChainServer A
      extending = record p.server {
        extending_chain = true;
        finish_sending_hist = false;
        succ_server_addr = extend_addr;
      }

      taken :
          (receive_request req (receive_extend_server extend_addr p).1).1.server
          ≡ request_effect req extending
      taken =
          receive_request-Effect req (receive_extend_server extend_addr p).1
          ∙ ap (request_effect req) (extended_lem extend_addr p l)
