-- ===== src/Server/Reconfigure.antt =====
-- A change of the chain, as the master tells it: `to_be_head`, `to_be_tail`,
-- `receive_new_preserver`, `receive_new_succserver` and `handle_new_head` of
-- src-cpp/server/server.cc.
pub mod Resend
pub mod NewHead
use chain_replication.Base.{
  ℕ, String, true, false, not, ◌&&◌, List, [], ◌∷◌, ◌++◌, ltb, str_eq, is_empty, if◌then◌else◌,
}
use chain_replication.Base.Map.{find, assign}
use chain_replication.Exec.{Exec, done, gets, expect, require, for_each, ◌>>=◌, ◌>>◌}
use chain_replication.Proto.{Address, Request, Reqseq, Notify, req_seq, reqseq_sub}
use chain_replication.Wire.{send_msg_tcp}
use chain_replication.Server.State.{ChainServer, Process, on_wire, asks, updates}
use chain_replication.Server.History.{insert_processed_list}
use chain_replication.Server.Send.{
  if_server_crash, forward_request, sendback_ack, forward_transfer_to_downstream,
}
use chain_replication.Server.Update.{is_transfer}

module _ {A : Type 0} where
  unfoldable pub to_be_head : Exec (Process A) (Unit {0})
  to_be_head = updates (λ s. record s { ishead = true })

  -- The `while` loop of `to_be_tail`: its iterator stands between the entries that it has passed
  -- and those to come. The log line that reads the iterator after the erasure is left out.
  unfoldable pub move_updates : List (Request A) → List (Request A) → ChainServer A → ChainServer A
  move_updates passed [] s = s
  move_updates passed (x ∷ xs) s =
      let moved =
        move_updates passed xs (record (insert_processed_list x s) { sent_list = passed ++ xs }) in
      let kept = move_updates (passed ++ x ∷ []) xs s in if is_transfer x.type then kept else moved

  unfoldable pub to_be_tail : Exec (Process A) (Unit {0})
  unfolding ◌>>=◌
  to_be_tail = do
    updates (λ s. record s { istail = true })
    updates (λ s. move_updates [] s.sent_list s)
    sent_list ← asks (λ s. s.sent_list)
    let ack_flag = is_empty sent_list
    if ack_flag then done else for_each sent_list forward_transfer_to_downstream
    ishead ← asks (λ s. s.ishead)
    seq ← asks (λ s. s.bank_update_seq)
    if not ishead && ack_flag then sendback_ack (record { bank_update_seq = seq }) else done

  abbrev pub own_reqseq : ChainServer A → Reqseq
  own_reqseq s = record {
    bank_update_seq = s.bank_update_seq;
    bank_id = s.bank_id;
    pre_addr = s.pre_server_addr;
    succ_addr = s.local_addr;
  }

  unfoldable pub receive_new_preserver : Address → Exec (Process A) (Unit {0})
  unfolding ◌>>=◌
  receive_new_preserver pre_addr = do
    updates (λ s. record s { internal_crashing = true; pre_server_addr = pre_addr })
    reqseq ← asks own_reqseq
    master_addr ← gets (λ p. p.master_addr)
    on_wire (send_msg_tcp master_addr req_seq (reqseq_sub reqseq))
    done

  -- The body of the loop of `receive_new_succserver`.
  unfoldable pub forward_after : ℕ → Request A → Exec (Process A) (Unit {0})
  forward_after n x = if ltb n x.bank_update_seq then forward_request x else done

  unfoldable pub receive_new_succserver : Reqseq → Exec (Process A) (Unit {0})
  unfolding ◌>>=◌
  receive_new_succserver reqseq = do
    updates (λ s. record s { internal_crashing = true })
    if_server_crash
    updates (λ s. record s { succ_server_addr = reqseq.succ_addr })
    sent_list ← asks (λ s. s.sent_list)
    for_each sent_list (forward_after reqseq.bank_update_seq)
    updates (λ s. record s { internal_crashing = false })

  -- The body of the loop of `handle_new_head`.
  unfoldable pub forward_to_bank : String → Request A → Exec (Process A) (Unit {0})
  unfolding ◌>>=◌
  forward_to_bank bank_id x = do
    require (is_transfer x.type)
    if str_eq x.dest_bank_id bank_id then forward_transfer_to_downstream x else done

  unfoldable pub handle_new_head : Notify → Exec (Process A) (Unit {0})
  unfolding ◌>>=◌
  handle_new_head notify = do
    known ← asks (λ s. find notify.bank_id s.bank_head_list)
    expect known
    updates (λ s. record s {
      bank_head_list = assign notify.bank_id notify.server_addr s.bank_head_list;
    })
    istail ← asks (λ s. s.istail)
    sent_list ← asks (λ s. s.sent_list)
    if istail then for_each sent_list (forward_to_bank notify.bank_id) else done
