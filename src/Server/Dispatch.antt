-- ===== src/Server/Dispatch.antt =====
-- The message loops of a server: `ChainServerUDPLoop::handle_msg`, `ChainServerTCPLoop::handle_msg`
-- and `heartbeat` of src-cpp/server/server.cc. An exception ends a TCP session (the loop goes on), and
-- ends the process if it leaves a UDP handler or the heartbeat.
use chain_replication.Base.{false, is_positive, if◌then◌else◌}
use chain_replication.Exec.{Result, Exec, done, gets, expect, ◌>>=◌, ◌>>◌}
use chain_replication.Proto.{
  Message, MessageType, request_type, reply_type, acknowledge, to_be_head, to_be_tail,
  new_succ_server, new_pre_server, new_head, extend_server, extend_msg, extend_fail, heartbeat_sub,
  join_sub,
}
use chain_replication.Proto.Float.{FloatOps}
use chain_replication.Wire.{send_msg_tcp, send_msg_udp, count_receive}
use chain_replication.Server.State.{Process, on_wire, asks, updates}
use chain_replication.Server.Send.{if_server_crash}
use chain_replication.Server.Update.{receive_request, receive_ack, receive_transfer_reply}
use chain_replication.Server.Reconfigure.{
  to_be_head as become_head, to_be_tail as become_tail, receive_new_preserver,
  receive_new_succserver, handle_new_head,
}
use chain_replication.Server.Extend.{
  receive_extend_server, receive_extend_msg, extending_server_fail,
}

-- `TCPLoop::session` catches what its handler throws; in `UDPLoop` nothing does.
abbrev pub caught : Result (Unit {0}) → Result (Unit {0})
caught Result.threw = Result.ok tt
caught r = r

abbrev pub uncaught : Result (Unit {0}) → Result (Unit {0})
uncaught Result.threw = Result.aborted
uncaught r = r

module _ {A : Type 0} ⦃f : FloatOps A⦄ where
  unfoldable pub handle_udp_msg : Message A → Exec (Process A) (Unit {0})
  unfolding ◌>>=◌
  handle_udp_msg msg = do
    on_wire count_receive
    elim msg.type [
      | request_type ↦ (do req ← expect msg.request; if_server_crash; receive_request req)
      | _ ↦ done
    ]

  -- The `switch` of the TCP loop.
  unfoldable pub dispatch : Message A → Exec (Process A) (Unit {0})
  unfolding ◌>>=◌
  dispatch msg = elim msg.type [
    | request_type ↦ (do req ← expect msg.request; receive_request req)
    | acknowledge ↦ (do ack ← expect msg.ack; receive_ack ack)
    | to_be_head ↦ become_head
    | new_head ↦ (do notify ← expect msg.notify; handle_new_head notify)
    | to_be_tail ↦ become_tail
    | new_pre_server ↦ (do addr ← expect msg.addr; receive_new_preserver addr)
    | new_succ_server ↦ (do reqseq ← expect msg.reqseq; receive_new_succserver reqseq)
    | extend_server ↦ (do addr ← expect msg.addr; receive_extend_server addr)
    | extend_msg ↦ (do m ← expect msg.extendmsg; receive_extend_msg m)
    | extend_fail ↦ extending_server_fail
    | reply_type ↦ (do reply ← expect msg.reply; receive_transfer_reply reply)
    | _ ↦ done
  ]

  unfoldable pub handle_tcp_msg : Message A → Exec (Process A) (Unit {0})
  unfolding ◌>>=◌
  handle_tcp_msg msg = do
    on_wire count_receive
    if_server_crash
    updates (λ s. record s { internal_crashing = false })
    dispatch msg

module _ {A : Type 0} where
  -- Before the first heartbeat, an extended server waits and asks the master to join.
  unfoldable pub announce : Exec (Process A) (Unit {0})
  unfolding ◌>>=◌
  announce = do
    waits ← asks (λ s. is_positive s.start_delay)
    notice ← asks (λ s. record { bank_id = s.bank_id; server_addr = s.local_addr })
    master_addr ← gets (λ p. p.master_addr)
    if waits
        then (do on_wire (send_msg_tcp master_addr MessageType.join (join_sub notice)); done)
        else done

  -- One round of the endless loop.
  unfoldable pub send_heartbeat : Exec (Process A) (Unit {0})
  unfolding ◌>>=◌
  send_heartbeat = do
    local_addr ← asks (λ s. s.local_addr)
    notice ← asks (λ s. record { bank_id = s.bank_id; server_addr = s.local_addr })
    master_addr ← gets (λ p. p.master_addr)
    on_wire (send_msg_udp local_addr master_addr MessageType.heartbeat (heartbeat_sub notice))
    done

module _ {A : Type 0} ⦃f : FloatOps A⦄ where
  unfoldable pub serve_tcp : Message A → Exec (Process A) (Unit {0})
  serve_tcp msg p = let (r, p') = handle_tcp_msg msg p in (caught r, p')

  unfoldable pub serve_udp : Message A → Exec (Process A) (Unit {0})
  serve_udp msg p = let (r, p') = handle_udp_msg msg p in (uncaught r, p')
