-- ===== src/Server/Send.antt =====
-- What a server sends, and the crashes that the configuration injects: `if_server_crash`,
-- `forward_request`, `reply_to_client`, `sendback_ack` and `forward_transfer_to_downstream` of
-- src-cpp/server/server.cc. Lines to the log are left out.
pub mod Frame
use chain_replication.Base.{pos, int_eq, Bool, true, false, if◌then◌else◌}
use chain_replication.Base.Map.{find}
use chain_replication.Exec.{Exec, done, exit, expect, ◌>>=◌, ◌>>◌}
use chain_replication.Proto.{
  Address, Request, RequestType, transfer_to, Reply, Acknowledge, CheckRequest, request_type,
  reply_type, acknowledge, request_sub, reply_sub, acknowledge_sub,
}
use chain_replication.Wire.{send_msg_tcp, send_msg_udp, count_send}
use chain_replication.Server.State.{
  Process, FailScenario, no_failure, fail_after_send, fail_after_recv, fail_after_send_in_extend,
  fail_after_recv_in_extend, fail_after_interval_fail, on_wire, asks,
}

module _ {A : Type 0} where
  -- The test of each case of the `switch`; the last scenario has no case.
  unfoldable pub crashes : FailScenario → Process A → Bool
  crashes no_failure p = false
  crashes fail_after_send p = int_eq (pos p.wire.send_msg_seq) p.server.fail_seq
  crashes fail_after_recv p = int_eq (pos p.wire.rec_msg_seq) p.server.fail_seq
  crashes fail_after_interval_fail p = p.server.internal_crashing
  crashes fail_after_send_in_extend p = int_eq (pos p.send_req_seq_extend) p.server.fail_seq
  crashes fail_after_recv_in_extend p = false

  unfoldable pub if_server_crash : Exec (Process A) (Unit {0})
  if_server_crash p = if crashes p.server.fail_scenario p then exit p else done p

  -- A send that succeeded is counted, and may be the one to crash after.
  unfoldable pub count_and_crash : Bool → Exec (Process A) (Unit {0})
  unfolding ◌>>=◌
  count_and_crash true = on_wire count_send >> if_server_crash
  count_and_crash false = done

  unfoldable pub forward_request : Request A → Exec (Process A) (Unit {0})
  unfolding ◌>>=◌
  forward_request req = do
    succ_server_addr ← asks (λ s. s.succ_server_addr)
    sent ← on_wire (send_msg_tcp succ_server_addr request_type (request_sub req))
    count_and_crash sent

  -- A downstream bank answers the upstream tail by TCP, and its clients by UDP.
  unfoldable pub send_reply : RequestType → Address → Reply A → Exec (Process A) Bool
  unfolding ◌>>=◌
  send_reply transfer_to client reply = on_wire (send_msg_tcp client reply_type (reply_sub reply))
  send_reply _ client reply = do
    local_addr ← asks (λ s. s.local_addr)
    on_wire (send_msg_udp local_addr client reply_type (reply_sub reply))

  unfoldable pub reply_to_client : Request A → Exec (Process A) (Unit {0})
  unfolding ◌>>=◌
  reply_to_client req = do
    send_reply req.type req.client_addr req.reply
    on_wire count_send
    if_server_crash

  unfoldable pub sendback_ack : Acknowledge → Exec (Process A) (Unit {0})
  unfolding ◌>>=◌
  sendback_ack ack = do
    pre_server_addr ← asks (λ s. s.pre_server_addr)
    sent ← on_wire (send_msg_tcp pre_server_addr acknowledge (acknowledge_sub ack))
    count_and_crash sent

  -- The copy that goes downstream. A cleared field reads as its default.
  unfoldable pub transfer_to_request : Address → Request A → Request A
  transfer_to_request local_addr req = record req {
    type = transfer_to;
    account_id = req.dest_account_id;
    bank_id = req.dest_bank_id;
    check_result = CheckRequest.inconsistent;
    dest_account_id = "";
    dest_bank_id = "";
    bank_update_seq = 0;
    client_addr = local_addr;
  }

  unfoldable pub forward_transfer_to_downstream : Request A → Exec (Process A) (Unit {0})
  unfolding ◌>>=◌
  forward_transfer_to_downstream req = do
    local_addr ← asks (λ s. s.local_addr)
    head ← asks (λ s. find req.dest_bank_id s.bank_head_list)
    downstream_head ← expect head
    on_wire count_send
    on_wire (
        send_msg_tcp downstream_head request_type
          (request_sub (transfer_to_request local_addr req)))
    if_server_crash
