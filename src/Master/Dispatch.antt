-- ===== src/Master/Dispatch.antt =====
-- The master's handlers and message loops in src-cpp/master/master.cc.
use chain_replication.Base.{ℕ, none, some, if◌then◌else◌}
use chain_replication.Exec.{Exec, done, gets, expect, ◌>>=◌, ◌>>◌}
use chain_replication.Proto.{
  Address, default_address, Heartbeat, Join, ExtendFinish, Reqseq, Message, MessageType, req_seq,
  new_tail, new_succ_server, extend_server, address_sub, reqseq_sub,
}
use chain_replication.Wire.{count_receive}
use chain_replication.Master.Chain.{
  BankServerChain, append_node, pre_server_addr, get_node, set_node, set_report_time,
}
use chain_replication.Master.State.{MasterProcess, on_wire, get_bank_server_chain_by_id, put_chain}
use chain_replication.Master.Crash.{send, notify_clients}

-- `if (node && !node->is_crashed()) node->set_report_time();`
unfoldable pub reported_chain : ℕ → Address → BankServerChain → BankServerChain
reported_chain now a b = elim (get_node a b.server_chain) [
  | none ↦ b
  | some node ↦
      if node.crashed
      then b
      else record b { server_chain = set_node a (set_report_time now node) b.server_chain }
]

module _ {A : Type 0} where
  unfoldable pub handle_heartbeat : Heartbeat → Exec (MasterProcess A) (Unit {0})
  unfolding ◌>>=◌
  handle_heartbeat hb = do
    bsc ← get_bank_server_chain_by_id hb.bank_id
    now ← gets (λ p. p.now)
    put_chain hb.bank_id (reported_chain now hb.server_addr bsc)

  unfoldable pub handle_join : Join → Exec (MasterProcess A) (Unit {0})
  unfolding ◌>>=◌
  handle_join msg = do
    bsc ← get_bank_server_chain_by_id msg.bank_id
    let bsc' = append_node msg.server_addr bsc
    put_chain msg.bank_id bsc'
    pre_addr ← expect (pre_server_addr msg.server_addr bsc')
    send pre_addr extend_server (address_sub msg.server_addr)
    put_chain msg.bank_id (record bsc' { extending = msg.server_addr })

  unfoldable pub handle_extend_finish : ExtendFinish → Exec (MasterProcess A) (Unit {0})
  unfolding ◌>>=◌
  handle_extend_finish msg = do
    bsc ← get_bank_server_chain_by_id msg.bank_id
    put_chain msg.bank_id (record bsc { tail = msg.server_addr; extending = default_address })
    notify_clients new_tail (record { bank_id = bsc.bank_id; server_addr = msg.server_addr })

  unfoldable pub notify_internal_crash_to_preserver : Reqseq → Exec (MasterProcess A) (Unit {0})
  unfolding ◌>>=◌
  notify_internal_crash_to_preserver reqseq =
      send reqseq.pre_addr new_succ_server (reqseq_sub reqseq)

  unfoldable pub handle_tcp_msg : Message A → Exec (MasterProcess A) (Unit {0})
  unfolding ◌>>=◌
  handle_tcp_msg msg = do
    on_wire count_receive
    elim msg.type [
      | MessageType.heartbeat ↦ (do hb ← expect msg.heartbeat; handle_heartbeat hb)
      | req_seq ↦ (do reqseq ← expect msg.reqseq; notify_internal_crash_to_preserver reqseq)
      | MessageType.join ↦ (do j ← expect msg.join; handle_join j)
      | MessageType.extend_finish ↦ (do e ← expect msg.extend_finish; handle_extend_finish e)
      | _ ↦ done
    ]

  unfoldable pub handle_udp_msg : Message A → Exec (MasterProcess A) (Unit {0})
  unfolding ◌>>=◌
  handle_udp_msg msg = do
    on_wire count_receive
    elim msg.type [
      | MessageType.heartbeat ↦ (do hb ← expect msg.heartbeat; handle_heartbeat hb)
      | _ ↦ done
    ]
