-- ===== src/Proto/Prepare.antt =====
-- `prepare_msg` of src-cpp/common/message.cc, and what `has_…()` finds at the receiver.
pub mod Payload
use chain_replication.Base.{Option, none, some}
use chain_replication.Proto.{
  MessageType, request_type, reply_type, acknowledge, heartbeat, to_be_head, to_be_tail,
  new_succ_server, new_pre_server, new_tail_ready, new_head, new_tail, req_seq, join, extend_server,
  extend_msg, extend_finish, extend_fail, Message, SubMessage, request_sub, reply_sub,
  acknowledge_sub, heartbeat_sub, address_sub, notify_sub, reqseq_sub, join_sub, extend_msg_sub,
  extend_finish_sub,
}

module _ {A : Type 0} where
  -- A message with its type alone, as `proto::Message msg; msg.set_type(t)` leaves it.
  abbrev pub bare : MessageType → Message A
  bare t = record {
    type = t;
    request = none;
    reply = none;
    ack = none;
    heartbeat = none;
    addr = none;
    notify = none;
    reqseq = none;
    join = none;
    extendmsg = none;
    extend_finish = none;
  }

  -- `CopyFrom` of another type of message is a fatal error of the protobuf library: `none`.
  unfoldable pub prepare_msg : MessageType → SubMessage A → Option (Message A)
  prepare_msg request_type (request_sub r) = some (record (bare request_type) { request = some r })
  prepare_msg reply_type (reply_sub r) = some (record (bare reply_type) { reply = some r })
  prepare_msg acknowledge (acknowledge_sub a) = some (record (bare acknowledge) { ack = some a })
  prepare_msg heartbeat (heartbeat_sub h) = some (record (bare heartbeat) { heartbeat = some h })
  prepare_msg to_be_head s = some (bare to_be_head)
  prepare_msg new_head (notify_sub n) = some (record (bare new_head) { notify = some n })
  prepare_msg to_be_tail s = some (bare to_be_tail)
  prepare_msg new_tail (notify_sub n) = some (record (bare new_tail) { notify = some n })
  prepare_msg new_pre_server (address_sub a) = some (record (bare new_pre_server) { addr = some a })
  prepare_msg req_seq (reqseq_sub r) = some (record (bare req_seq) { reqseq = some r })
  prepare_msg new_succ_server (reqseq_sub r) =
      some (record (bare new_succ_server) { reqseq = some r })
  prepare_msg new_tail_ready (address_sub a) = some (record (bare new_tail_ready) { addr = some a })
  prepare_msg join (join_sub j) = some (record (bare join) { join = some j })
  prepare_msg extend_server (address_sub a) = some (record (bare extend_server) { addr = some a })
  prepare_msg extend_msg (extend_msg_sub m) = some (record (bare extend_msg) { extendmsg = some m })
  prepare_msg extend_finish (extend_finish_sub f) =
      some (record (bare extend_finish) { extend_finish = some f })
  prepare_msg extend_fail s = some (bare extend_fail)
  prepare_msg _ _ = none
