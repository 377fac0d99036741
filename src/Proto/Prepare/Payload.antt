-- ===== src/Proto/Prepare/Payload.antt =====
-- The `assert(msg.has_…())` of the handlers in src-cpp/server/server.cc, src-cpp/master/master.cc and
-- src-cpp/client/client.cc, on what `prepare_msg` of src-cpp/common/message.cc makes.
use chain_replication.Base.{◌≡◌, true, Bool, some, is_some, arith}
use chain_replication.Proto.{
  MessageType, request_type, reply_type, acknowledge, heartbeat, new_succ_server, new_pre_server,
  new_tail_ready, new_head, new_tail, req_seq, join, extend_server, extend_msg, extend_finish,
  Message, SubMessage,
}
use chain_replication.Proto.Prepare.{prepare_msg}

module _ {A : Type 0} where
  -- What the receiver asserts for a message of its type.
  abbrev pub has_payload : MessageType → Message A → Bool
  has_payload request_type m = is_some m.request
  has_payload reply_type m = is_some m.reply
  has_payload acknowledge m = is_some m.ack
  has_payload heartbeat m = is_some m.heartbeat
  has_payload new_head m = is_some m.notify
  has_payload new_tail m = is_some m.notify
  has_payload new_pre_server m = is_some m.addr
  has_payload extend_server m = is_some m.addr
  has_payload new_tail_ready m = is_some m.addr
  has_payload req_seq m = is_some m.reqseq
  has_payload new_succ_server m = is_some m.reqseq
  has_payload join m = is_some m.join
  has_payload extend_msg m = is_some m.extendmsg
  has_payload extend_finish m = is_some m.extend_finish
  has_payload _ m = true

  -- A message that can be prepared has the type that was asked for, and the payload that its receiver
  -- asserts for this type.
  pub prepare_msg_lem :
      (t : MessageType) (sub : SubMessage A) (m : Message A)
      → prepare_msg t sub ≡ some m
      → (m.type ≡ t) × (has_payload m.type m ≡ true)
  unfolding prepare_msg
  prepare_msg_lem t sub m h = ground (arith, h)
