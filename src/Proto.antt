-- ===== src/Proto.antt =====
-- src-cpp/common/message.proto and message.cc's `prepare_msg`: the messages of the protocol. A
-- `float` is a value of a type `A` whose operations are in Proto/Float. An optional field that is
-- not set reads as its default, so it is a plain field here, unless the program asks `has_…()`.
pub mod Float
pub mod Prepare
use chain_replication.Base.{
  ℕ, ℤ, pos, int_eq, int_eq_iff, String, ◌≡◌, ◌↔◌, Bool, true, ◌&&◌, Option, arith, str_eq, eq_iff,
}

pub data MessageType : Type 0 where
  request_type reply_type acknowledge heartbeat to_be_head to_be_tail : MessageType
  new_succ_server new_pre_server new_tail_ready new_head new_tail req_seq join : MessageType
  extend_server extend_msg extend_finish extend_fail : MessageType

pub record Address : Type 0 where
  pub ip : String
  pub port : ℤ

abbrev pub default_address : Address
default_address = record { ip = ""; port = pos 0 }

-- Equality of addresses, as `Node::operator==` tests it.
unfoldable pub addr_eq : Address → Address → Bool
addr_eq a b = str_eq a.ip b.ip && int_eq a.port b.port

pub addr_eq_iff : (a b : Address) → (addr_eq a b ≡ true) ↔ (a ≡ b)
unfolding addr_eq
addr_eq_iff a b = ground (arith, eq_iff a.ip b.ip, int_eq_iff a.port b.port)

pub data RequestType : Type 0 where
  query deposit withdraw transfer transfer_to : RequestType

pub data CheckRequest : Type 0 where
  inconsistent processed newreq : CheckRequest

pub data ReplyOutcome : Type 0 where
  processed inconsistent_with_history insufficient_funds : ReplyOutcome

pub record Reply (A : Type 0) : Type 0 where
  pub req_id : String
  pub outcome : ReplyOutcome
  pub account_id : String
  pub balance : A

pub record Request (A : Type 0) : Type 0 where
  pub req_id : String
  pub type : RequestType
  pub client_addr : Address
  pub bank_update_seq : ℕ
  pub account_id : String
  pub bank_id : String
  pub amount : A
  pub dest_bank_id : String
  pub dest_account_id : String
  pub reply : Reply A
  pub check_result : CheckRequest

pub record Acknowledge : Type 0 where
  pub bank_update_seq : ℕ

-- `Heartbeat`, `Notify`, `Join` and `ExtendFinish` have the same two fields.
pub record Heartbeat : Type 0 where
  pub bank_id : String
  pub server_addr : Address

pub record Notify : Type 0 where
  pub bank_id : String
  pub server_addr : Address

pub record Join : Type 0 where
  pub bank_id : String
  pub server_addr : Address

pub record ExtendFinish : Type 0 where
  pub bank_id : String
  pub server_addr : Address

pub record Reqseq : Type 0 where
  pub bank_update_seq : ℕ
  pub bank_id : String
  pub pre_addr : Address
  pub succ_addr : Address

pub record AccountInfo (A : Type 0) : Type 0 where
  pub account_id : String
  pub balance : A

pub data ExtendType : Type 0 where
  account history sent fin start : ExtendType

pub record ExtendMsg (A : Type 0) : Type 0 where
  pub type : ExtendType
  pub request : Option (Request A)
  pub account : Option (AccountInfo A)
  pub server_addr : Address

pub record Message (A : Type 0) : Type 0 where
  pub type : MessageType
  pub request : Option (Request A)
  pub reply : Option (Reply A)
  pub ack : Option Acknowledge
  pub heartbeat : Option Heartbeat
  pub addr : Option Address
  pub notify : Option Notify
  pub reqseq : Option Reqseq
  pub join : Option Join
  pub extendmsg : Option (ExtendMsg A)
  pub extend_finish : Option ExtendFinish

-- What `const pb::Message &` can be at a call of the send functions.
pub data SubMessage (A : Type 0) : Type 0 where
  request_sub : Request A → SubMessage A
  reply_sub : Reply A → SubMessage A
  acknowledge_sub : Acknowledge → SubMessage A
  heartbeat_sub : Heartbeat → SubMessage A
  address_sub : Address → SubMessage A
  notify_sub : Notify → SubMessage A
  reqseq_sub : Reqseq → SubMessage A
  join_sub : Join → SubMessage A
  extend_msg_sub : ExtendMsg A → SubMessage A
  extend_finish_sub : ExtendFinish → SubMessage A
  message_sub : SubMessage A
