-- ===== src/Server/Validity/Messages/Serve.antt =====
-- The message loops of src-cpp/server/server.cc keep the invariant of a server.
use chain_replication.Base.{◌+◌, ◌<◌, ◌≡◌, refl, false, some, none, Option, [], u32_mod}
use chain_replication.Exec.{Exec, expect, ◌>>=◌}
use chain_replication.Proto.{
  Request, Message, request_type, reply_type, acknowledge, to_be_head, to_be_tail, new_succ_server,
  new_pre_server, new_head, extend_server, extend_msg, extend_fail, ExtendMsg,
}
use chain_replication.Proto.Float.{FloatOps, SignLaws, zero_float, ◌<f◌}
use chain_replication.Server.State.{ChainServer, Process}
use chain_replication.Server.Dispatch.{dispatch}
use chain_replication.Server.Update.{receive_request, receive_ack, receive_transfer_reply}
use chain_replication.Server.Extend.{receive_extend_msg}
use chain_replication.Server.Validity.{IsValid}
use chain_replication.Server.Validity.Requests.{receive_request-IsValid}
use chain_replication.Server.Validity.Acks.Invariant.{receive_ack-IsValid}
use chain_replication.Server.Validity.Promotion.Invariant.{to_be_tail-IsValid}
use chain_replication.Server.Validity.Messages.{
  to_be_head-Safe, receive_new_preserver-Safe, receive_new_succserver-Safe, handle_new_head-Safe,
}
use chain_replication.Server.Validity.Messages.Erasure.{receive_transfer_reply-IsValid}
use chain_replication.Server.Validity.Messages.Joining.{
  IsFair, extending_server_fail-Safe, receive_extend_server-Safe, receive_extend_msg-IsValid,
}

module _ {A : Type 0} ⦃f : FloatOps A⦄ where
  -- What a message may be when it reaches a server: amounts are not negative, a number is left for an
  -- update, and only a server that has nothing waiting is sent the history of another one.
  pub record IsAdmissible (msg : Message A) (s : ChainServer A) : Type 0 where
    pub amount : (x : Request A) → msg.request ≡ some x → x.amount <f zero_float ≡ false
    pub room : s.bank_update_seq + 1 < u32_mod
    pub fair : (m : ExtendMsg A) → msg.extendmsg ≡ some m → IsFair m
    pub joining : (m : ExtendMsg A) → msg.extendmsg ≡ some m → s.sent_list ≡ []

  -- A part of the message that is there, or a failed assertion.
  pub expected :
      {X : Type 0} (o : Option X) (g : X → Exec (Process A) (Unit {0})) (p : Process A)
      → IsValid p.server
      → ((x : X) → o ≡ some x → IsValid (g x p).1.server)
      → IsValid ((expect o >>= g) p).1.server
  unfolding ◌>>=◌
  expected none g p v h = v
  expected (some x) g p v h = h x refl

  module _ (laws : SignLaws f) where
    pub dispatch-IsValid :
        (msg : Message A) (p : Process A)
        → IsAdmissible msg p.server
        → IsValid p.server
        → IsValid (dispatch msg p).1.server
    unfolding dispatch
    dispatch-IsValid msg p a v =
        elim msg.type as (λ t. IsValid (dispatch (record msg { type = t }) p).1.server) [
          | request_type ↦
              expected msg.request receive_request p v
                (λ x e. receive_request-IsValid laws x (a.amount x e) p a.room v)
          | acknowledge ↦ expected msg.ack receive_ack p v (λ x e. receive_ack-IsValid x p v)
          | to_be_head ↦ to_be_head-Safe.at p v
          | new_head ↦ expected msg.notify _ p v (λ x e. (handle_new_head-Safe x).at p v)
          | to_be_tail ↦ to_be_tail-IsValid p v
          | new_pre_server ↦ expected msg.addr _ p v (λ x e. (receive_new_preserver-Safe x).at p v)
          | new_succ_server ↦
              expected msg.reqseq _ p v (λ x e. (receive_new_succserver-Safe x).at p v)
          | extend_server ↦ expected msg.addr _ p v (λ x e. (receive_extend_server-Safe x).at p v)
          | extend_msg ↦
              expected msg.extendmsg receive_extend_msg p v
                (λ m e. receive_extend_msg-IsValid laws p v (a.joining m e) m (a.fair m e))
          | extend_fail ↦ extending_server_fail-Safe.at p v
          | reply_type ↦
              expected msg.reply receive_transfer_reply p v
                (λ x e. receive_transfer_reply-IsValid x p v)
          | _ ↦ v
        ]
