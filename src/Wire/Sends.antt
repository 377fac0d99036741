-- ===== src/Wire/Sends.antt =====
-- When the send functions of src-cpp/common/message.cc return, and what they put on the wire.
use chain_replication.Base.{
  ◌+◌, ◌<◌, ◌≡◌, Bool, true, false, arith, is_some, Option-cases, inl, inr,
}
use chain_replication.Exec.{Result, ok, ◌>>=◌}
use chain_replication.Proto.{Address, MessageType, Message, SubMessage}
use chain_replication.Proto.Prepare.{prepare_msg}
use chain_replication.Wire.{Wire, closes, written, send_msg_tcp, send_msg_udp}

abbrev pub is_ok : {R : Type 0} → Result R → Bool
is_ok (ok r) = true
is_ok _ = false

module _ {A : Type 0} (target : Address) (t : MessageType) (sub : SubMessage A) where
  pub net-send_msg_tcp : (w : Wire A) → (send_msg_tcp target t sub w).1.net ≡ w.net
  unfolding send_msg_tcp ◌>>=◌
  net-send_msg_tcp w = ground arith

  -- A message of the type that its payload belongs to can be prepared.
  abbrev pub Fits : Type 0
  Fits = is_some (prepare_msg t sub) ≡ true

  pub send_msg_tcp_returns :
      (w : Wire A)
      → w.net.is_address target.ip ≡ true
      → closes (w.net.tcp w.attempts) ≡ true
      → Fits
      → is_ok (send_msg_tcp target t sub w).0 ≡ true
  unfolding send_msg_tcp ◌>>=◌
  send_msg_tcp_returns w h c fits = ground arith

  pub net-send_msg_udp :
      (local : Address) (w : Wire A) → (send_msg_udp local target t sub w).1.net ≡ w.net
  unfolding send_msg_udp ◌>>=◌
  net-send_msg_udp local w = ground arith

  pub send_msg_udp_returns :
      (local : Address) (w : Wire A)
      → w.net.is_address local.ip ≡ true
      → w.net.is_address target.ip ≡ true
      → w.net.udp w.attempts ≡ written
      → ((m : Message A) → w.net.byte_size m + 4 < 512)
      → Fits
      → is_ok (send_msg_udp local target t sub w).0 ≡ true
  unfolding send_msg_udp ◌>>=◌
  send_msg_udp_returns local w h k u small fits = elim (Option-cases (prepare_msg t sub)) [
    | inl e ↦ ground arith
    | inr (m, e) ↦ ground (arith, small m)
  ]
