-- ===== src/Wire.antt =====
-- The sending side of src-cpp/common/message.{h,cc}, with the two counters that it declares. What
-- the sockets and the protobuf library do is a parameter, `Net`.
pub mod Sends
pub mod Codec
use chain_replication.Base.{ℕ, ◌+◌, String, Bool, true, false, ◌&&◌, List, ◌∷◌, ltb, if◌then◌else◌}
use chain_replication.Exec.{Result, Exec, pure, throw, gets, modify, require, expect, ◌>>=◌, ◌>>◌}
use chain_replication.Proto.{Address, MessageType, Message, SubMessage}
use chain_replication.Proto.Prepare.{prepare_msg}

-- How an attempt to send ends: no connection (TCP) or no socket bound (UDP), a failed write, all
-- bytes written, or all bytes written and an exception from `shutdown` or `close` (TCP).
pub data Delivery : Type 0 where
  refused broken written unclosed : Delivery

-- No exception comes from the end of a TCP send.
abbrev pub closes : Delivery → Bool
closes Delivery.unclosed = false
closes _ = true

pub record Net (A : Type 0) : Type 0 where
  -- `address::from_string` throws unless the text is an address.
  pub is_address : String → Bool
  -- The outcome of the n-th attempt to send.
  pub tcp : ℕ → Delivery
  pub udp : ℕ → Delivery
  pub byte_size : Message A → ℕ

pub data Transport : Type 0 where
  tcp_packet udp_packet : Transport

pub record Packet (A : Type 0) : Type 0 where
  pub transport : Transport
  pub target : Address
  pub message : Message A

pub record Wire (A : Type 0) : Type 0 where
  pub net : Net A
  pub attempts : ℕ
  -- What went out, the latest first.
  pub packets : List (Packet A)
  pub send_msg_seq : ℕ
  pub rec_msg_seq : ℕ

abbrev pub udp_max_length : ℕ
udp_max_length = 512

module _ {A : Type 0} where
  transmit : Packet A → Wire A → Wire A
  transmit k w = record w { packets = k ∷ w.packets }

  -- The outcome of this attempt to send.
  attempt : {O : Type 0} → (Net A → ℕ → O) → Exec (Wire A) O
  attempt look w = gets (λ v. look v.net w.attempts) (record w { attempts = w.attempts + 1 })

  write_tcp : Delivery → Address → Message A → Exec (Wire A) Bool
  unfolding transmit
  write_tcp Delivery.written target msg w = (
    Result.ok true,
    transmit (record { transport = tcp_packet; target = target; message = msg }) w,
  )
  write_tcp Delivery.unclosed target msg w =
      (Result.threw, transmit (record { transport = tcp_packet; target = target; message = msg }) w)
  write_tcp _ target msg w = (Result.ok false, w)

  connected : Delivery → Address → MessageType → SubMessage A → Exec (Wire A) Bool
  unfolding ◌>>=◌ write_tcp
  connected Delivery.refused target msg_type sub_msg = pure false
  connected d target msg_type sub_msg = do
    msg ← expect (prepare_msg msg_type sub_msg)
    write_tcp d target msg

  unfoldable pub send_msg_tcp : Address → MessageType → SubMessage A → Exec (Wire A) Bool
  unfolding ◌>>=◌ attempt connected
  send_msg_tcp target msg_type sub_msg w =
      if w.net.is_address target.ip
      then (do d ← attempt (λ n. n.tcp); connected d target msg_type sub_msg) w
      else throw w

  send_to : Delivery → Address → Message A → Exec (Wire A) Bool
  unfolding transmit
  send_to Delivery.written target msg w = (
    Result.ok true,
    transmit (record { transport = udp_packet; target = target; message = msg }) w,
  )
  send_to _ target msg w = throw w

  bound : Delivery → Address → MessageType → SubMessage A → Exec (Wire A) Bool
  unfolding ◌>>=◌ send_to
  bound Delivery.refused target msg_type sub_msg = throw
  bound d target msg_type sub_msg = do
    msg ← expect (prepare_msg msg_type sub_msg)
    size ← gets (λ w. w.net.byte_size msg + 4)
    require (ltb size udp_max_length)
    send_to d target msg

  unfoldable pub send_msg_udp : Address → Address → MessageType → SubMessage A → Exec (Wire A) Bool
  unfolding ◌>>=◌ attempt bound
  send_msg_udp local target msg_type sub_msg w =
      if w.net.is_address local.ip && w.net.is_address target.ip
      then (do d ← attempt (λ n. n.udp); bound d target msg_type sub_msg) w
      else throw w

  -- `send_msg_seq++`
  abbrev pub count_send : Exec (Wire A) (Unit {0})
  count_send = modify (λ w. record w { send_msg_seq = w.send_msg_seq + 1 })

  -- `rec_msg_seq++`
  abbrev pub count_receive : Exec (Wire A) (Unit {0})
  count_receive = modify (λ w. record w { rec_msg_seq = w.rec_msg_seq + 1 })
