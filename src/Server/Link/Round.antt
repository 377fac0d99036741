-- ===== src/Server/Link/Round.antt =====
-- What a server of src-cpp/server/server.cc sends when it has finished an update, on networks on
-- which all sends go through: a reply to the client and an acknowledgement up the chain.
use chain_replication.Base.{ℕ, ◌+◌, ◌<◌, ◌≡◌, refl, true, some, ◌∷◌, arith, ltb}
use chain_replication.Exec.{ok, ◌>>=◌}
use chain_replication.Proto.{
  Address, Request, Reply, RequestType, transfer_to, query, deposit, withdraw, transfer, Message,
  acknowledge, reply_type, reply_sub,
}
use chain_replication.Proto.Prepare.{bare, prepare_msg}
use chain_replication.Wire.{
  Net, Wire, Packet, Delivery, Transport, tcp_packet, udp_packet, send_msg_tcp, send_msg_udp,
}
use chain_replication.Server.State.{Process, no_failure}
use chain_replication.Server.Send.{
  reply_to_client, sendback_ack, count_and_crash, if_server_crash, crashes, send_reply,
}
use chain_replication.Server.Reconfigure.Resend.{IsOpen}

abbrev reply_transport : RequestType → Transport
reply_transport transfer_to = tcp_packet
reply_transport query = udp_packet
reply_transport deposit = udp_packet
reply_transport withdraw = udp_packet
reply_transport transfer = udp_packet

module _ {A : Type 0} where
  -- Sends go through, by TCP and by UDP, and no message is too long for a datagram.
  pub record IsReliable (net : Net A) : Type 0 where
    pub streams : IsOpen net
    pub datagrams : (n : ℕ) → net.udp n ≡ Delivery.written
    pub small : (m : Message A) → net.byte_size m + 4 < 512

  abbrev pub ack_packet : Address → ℕ → Packet A
  ack_packet target n = record {
    transport = tcp_packet;
    target = target;
    message = record (bare acknowledge) { ack = some (record { bank_update_seq = n }) };
  }

  -- The reply to a request, for who sent it.
  abbrev pub reply_packet : Request A → Packet A
  reply_packet x = record {
    transport = reply_transport x.type;
    target = x.client_addr;
    message = record (bare reply_type) { reply = some x.reply };
  }

  -- A packet that went out, and was counted.
  abbrev pub posted : Packet A → Wire A → Wire A
  posted k w = record w {
    attempts = w.attempts + 1;
    packets = k ∷ w.packets;
    send_msg_seq = w.send_msg_seq + 1;
  }

  -- The same, before it is counted.
  abbrev written_out : Packet A → Wire A → Wire A
  written_out k w = record w { attempts = w.attempts + 1; packets = k ∷ w.packets }

  tcp_lem :
      (target : Address) (y : Reply A) (w : Wire A)
      → IsOpen w.net
      → send_msg_tcp target reply_type (reply_sub y) w ≡ (
        ok true,
        written_out
            (record {
              transport = tcp_packet;
              target = target;
              message = record (bare reply_type) { reply = some y };
            })
            w,
      )
  unfolding send_msg_tcp prepare_msg ◌>>=◌
  tcp_lem target y w o = rw (o.addresses target.ip, o.streams w.attempts) refl

  udp_lem :
      (local target : Address) (y : Reply A) (w : Wire A)
      → IsReliable w.net
      → send_msg_udp local target reply_type (reply_sub y) w ≡ (
        ok true,
        written_out
            (record {
              transport = udp_packet;
              target = target;
              message = record (bare reply_type) { reply = some y };
            })
            w,
      )
  unfolding send_msg_udp prepare_msg ◌>>=◌
  udp_lem local target y w o =
      rw (o.streams.addresses local.ip, o.streams.addresses target.ip, o.datagrams w.attempts, fits)
        refl
    where
      fits : ltb (w.net.byte_size (record (bare reply_type) { reply = some y }) + 4) 512 ≡ true
      fits = ground (arith, o.small (record (bare reply_type) { reply = some y }))

  send_reply_lem :
      (t : RequestType) (target : Address) (y : Reply A) (p : Process A)
      → IsReliable p.wire.net
      → send_reply t target y p ≡ (
        ok true,
        record p {
          wire =
              written_out
                (record {
                  transport = reply_transport t;
                  target = target;
                  message = record (bare reply_type) { reply = some y };
                })
                p.wire;
        },
      )
  unfolding send_reply ◌>>=◌
  send_reply_lem transfer_to target y p o = rw (tcp_lem target y p.wire o.streams) refl
  send_reply_lem query target y p o = rw (udp_lem p.server.local_addr target y p.wire o) refl
  send_reply_lem deposit target y p o = rw (udp_lem p.server.local_addr target y p.wire o) refl
  send_reply_lem withdraw target y p o = rw (udp_lem p.server.local_addr target y p.wire o) refl
  send_reply_lem transfer target y p o = rw (udp_lem p.server.local_addr target y p.wire o) refl

  pub reply_to_client-posted :
      (x : Request A) (p : Process A)
      → IsReliable p.wire.net
      → p.server.fail_scenario ≡ no_failure
      → reply_to_client x p ≡ (ok tt, record p { wire = posted (reply_packet x) p.wire })
  unfolding reply_to_client if_server_crash crashes ◌>>=◌
  reply_to_client-posted x p o f = rw (send_reply_lem x.type x.client_addr x.reply p o, f) refl

  pub sendback_ack-posted :
      (n : ℕ) (p : Process A)
      → IsOpen p.wire.net
      → p.server.fail_scenario ≡ no_failure
      → sendback_ack (record { bank_update_seq = n }) p
        ≡ (ok tt, record p { wire = posted (ack_packet p.server.pre_server_addr n) p.wire })
  unfolding sendback_ack count_and_crash if_server_crash crashes send_msg_tcp prepare_msg ◌>>=◌
  sendback_ack-posted n p o f =
      rw (o.addresses p.server.pre_server_addr.ip, o.streams p.wire.attempts, f) refl
