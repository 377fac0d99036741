-- ===== src/Server/Reconfigure/Resend.antt =====
-- `receive_new_succserver` of src-cpp/server/server.cc: which requests the server before a crashed one
-- sends again to the server after it.
use chain_replication.Base.{
  ℕ, ◌+◌, String, ◌≡◌, refl, true, false, some, List, [], ◌∷◌, keep, ltb, Bool-cases, inl, inr,
}
use chain_replication.Exec.{ok, for_each, ◌>>=◌}
use chain_replication.Proto.{Address, Request, Reqseq, request_type}
use chain_replication.Proto.Prepare.{bare, prepare_msg}
use chain_replication.Wire.{Net, Wire, Packet, Delivery, tcp_packet, send_msg_tcp}
use chain_replication.Server.State.{Process, no_failure}
use chain_replication.Server.Send.{crashes, if_server_crash, count_and_crash, forward_request}
use chain_replication.Server.Reconfigure.{forward_after, receive_new_succserver}

module _ {A : Type 0} where
  -- A TCP send to any address goes through.
  pub record IsOpen (net : Net A) : Type 0 where
    pub addresses : (ip : String) → net.is_address ip ≡ true
    pub streams : (n : ℕ) → net.tcp n ≡ Delivery.written

  abbrev pub request_packet : Address → Request A → Packet A
  request_packet target x = record {
    transport = tcp_packet;
    target = target;
    message = record (bare request_type) { request = some x };
  }

  -- One request that went out, and was counted.
  abbrev pub sent : Address → Request A → Wire A → Wire A
  sent target x w = record w {
    attempts = w.attempts + 1;
    packets = request_packet target x ∷ w.packets;
    send_msg_seq = w.send_msg_seq + 1;
  }

  -- The requests in their order.
  abbrev pub all_sent : Address → List (Request A) → Wire A → Wire A
  all_sent target [] w = w
  all_sent target (x ∷ xs) w = all_sent target xs (sent target x w)

  -- On such a network, and without an injected crash, a request goes to the successor.
  pub forward_request-sent :
      (x : Request A) (p : Process A)
      → IsOpen p.wire.net
      → p.server.fail_scenario ≡ no_failure
      → forward_request x p ≡ (ok tt, record p { wire = sent p.server.succ_server_addr x p.wire })
  unfolding forward_request count_and_crash if_server_crash crashes send_msg_tcp prepare_msg ◌>>=◌
  forward_request-sent x p o f =
      rw (o.addresses p.server.succ_server_addr.ip, o.streams p.wire.attempts, f) refl

  forward_all :
      (n : ℕ) (xs : List (Request A)) (p : Process A)
      → IsOpen p.wire.net
      → p.server.fail_scenario ≡ no_failure
      → for_each xs (forward_after n) p ≡ (
        ok tt,
        record p {
          wire = all_sent p.server.succ_server_addr (keep (λ x. ltb n x.bank_update_seq) xs) p.wire;
        },
      )
  unfolding for_each forward_after ◌>>=◌
  forward_all n [] p o f = refl
  forward_all n (x ∷ xs) p o f = elim (Bool-cases (ltb n x.bank_update_seq)) [
    | inl e ↦
        rw (e, forward_request-sent x p o f)
          (forward_all n xs (record p { wire = sent p.server.succ_server_addr x p.wire }) o f)
    | inr e ↦ rw e (forward_all n xs p o f)
  ]

  no_crash : (p : Process A) → p.server.fail_scenario ≡ no_failure → if_server_crash p ≡ (ok tt, p)
  unfolding if_server_crash crashes
  no_crash p f = rw f refl

  -- On a network on which every TCP send goes through, a server without an injected crash learns of
  -- the server after a crashed one, which has the requests up to `n`. Then it takes that server as
  -- its successor, sends it exactly the waiting requests above `n`, in their order, and nothing
  -- else, and keeps all of them waiting. The handler returns with the flag of a crash cleared.
  pub receive_new_succserver_lem :
      (reqseq : Reqseq) (p : Process A)
      → IsOpen p.wire.net
      → p.server.fail_scenario ≡ no_failure
      → let n = reqseq.bank_update_seq in
        receive_new_succserver reqseq p ≡ (
          ok tt,
          record p {
            server = record p.server {
              succ_server_addr = reqseq.succ_addr;
              internal_crashing = false;
            };
            wire =
                all_sent reqseq.succ_addr
                  (keep (λ x. ltb n x.bank_update_seq) p.server.sent_list)
                  p.wire;
          },
        )
  unfolding receive_new_succserver ◌>>=◌
  receive_new_succserver_lem reqseq p o f =
      rw (no_crash crashing f, forward_all reqseq.bank_update_seq p.server.sent_list known o f) refl
    where
      crashing : Process A
      crashing = record p { server = record p.server { internal_crashing = true } }

      known : Process A
      known = record crashing {
        server = record crashing.server { succ_server_addr = reqseq.succ_addr };
      }
