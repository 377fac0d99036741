-- ===== src/Server/Extend/Handover.antt =====
-- What the thread `send_req_to_extend_server` of src-cpp/server/server.cc sends, and what it leaves of
-- the tail.
use chain_replication.Base.{
  ℕ, ◌+◌, ◌≡◌, refl, sym, ap, ◌∙◌, true, false, some, List, [], ◌∷◌, ◌++◌, map,
}
use chain_replication.Exec.{ok, ◌>>=◌}
use chain_replication.Proto.{Address, ExtendMsg, MessageType, fin}
use chain_replication.Proto.Prepare.{bare, prepare_msg}
use chain_replication.Wire.{Wire, Packet, tcp_packet, send_msg_tcp}
use chain_replication.Server.State.{ChainServer, Process, accounts, no_failure}
use chain_replication.Server.Send.{crashes, if_server_crash}
use chain_replication.Server.Extend.{
  copy_accounts, copy_requests, extend_message, start_message, account_message, history_message,
  sent_message, send_extend, send_and_count, send_each, hand_over_tail, send_history,
  send_req_to_extend_server,
}
use chain_replication.Server.Extend.Replay.{history_messages}
use chain_replication.Server.Reconfigure.Resend.{IsOpen}

module _ {A : Type 0} where
  abbrev pub extend_packet : Address → ExtendMsg A → Packet A
  extend_packet target m = record {
    transport = tcp_packet;
    target = target;
    message = record (bare MessageType.extend_msg) { extendmsg = some m };
  }

  -- One message that went out.
  abbrev pub extended : Address → ExtendMsg A → Wire A → Wire A
  extended target m w = record w {
    attempts = w.attempts + 1;
    packets = extend_packet target m ∷ w.packets;
  }

  abbrev pub all_extended : Address → List (ExtendMsg A) → Wire A → Wire A
  all_extended target [] w = w
  all_extended target (m ∷ ms) w = all_extended target ms (extended target m w)

  abbrev pub count_all : List (ExtendMsg A) → ℕ → ℕ
  count_all [] n = n
  count_all (m ∷ ms) n = count_all ms (n + 1)

  -- Messages that were sent and counted.
  abbrev counted : List (ExtendMsg A) → Process A → Process A
  counted ms p = record p {
    wire = all_extended p.server.succ_server_addr ms p.wire;
    send_req_seq_extend = count_all ms p.send_req_seq_extend;
  }

  all_extended-append :
      (target : Address) (ms ns : List (ExtendMsg A)) (w : Wire A)
      → all_extended target (ms ++ ns) w ≡ all_extended target ns (all_extended target ms w)
  all_extended-append target [] ns w = refl
  all_extended-append target (m ∷ ms) ns w = all_extended-append target ms ns (extended target m w)

  count_all-append :
      (ms ns : List (ExtendMsg A)) (n : ℕ) → count_all (ms ++ ns) n ≡ count_all ns (count_all ms n)
  count_all-append [] ns n = refl
  count_all-append (m ∷ ms) ns n = count_all-append ms ns (n + 1)

  counted-append :
      (ms ns : List (ExtendMsg A)) (p : Process A)
      → counted ns (counted ms p) ≡ counted (ms ++ ns) p
  counted-append ms ns p = sym (λ i. record p {
    wire = all_extended-append p.server.succ_server_addr ms ns p.wire i;
    send_req_seq_extend = count_all-append ms ns p.send_req_seq_extend i;
  })

  all_extended-IsOpen :
      (target : Address) (ms : List (ExtendMsg A)) (w : Wire A)
      → IsOpen w.net
      → IsOpen (all_extended target ms w).net
  all_extended-IsOpen target [] w o = o
  all_extended-IsOpen target (m ∷ ms) w o = all_extended-IsOpen target ms (extended target m w) o

  send_extend_lem :
      (m : ExtendMsg A) (p : Process A)
      → IsOpen p.wire.net
      → send_extend m p ≡ (ok true, record p { wire = extended p.server.succ_server_addr m p.wire })
  unfolding send_extend send_msg_tcp prepare_msg ◌>>=◌
  send_extend_lem m p o =
      rw (o.addresses p.server.succ_server_addr.ip, o.streams p.wire.attempts) refl

  no_crash : (p : Process A) → p.server.fail_scenario ≡ no_failure → if_server_crash p ≡ (ok tt, p)
  unfolding if_server_crash crashes
  no_crash p f = rw f refl

  send_and_count_lem :
      (m : ExtendMsg A) (p : Process A)
      → IsOpen p.wire.net
      → p.server.fail_scenario ≡ no_failure
      → send_and_count m p ≡ (ok true, counted (m ∷ []) p)
  unfolding send_and_count ◌>>=◌
  send_and_count_lem m p o f = rw (send_extend_lem m p o, no_crash (counted (m ∷ []) p) f) refl

  send_each_lem :
      (ms : List (ExtendMsg A)) (p : Process A)
      → IsOpen p.wire.net
      → p.server.fail_scenario ≡ no_failure
      → send_each ms p ≡ (ok true, counted ms p)
  unfolding send_each ◌>>=◌
  send_each_lem [] p o f = refl
  send_each_lem (m ∷ ms) p o f =
      rw (send_and_count_lem m p o f) (send_each_lem ms (counted (m ∷ []) p) o f)

  send_history_lem :
      (p : Process A)
      → IsOpen p.wire.net
      → p.server.fail_scenario ≡ no_failure
      → send_history (copy_accounts (accounts p.server)) (copy_requests p.server.processed_map) p
        ≡ (ok true, counted (history_messages p.server) p)
  unfolding send_history ◌>>=◌
  send_history_lem p o f =
      rw (send_and_count_lem first p o f, send_each_lem middle (counted (first ∷ []) p) o f)
        (send_each_lem last (counted middle (counted (first ∷ []) p))
            (all_extended-IsOpen _ middle _ o) f
          ∙ ap (λ q. (ok true, q)) (counted-append middle last (counted (first ∷ []) p)))
    where
      first : ExtendMsg A
      first = start_message p.server.local_addr

      middle : List (ExtendMsg A)
      middle = map account_message (copy_accounts (accounts p.server))

      last : List (ExtendMsg A)
      last = map history_message (copy_requests p.server.processed_map)

  -- The tail's part once everything has gone out.
  abbrev pub handed_over : ChainServer A → ChainServer A
  handed_over s = record s { extending_chain = false; finish_sending_hist = false; istail = false }

  hand_over_tail_lem :
      (p : Process A)
      → IsOpen p.wire.net
      → p.server.fail_scenario ≡ no_failure
      → hand_over_tail p ≡ (
        ok tt,
        record (counted (map sent_message p.server.sent_list) p) {
          server = handed_over p.server;
          wire =
              extended p.server.succ_server_addr (extend_message fin) (
                all_extended p.server.succ_server_addr
                  (map sent_message p.server.sent_list)
                  p.wire);
        },
      )
  unfolding hand_over_tail ◌>>=◌
  hand_over_tail_lem p o f =
      rw
        (
          send_each_lem (map sent_message p.server.sent_list) p o f,
          send_extend_lem (extend_message fin) (counted (map sent_message p.server.sent_list) p)
              (all_extended-IsOpen _ (map sent_message p.server.sent_list) _ o),
        )
        refl

  -- On a network on which every TCP send goes through, the thread of a tail without an injected
  -- crash returns. It has sent the server that joins the history, then each waiting request, then
  -- the message that it is finished, in this order and nothing else, and the server is no longer a
  -- tail that extends the chain. The rest of the server is as before.
  pub send_req_to_extend_server_lem :
      (p : Process A)
      → IsOpen p.wire.net
      → p.server.fail_scenario ≡ no_failure
      → let r = send_req_to_extend_server p in
        (r.0 ≡ ok tt)
        × (r.1.server ≡ handed_over p.server)
        × (r.1.wire
            ≡ all_extended p.server.succ_server_addr
                (history_messages p.server
                  ++ (map sent_message p.server.sent_list ++ extend_message fin ∷ []))
                p.wire)
  unfolding send_req_to_extend_server ◌>>=◌
  send_req_to_extend_server_lem p o f =
      rw
        (
          send_history_lem p o f,
          hand_over_tail_lem finished (all_extended-IsOpen _ (history_messages p.server) _ o) f,
        )
        (
          refl,
          refl,
          sym (
              all_extended-append _ (history_messages p.server) (rest ++ extend_message fin ∷ [])
                p.wire
              ∙ all_extended-append _ rest (extend_message fin ∷ []) _),
        )
    where
      rest : List (ExtendMsg A)
      rest = map sent_message p.server.sent_list

      finished : Process A
      finished = record (counted (history_messages p.server) p) {
        server = record p.server { finish_sending_hist = true };
      }
