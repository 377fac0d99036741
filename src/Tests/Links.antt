-- ===== src/Tests/Links.antt =====
-- The theorems on neighbours of a chain, at a deposit and a withdrawal.
use chain_replication.Proto.Float.{whole}
use chain_replication.Base.{ℕ, ◌≡◌, refl, List, [], ◌∷◌, true, false, arith}
use chain_replication.Exec.{ok, aborted, for_each}
use chain_replication.Proto.{Request, deposit, withdraw}
use chain_replication.Server.Update.{receive_request}
use chain_replication.Server.Reconfigure.Resend.{all_sent}
use chain_replication.Server.Link.{Replicas}
use chain_replication.Server.Link.Replication.{IsLink, all_forwarded, receive_request-Replicas}
use chain_replication.Server.Link.Order.{receive_request_resent, receive_request_gap}
use chain_replication.Tests.Data.{deposit_1, request_for, process_at}

abbrev pub two_updates : List (Request ℕ)
two_updates = deposit_1 ∷ request_for "bank1.client1.2" withdraw 0 70 ∷ []

head_and_next : IsLink (process_at true false) (process_at false false)
head_and_next = record {
  head = refl;
  not_tail = refl;
  not_head_next = refl;
  not_tail_next = refl;
  sound = refl;
  sound_next = refl;
  lossless = record { addresses = λ ip. refl; streams = λ n. refl };
  lossless_next = record { addresses = λ ip. refl; streams = λ n. refl };
  replicas = record {
    same_accounts = refl;
    same_history = refl;
    same_sent = refl;
    same_seq = refl;
  };
}

receive_request-Replicas_example :
    let p = process_at true false in
    let head = for_each two_updates receive_request p in
    let next = for_each (all_forwarded two_updates p) receive_request (process_at false false) in
    (head.0 ≡ ok tt)
    × (next.0 ≡ ok tt)
    × (head.1.wire ≡ all_sent p.server.succ_server_addr (all_forwarded two_updates p) p.wire)
    × Replicas head.1.server next.1.server
receive_request-Replicas_example =
    receive_request-Replicas two_updates (process_at true false) (process_at false false)
      head_and_next (refl, (refl, tt)) (omega arith)

receive_request_resent_example :
    let q = (receive_request deposit_1 (process_at false false)).1 in
    for_each (deposit_1 ∷ request_for "bank1.client1.0" withdraw 0 70 ∷ []) receive_request q
    ≡ (ok tt, q)
receive_request_resent_example =
    receive_request_resent deposit_1 (deposit_1 ∷ request_for "bank1.client1.0" withdraw 0 70 ∷ [])
      (process_at false false) refl refl refl (omega arith)
      ((refl, omega arith), ((refl, omega arith), tt))

receive_request_gap_example :
    receive_request (request_for "bank1.client1.2" deposit 2 100) (process_at false true)
    ≡ (aborted, process_at false true)
receive_request_gap_example =
    receive_request_gap (request_for "bank1.client1.2" deposit 2 100) (process_at false true) refl
      refl (omega arith) (omega arith)
