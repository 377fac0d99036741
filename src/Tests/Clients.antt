-- ===== src/Tests/Clients.antt =====
-- The theorems on a client, at a deposit that is answered after one resend.
use chain_replication.Base.{ℕ, ◌+◌, ◌≤◌, refl, pos, false, List, [], ◌∷◌, some}
use chain_replication.Proto.{reply_type}
use chain_replication.Proto.Prepare.{bare}
use chain_replication.Client.State.{ClientProcess}
use chain_replication.Client.Run.{Event, timeout, datagram, process_request}
use chain_replication.Client.Retries.{sends, process_request_lem}
use chain_replication.Client.Outcomes.{Outcome, process_request-Outcome}
use chain_replication.Tests.Data.{local, deposit_1, silent_wire, no_reply}

abbrev first_client : ClientProcess ℕ
first_client = record {
  client = record {
    ip = "127.0.0.1";
    port = pos 60001;
    clientid = "client1";
    wait_timeout = pos 5;
    resend_num = pos 2;
    resend_newhead = false;
    drop_interval = pos 0;
    recv_count = 0;
    bank_head_list = ("bank1", local 50001) ∷ [];
    bank_tail_list = ("bank1", local 50003) ∷ [];
    request_vector = deposit_1 ∷ [];
  };
  wire = silent_wire;
}

abbrev late_reply : List (Event ℕ)
late_reply =
    timeout
    ∷ datagram
        (record (bare reply_type) { reply = some (record no_reply { req_id = "bank1.client1.1" }) })
    ∷ []

process_request_lem_example :
    (process_request deposit_1 late_reply first_client).1.wire.attempts
    ≤ first_client.wire.attempts + sends (pos 2)
process_request_lem_example = process_request_lem deposit_1 late_reply first_client

process_request-Outcome_example :
    Outcome 2 deposit_1 late_reply (process_request deposit_1 late_reply first_client).0
process_request-Outcome_example = process_request-Outcome 2 deposit_1 late_reply first_client refl
