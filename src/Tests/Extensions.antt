-- ===== src/Tests/Extensions.antt =====
-- The theorems on the extension of a chain, at a tail with one account and one processed deposit.
use chain_replication.Proto.Float.{whole}
use chain_replication.Base.{ℕ, String, ◌≡◌, refl, [], ◌∷◌, ◌++◌, map, true, false}
use chain_replication.Base.Map.{find}
use chain_replication.Base.Map.Keyed.{IsKeyed}
use chain_replication.Exec.{ok, for_each}
use chain_replication.Proto.{fin}
use chain_replication.Server.State.{ChainServer, Process, accounts}
use chain_replication.Server.History.{history_key}
use chain_replication.Server.Extend.{
  copy_requests, extend_message, sent_message, receive_extend_msg, send_req_to_extend_server,
}
use chain_replication.Server.Extend.Replay.{latest, history_messages, receive_extend_msg_lem}
use chain_replication.Server.Extend.Handover.{
  all_extended, handed_over, send_req_to_extend_server_lem,
}
use chain_replication.Server.Reconfigure.Resend.{IsOpen}
use chain_replication.Server.Validity.Ledger.{AccountsKeyed}
use chain_replication.Tests.Data.{deposit_1, process_at, open_net, one_account}

abbrev known_tail : ChainServer ℕ
known_tail = record (process_at false true).server {
  bank = record (process_at false true).server.bank { account_map = one_account };
  processed_map = ("bank1.client1.1_account1", deposit_1) ∷ [];
  bank_update_seq = 1;
}

one_account-Keyed : AccountsKeyed (accounts known_tail)
unfolding find
one_account-Keyed = (refl, refl, tt)

one_deposit-Keyed : IsKeyed history_key known_tail.processed_map
unfolding find history_key
one_deposit-Keyed = (refl, refl, tt)

receive_extend_msg_lem_example :
    let r = for_each (history_messages known_tail) receive_extend_msg (process_at false false) in
    let t = r.1.server in
    (r.0 ≡ ok tt)
    × ((k : String) → find k (accounts t) ≡ find k (accounts known_tail))
    × ((k : String) → find k t.processed_map ≡ find k known_tail.processed_map)
    × (t.bank_update_seq ≡ latest 0 (copy_requests known_tail.processed_map))
    × (t.pre_server_addr ≡ known_tail.local_addr)
    × (r.1.wire ≡ (process_at false false).wire)
receive_extend_msg_lem_example =
    receive_extend_msg_lem known_tail (process_at false false) one_account-Keyed one_deposit-Keyed

-- It extends the chain, and a deposit came in meanwhile.
abbrev extending : Process ℕ
extending = record (process_at false true) {
  server = record known_tail { extending_chain = true; sent_list = deposit_1 ∷ [] };
}

open_net-IsOpen : IsOpen open_net
open_net-IsOpen = record { addresses = λ ip. refl; streams = λ n. refl }

send_req_to_extend_server_lem_example :
    let r = send_req_to_extend_server extending in
    (r.0 ≡ ok tt)
    × (r.1.server ≡ handed_over extending.server)
    × (r.1.wire
        ≡ all_extended extending.server.succ_server_addr
            (history_messages extending.server
              ++ (map sent_message extending.server.sent_list ++ extend_message fin ∷ []))
            extending.wire)
send_req_to_extend_server_lem_example = send_req_to_extend_server_lem extending open_net-IsOpen refl
