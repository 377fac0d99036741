-- ===== src/Tests/Servers.antt =====
-- The theorems on a chain server at concrete data, and runs of its handlers.
use chain_replication.Base.{
  ℕ, String, All, is_some, str_eq, if◌then◌else◌, ◌≤◌, ◌≡◌, refl, Bool, true, [], none, arith,
  u32_inc, u32_dec, int_eq,
}
use chain_replication.Base.Map.{find, insert, assign}
use chain_replication.Exec.{Result, ◌>>=◌}
use chain_replication.Proto.{Request, CheckRequest}
use chain_replication.Proto.Float.{whole, whole-SignLaws}
use chain_replication.Proto.Prepare.{prepare_msg}
use chain_replication.Wire.{send_msg_tcp, send_msg_udp}
use chain_replication.Server.State.{Process, accounts, with_accounts}
use chain_replication.Server.Accounts.{get_balance, update_balance}
use chain_replication.Server.Accounts.Balances.{balance_at, applied, funded}
use chain_replication.Server.History.{
  new_reply, outcome_of, update_request_reply, settle, req_consistent, type_eq, history_key,
  insert_processed_list, insert_sent_list,
}
use chain_replication.Server.History.Verdict.{update_request_reply_new, recorded}
use chain_replication.Server.History.Once.{SameId, second, resubmit_processed}
use chain_replication.Server.Send.{
  forward_request, count_and_crash, if_server_crash, crashes, reply_to_client, send_reply,
}
use chain_replication.Server.Update.{
  receive_request, receive_update, receive_at, number_request, follow_request, head_handle_update,
  single_handle_update, finish_update, replies, receive_ack,
}
use chain_replication.Server.Validity.{IsValid}
use chain_replication.Server.Validity.Requests.{receive_request-IsValid}
use chain_replication.Server.Validity.Acks.{IsRecorded, receive_ack_lem}
use chain_replication.Server.Validity.Acks.Invariant.{receive_ack-IsValid}
use chain_replication.Tests.Data.{deposit_1, server_at, process_at, waiting_head}

-- `receive_request`, with all that it calls open.
run_request : Request ℕ → Process ℕ → Result (Unit {0}) × Process ℕ
unfolding receive_request receive_update receive_at number_request follow_request head_handle_update
    single_handle_update finish_update replies update_request_reply settle get_balance
    update_balance forward_request count_and_crash if_server_crash crashes reply_to_client
    send_reply send_msg_tcp send_msg_udp prepare_msg find insert assign insert_processed_list
    insert_sent_list history_key u32_inc u32_dec int_eq req_consistent type_eq ◌>>=◌
run_request = receive_request

after_deposit : (run_request deposit_1 (process_at true true)).1.server.bank_update_seq ≡ 1
unfolding run_request
after_deposit = refl

deposit_is_answered : (run_request deposit_1 (process_at true true)).1.wire.send_msg_seq ≡ 1
unfolding run_request
deposit_is_answered = refl

process_at-IsValid : (ishead istail : Bool) → IsValid (process_at ishead istail).server
unfolding balance_at find
process_at-IsValid ishead istail = record {
  ordered = omega arith;
  covered = λ j. refl;
  accounts_keyed = tt;
  history_keyed = tt;
  tail_waits = λ _ _. tt;
}

waiting_head-IsValid : IsValid waiting_head.server
unfolding balance_at find
waiting_head-IsValid = record {
  ordered = omega arith;
  covered = λ j. refl;
  accounts_keyed = tt;
  history_keyed = tt;
  tail_waits = λ e _. cc;
}

receive_request-IsValid_example :
    IsValid (receive_request deposit_1 (process_at true true)).1.server
receive_request-IsValid_example =
    receive_request-IsValid whole-SignLaws deposit_1 refl (process_at true true) (omega arith)
      (process_at-IsValid true true)

receive_ack-IsValid_example :
    IsValid (receive_ack (record { bank_update_seq = 1 }) waiting_head).1.server
receive_ack-IsValid_example =
    receive_ack-IsValid (record { bank_update_seq = 1 }) waiting_head waiting_head-IsValid

-- The same deposit, sent again by the client with another port.
abbrev deposit_again : Request ℕ
deposit_again = record deposit_1 { bank_update_seq = 2 }

same_deposit : SameId deposit_again deposit_1
same_deposit = record { same_req = refl; same_account = refl }

fresh_server : recorded deposit_1 (server_at true true) ≡ none
unfolding recorded find
fresh_server = refl

unseen_deposit : find (history_key deposit_1) (server_at true true).processed_map ≡ none
unfolding find
unseen_deposit = refl

resubmit_processed_example :
    let (s, req) = update_request_reply deposit_1 (server_at true true) in
    update_request_reply deposit_again (insert_processed_list req s) ≡ (
      insert_processed_list req s,
      second deposit_again req (balance_at "account1" (accounts (insert_processed_list req s))),
    )
resubmit_processed_example =
    resubmit_processed deposit_1 deposit_again (server_at true true) same_deposit fresh_server
      unseen_deposit

update_request_reply_new_example :
    let (s', req') = update_request_reply deposit_1 (server_at true true) in
    let before = balance_at "account1" (accounts (server_at true true)) in
    (s' ≡ with_accounts (server_at true true) (accounts s'))
    × ((j : String)
        → balance_at j (accounts s') ≡ (
            if str_eq "account1" j
            then applied deposit_1 (balance_at j (accounts (server_at true true)))
            else balance_at j (accounts (server_at true true))))
    × (req' ≡ record deposit_1 {
      check_result = CheckRequest.newreq;
      reply = record (new_reply deposit_1) {
        outcome = outcome_of (funded deposit_1 before);
        balance = applied deposit_1 before;
      };
    })
update_request_reply_new_example =
    update_request_reply_new deposit_1 (server_at true true) fresh_server

receive_ack_lem_example :
    let s = waiting_head.server in
    let t = (receive_ack (record { bank_update_seq = 1 }) waiting_head).1.server in
    (t.sent_list ≡ [])
    × All (λ x. x.bank_update_seq ≤ 1 → IsRecorded t x) s.sent_list
    × ((k : String)
        → is_some (find k s.processed_map) ≡ true
        → find k t.processed_map ≡ find k s.processed_map)
    × (t ≡ record s { processed_map = t.processed_map; sent_list = t.sent_list })
receive_ack_lem_example =
    receive_ack_lem (record { bank_update_seq = 1 }) waiting_head 1 (omega arith)
