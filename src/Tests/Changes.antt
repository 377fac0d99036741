-- ===== src/Tests/Changes.antt =====
-- The theorems on a change of the chain, at a head that waits for a deposit and a transfer.
use chain_replication.Proto.Float.{whole}
use chain_replication.Base.{
  ℕ, String, ◌≡◌, refl, Bool, true, false, some, List, [], ◌∷◌, map, keep, All, is_some, ltb, arith,
}
use chain_replication.Base.Map.{find}
use chain_replication.Exec.{ok, aborted}
use chain_replication.Proto.{Request, transfer, Notify, Reqseq}
use chain_replication.Server.State.{Process}
use chain_replication.Server.Accounts.Balances.{balance_at}
use chain_replication.Server.Send.{transfer_to_request}
use chain_replication.Server.Reconfigure.{to_be_tail, receive_new_succserver, handle_new_head}
use chain_replication.Server.Reconfigure.Resend.{IsOpen, all_sent, receive_new_succserver_lem}
use chain_replication.Server.Extend.NewHead.{handle_new_head_aborts}
use chain_replication.Server.Extend.{receive_extend_server}
use chain_replication.Server.Update.{receive_request}
use chain_replication.Server.Reconfigure.NewHead.{for_bank, told, handle_new_head_lem}
use chain_replication.Server.Validity.{IsValid}
use chain_replication.Server.Validity.Acks.{IsRecorded}
use chain_replication.Server.Validity.Promotion.{waits, to_be_tail_lem}
use chain_replication.Server.Validity.Promotion.Invariant.{to_be_tail-IsValid}
use chain_replication.Tests.Data.{local, open_net, request_for, process_at, deposit_1}

-- A transfer of client 1 to an account of bank 2.
abbrev transfer_2 : Request ℕ
transfer_2 = record (request_for "bank1.client1.2" transfer 2 40) {
  dest_bank_id = "bank2";
  dest_account_id = "account2";
}

abbrev waiting : Bool → List (Request ℕ) → Process ℕ
waiting istail l = record (process_at false istail) {
  server = record (process_at false istail).server { bank_update_seq = 2; sent_list = l };
}

abbrev before_tail : Process ℕ
before_tail = waiting false (deposit_1 ∷ transfer_2 ∷ [])

abbrev at_tail : Process ℕ
at_tail = waiting true (transfer_2 ∷ [])

open_net-IsOpen : IsOpen open_net
open_net-IsOpen = record { addresses = λ ip. refl; streams = λ n. refl }

before_tail-IsValid : IsValid before_tail.server
unfolding balance_at find
before_tail-IsValid = record {
  ordered = (omega arith, (omega arith, omega arith));
  covered = λ j. refl;
  accounts_keyed = tt;
  history_keyed = tt;
  tail_waits = λ e _. cc;
}

at_tail-IsValid : IsValid at_tail.server
unfolding balance_at find
at_tail-IsValid = record {
  ordered = (omega arith, omega arith);
  covered = λ j. refl;
  accounts_keyed = tt;
  history_keyed = tt;
  tail_waits = λ _ _. (refl, tt);
}

to_be_tail_lem_example :
    let s = before_tail.server in
    let t = (to_be_tail before_tail).1.server in
    (t.sent_list ≡ keep waits s.sent_list)
    × All (λ x. waits x ≡ false → IsRecorded t x) s.sent_list
    × ((k : String)
        → is_some (find k s.processed_map) ≡ true
        → find k t.processed_map ≡ find k s.processed_map)
    × (t ≡ record s { istail = true; processed_map = t.processed_map; sent_list = t.sent_list })
to_be_tail_lem_example = to_be_tail_lem before_tail

to_be_tail-IsValid_example : IsValid (to_be_tail before_tail).1.server
to_be_tail-IsValid_example = to_be_tail-IsValid before_tail before_tail-IsValid

-- The server behind the crashed one has the first request.
abbrev has_first : Reqseq
has_first = record {
  bank_update_seq = 1;
  bank_id = "bank1";
  pre_addr = local 50001;
  succ_addr = local 50003;
}

receive_new_succserver_lem_example : receive_new_succserver has_first before_tail ≡ (
  ok tt,
  record before_tail {
    server = record before_tail.server {
      succ_server_addr = local 50003;
      internal_crashing = false;
    };
    wire =
        all_sent
          (local 50003)
          (keep (λ x. ltb 1 x.bank_update_seq) before_tail.server.sent_list)
          before_tail.wire;
  },
)
receive_new_succserver_lem_example =
    receive_new_succserver_lem has_first before_tail open_net-IsOpen refl

abbrev second_head : Notify
second_head = record { bank_id = "bank2"; server_addr = local 50004 }

knows_bank :
    (p : Process ℕ)
    → p.server.bank_head_list ≡ ("bank2", local 50003) ∷ []
    → find "bank2" p.server.bank_head_list ≡ some (local 50003)
unfolding find
knows_bank p h = rw h refl

handle_new_head_lem_example : handle_new_head second_head at_tail ≡ (
  ok tt,
  record (told second_head at_tail) {
    wire =
        all_sent
          (local 50004)
          (map
            (transfer_to_request at_tail.server.local_addr)
            (keep (for_bank "bank2") at_tail.server.sent_list))
          at_tail.wire;
  },
)
handle_new_head_lem_example =
    handle_new_head_lem second_head (local 50003) at_tail at_tail-IsValid refl refl refl
      (knows_bank at_tail refl) open_net-IsOpen

handle_new_head_aborts_example :
    let q =
      (receive_request deposit_1
        (receive_extend_server (local 50004) (process_at false true)).1).1 in
    handle_new_head second_head q ≡ (aborted, told second_head q)
handle_new_head_aborts_example =
    handle_new_head_aborts (local 50004) deposit_1 second_head (local 50003) (process_at false true)
      refl refl refl (λ b. (refl, omega arith)) (knows_bank (process_at false true) refl)
