-- ===== src/Tests/Ledgers.antt =====
-- The theorems on accounts and on the history, at concrete requests.
use chain_replication.Proto.Float.{whole}
use chain_replication.Base.{◌≡◌, refl, true, false, str_eq, if◌then◌else◌}
use chain_replication.Base.Map.{find, assign}
use chain_replication.Proto.{withdraw}
use chain_replication.Server.Accounts.{update_balance, get_or_create_account}
use chain_replication.Server.Accounts.Balances.{balance_at, applied, balance_at-update_balance}
use chain_replication.Server.Update.{receive_request}
use chain_replication.Server.Update.Effect.{request_effect, receive_request-Effect}
use chain_replication.Tests.Data.{deposit_1, request_for, process_at, one_account}

balance_at-update_balance_example :
    balance_at "account1"
      (update_balance (request_for "bank1.client1.2" withdraw 2 70) one_account).0
    ≡ (if str_eq "account1" "account1"
        then applied
            (request_for "bank1.client1.2" withdraw 2 70)
            (balance_at "account1" one_account)
        else balance_at "account1" one_account)
balance_at-update_balance_example =
    balance_at-update_balance "account1" (request_for "bank1.client1.2" withdraw 2 70) one_account

takes_70 :
    balance_at "account1"
      (update_balance (request_for "bank1.client1.2" withdraw 2 70) one_account).0
    ≡ 30
unfolding balance_at update_balance get_or_create_account find assign
takes_70 = refl

receive_request-Effect_example :
    (receive_request deposit_1 (process_at true false)).1.server
    ≡ request_effect deposit_1 (process_at true false).server
receive_request-Effect_example = receive_request-Effect deposit_1 (process_at true false)
