-- ===== src/Tests/Reuse.antt =====
-- A request that reuses the id of a waiting deposit for another account.
use chain_replication.Proto.Float.{whole}
use chain_replication.Base.{ℕ, true, false, [], ◌∷◌}
use chain_replication.Base.Map.{Map}
use chain_replication.Proto.{Request}
use chain_replication.Server.State.{Account, ChainServer}
use chain_replication.Tests.Data.{deposit_1, server_at}

abbrev other_account : Request ℕ
other_account = record deposit_1 { account_id = "account2" }

abbrev two_accounts : Map (Account ℕ)
two_accounts =
    ("account2", record { accountid = "account2"; balance = 0 })
    ∷ ("account1", record { accountid = "account1"; balance = 100 })
    ∷ []

abbrev one_waiting : ChainServer ℕ
one_waiting = record (server_at true false) {
  bank = record { bankid = "bank1"; account_map = two_accounts };
  sent_list = deposit_1 ∷ [];
  bank_update_seq = 1;
}
