-- ===== src/Server/Link.antt =====
-- The servers of one chain in src-cpp/server/server.cc: a head, and the internal server or the tail that
-- receives what the head forwards.
pub mod Answers
pub mod Forward
pub mod Replication
pub mod Order
pub mod Round
pub mod Finish
pub mod AsOne
pub mod Balances
use chain_replication.Base.{◌≡◌}
use chain_replication.Server.State.{ChainServer, accounts}

-- Two servers that stand in a chain as replicas of one another.
pub record Replicas {A : Type 0} (s t : ChainServer A) : Type 0 where
  pub same_accounts : accounts t ≡ accounts s
  pub same_history : t.processed_map ≡ s.processed_map
  pub same_sent : t.sent_list ≡ s.sent_list
  pub same_seq : t.bank_update_seq ≡ s.bank_update_seq
