-- ===== src/Server/History/Reuse.antt =====
-- `check_update_request` of src-cpp/server/server.cc at a request that reuses the id of another one: the
-- loop over `sent_list_` compares the ids alone.
use chain_replication.Proto.{Request}
use chain_replication.Proto.Float.{FloatOps}
use chain_replication.Server.State.{ChainServer}
use chain_replication.Server.History.{insert_processed_list, pop_sent_list}

module _ {A : Type 0} ⦃f : FloatOps A⦄ where
  -- The server once the first waiting request is acknowledged.
  abbrev pub acknowledged : Request A → ChainServer A → ChainServer A
  acknowledged old s = pop_sent_list (insert_processed_list old s)
