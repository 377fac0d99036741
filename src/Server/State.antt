-- ===== src/Server/State.antt =====
-- The state of a server process: the object `cs` of server.h, with the globals of server.cc and the
-- sockets. The bank and its accounts are src-cpp/common/bank.h and account.h.
use chain_replication.Base.{ℕ, ℤ, String, Bool, List}
use chain_replication.Base.Map.{Map}
use chain_replication.Exec.{Exec, gets, modify}
use chain_replication.Proto.{Address, Request}
use chain_replication.Wire.{Wire}

pub record Account (A : Type 0) : Type 0 where
  pub accountid : String
  pub balance : A

pub record Bank (A : Type 0) : Type 0 where
  pub bankid : String
  pub account_map : Map (Account A)

pub data UpdateBalanceOutcome : Type 0 where
  success insufficient_funds : UpdateBalanceOutcome

pub data FailScenario : Type 0 where
  no_failure fail_after_send fail_after_recv fail_after_send_in_extend : FailScenario
  fail_after_recv_in_extend fail_after_interval_fail : FailScenario

pub record ChainServer (A : Type 0) : Type 0 where
  pub bank_id : String
  pub bank : Bank A
  pub ishead : Bool
  pub istail : Bool
  pub extending_chain : Bool
  pub finish_sending_hist : Bool
  pub internal_crashing : Bool
  pub start_delay : ℤ
  pub extend_send_delay : ℤ
  pub fail_scenario : FailScenario
  pub fail_seq : ℤ
  pub processed_map : Map (Request A)
  pub sent_list : List (Request A)
  pub bank_update_seq : ℕ
  pub local_addr : Address
  pub pre_server_addr : Address
  pub succ_server_addr : Address
  pub bank_head_list : Map Address

pub record Process (A : Type 0) : Type 0 where
  pub server : ChainServer A
  pub wire : Wire A
  pub master_addr : Address
  -- In seconds.
  pub heartbeat_interval : ℤ
  pub send_req_seq_extend : ℕ
  -- The detached threads that run `send_req_to_extend_server`.
  pub extend_threads : ℕ

module _ {A : Type 0} where
  -- Code of message.cc, run by the server.
  abbrev pub on_wire : {R : Type 0} → Exec (Wire A) R → Exec (Process A) R
  on_wire m p = let (r, w) = m p.wire in (r, record p { wire = w })

  -- A field of `*cs`, and an assignment to the object.
  abbrev pub asks : {R : Type 0} → (ChainServer A → R) → Exec (Process A) R
  asks f = gets (λ p. f p.server)

  abbrev pub updates : (ChainServer A → ChainServer A) → Exec (Process A) (Unit {0})
  updates f = modify (λ p. record p { server = f p.server })

  abbrev pub accounts : ChainServer A → Map (Account A)
  accounts s = s.bank.account_map

  abbrev pub with_accounts : ChainServer A → Map (Account A) → ChainServer A
  with_accounts s m = record s { bank = record s.bank { account_map = m } }
