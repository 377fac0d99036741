-- ===== src/Tests/Data.antt =====
-- The data of the tests: a bank with two accounts, and a network on which every send succeeds.
use chain_replication.Proto.Float.{whole}
use chain_replication.Base.{ℕ, String, pos, negsuc, Bool, true, false, [], ◌∷◌}
use chain_replication.Proto.{
  Address, Request, RequestType, deposit, Reply, ReplyOutcome, CheckRequest,
}
use chain_replication.Wire.{Net, Wire, Delivery}
use chain_replication.Base.Map.{Map}
use chain_replication.Server.State.{Account, ChainServer, Process, no_failure}

abbrev pub local : ℕ → Address
local n = record { ip = "127.0.0.1"; port = pos n }

abbrev pub open_net : Net ℕ
open_net = record {
  is_address = λ _. true;
  tcp = λ _. Delivery.written;
  udp = λ _. Delivery.written;
  byte_size = λ _. 100;
}

abbrev pub silent_wire : Wire ℕ
silent_wire = record {
  net = open_net;
  attempts = 0;
  packets = [];
  send_msg_seq = 0;
  rec_msg_seq = 0;
}

abbrev pub no_reply : Reply ℕ
no_reply = record { req_id = ""; outcome = ReplyOutcome.processed; account_id = ""; balance = 0 }

-- A request of client 1 to bank 1.
abbrev pub request_for : String → RequestType → ℕ → ℕ → Request ℕ
request_for id t n amount = record {
  req_id = id;
  type = t;
  client_addr = local 60001;
  bank_update_seq = n;
  account_id = "account1";
  bank_id = "bank1";
  amount = amount;
  dest_bank_id = "";
  dest_account_id = "";
  reply = no_reply;
  check_result = CheckRequest.inconsistent;
}

abbrev pub deposit_1 : Request ℕ
deposit_1 = request_for "bank1.client1.1" deposit 1 100

abbrev pub server_at : Bool → Bool → ChainServer ℕ
server_at ishead istail = record {
  bank_id = "bank1";
  bank = record { bankid = "bank1"; account_map = [] };
  ishead = ishead;
  istail = istail;
  extending_chain = false;
  finish_sending_hist = false;
  internal_crashing = false;
  start_delay = pos 0;
  extend_send_delay = pos 0;
  fail_scenario = no_failure;
  fail_seq = negsuc 0;
  processed_map = [];
  sent_list = [];
  bank_update_seq = 0;
  local_addr = local 50001;
  pre_server_addr = local 50000;
  succ_server_addr = local 50002;
  bank_head_list = ("bank2", local 50003) ∷ [];
}

abbrev pub process_at : Bool → Bool → Process ℕ
process_at ishead istail = record {
  server = server_at ishead istail;
  wire = silent_wire;
  master_addr = local 50000;
  heartbeat_interval = pos 5;
  send_req_seq_extend = 0;
  extend_threads = 0;
}

-- A head that has taken one deposit and waits for its acknowledgement.
abbrev pub waiting_head : Process ℕ
waiting_head = record (process_at true false) {
  server = record (server_at true false) { bank_update_seq = 1; sent_list = deposit_1 ∷ [] };
}

abbrev pub one_account : Map (Account ℕ)
one_account = ("account1", record { accountid = "account1"; balance = 100 }) ∷ []
