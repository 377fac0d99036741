-- ===== src/Tests/Configurations.antt =====
-- The readers of the configuration at a small configuration.
use chain_replication.Base.{
  ℕ, pos, int_eq, ◌≡◌, refl, inl, negsuc, false, some, List, [], ◌∷◌, All, get_elem?,
}
use chain_replication.Base.Map.{find}
use chain_replication.Base.Map.Apart.{Once}
use chain_replication.Exec.{ok}
use chain_replication.Proto.{default_address, addr_eq}
use chain_replication.Server.State.{Process, no_failure}
use chain_replication.Master.State.{MasterProcess}
use chain_replication.Config.{load}
use chain_replication.Config.Described.{Describes, IsAddress, IsBank, BankEntry, chains, IsNamed}
use chain_replication.Config.Chains.{read_config_master}
use chain_replication.Config.Servers.{read_config_server, scenario_of}
use chain_replication.Config.Servers.Behaviour.{Behaviour}
use chain_replication.Config.Servers.Neighbours.{IsPlaced}
use chain_replication.Config.Servers.Start.{Chosen}
use chain_replication.Config.Agreement.{ChainOf, configurations_agree}
use chain_replication.Tests.Data.{local, silent_wire, process_at, server_at}
use chain_replication.Tests.Json.{
  Value, Fields, null, array, cons, nil, end, json_of, root_with, bank_1, bank_2, small,
  server_json, bank_json, list_1, list_2, bank_list, client_json, config_json, place,
}

abbrev pub root : Value
root = root_with end

loads : load (json_of root) "config.json" ≡ some root
unfolding load
loads = refl

abbrev pub servers_1 : List Value
servers_1 = server_json 50001 1 ∷ server_json 50002 2 ∷ server_json 50003 3 ∷ []

abbrev pub banks_json : List Value
banks_json = bank_json "bank1" list_1 ∷ bank_json "bank2" list_2 ∷ []

abbrev pub server-IsAddress :
    (r : Value) (n k : ℕ) → IsAddress (json_of r) (server_json n k) (local n)
server-IsAddress r n k = record { ip = refl; port = refl }

abbrev pub bank_1-IsBank : (r : Value) → IsBank (json_of r) (bank_json "bank1" list_1) bank_1
bank_1-IsBank r = record {
  list = list_1;
  values = servers_1;
  bank_id = refl;
  list_here = refl;
  array = record { size = refl; elements = (refl, (refl, (refl, tt))) };
  numbered = (
    server-IsAddress r 50001 1,
    refl,
    (server-IsAddress r 50002 2, refl, (server-IsAddress r 50003 3, refl, tt)),
  );
}

abbrev pub bank_2-IsBank : (r : Value) → IsBank (json_of r) (bank_json "bank2" list_2) bank_2
bank_2-IsBank r = record {
  list = list_2;
  values = server_json 50011 1 ∷ [];
  bank_id = refl;
  list_here = refl;
  array = record { size = refl; elements = (refl, tt) };
  numbered = (server-IsAddress r 50011 1, refl, tt);
}

abbrev pub small-Describes : (fs : Fields) → Describes (json_of (root_with fs)) (root_with fs) small
small-Describes fs = record {
  config = config_json;
  config_here = refl;
  report_interval = refl;
  fail_timeout = refl;
  master = place 50000 end;
  master_here = refl;
  master_addr = record { ip = refl; port = refl };
  bank_list = bank_list;
  bank_values = banks_json;
  banks_here = refl;
  bank_array = record { size = refl; elements = (refl, (refl, tt)) };
  banks = (bank_1-IsBank (root_with fs), (bank_2-IsBank (root_with fs), tt));
  client_list = array (cons (client_json fs) nil);
  client_values = client_json fs ∷ [];
  clients_here = refl;
  client_array = record { size = refl; elements = (refl, tt) };
  clients = (record { ip = refl; port = refl }, refl, tt);
}

abbrev usual : Behaviour
usual = record { interval = pos 5; send_delay = pos 0; scenario = no_failure; fail_seq = negsuc 0 }

second_server-Chosen : Chosen (json_of root) 0 root 0 1 usual
unfolding scenario_of
second_server-Chosen = record {
  bank_list = bank_list;
  bank = bank_json "bank1" list_1;
  server_list = list_1;
  extend_list = null;
  server = server_json 50002 2;
  banks_here = refl;
  bank_here = refl;
  servers_here = refl;
  extend_here = refl;
  server_here = refl;
  behaves = record {
    at_once = refl;
    word = "none";
    word_here = refl;
    scenario = refl;
    config = config_json;
    config_here = refl;
    interval = refl;
    send_delay = inl (refl, refl);
    fail_seq = inl (refl, refl);
  };
}

abbrev pub new_master : MasterProcess ℕ
new_master = record {
  master = record { addr = default_address; bank_server_chain = []; client_list = [] };
  wire = silent_wire;
  check_alive_interval = pos 0;
  crash_timeout = pos 0;
  now = 0;
}

abbrev pub new_server : Process ℕ
new_server = record (process_at false false) {
  server = record (server_at false false) { bank_head_list = [] };
}

pub ids-Once : Once (chains small.banks)
unfolding find
ids-Once = (refl, (refl, tt))

pub clients-Once : Once small.clients
unfolding find
clients-Once = (refl, tt)

pub banks-IsNamed : All IsNamed small.banks
unfolding addr_eq int_eq
banks-IsNamed = (((refl, (refl, (refl, tt))), refl), (((refl, tt), refl), tt))

configurations_agree_example :
    (n : MasterProcess ℕ) × (q : Process ℕ) × (read_config_master
        (json_of root)
        "config.json"
        new_master
      ≡ (ok 0, n))
    × (read_config_server (json_of root) 0 "config.json" "bank1" (pos 2) new_server ≡ (ok 0, q))
    × (q.master_addr ≡ n.master.addr)
    × ChainOf n bank_1 (λ c. IsPlaced c (local 50002) q.server)
    × ((i : ℕ) (d : BankEntry)
        → get_elem? small.banks i ≡ some d
        → ChainOf n d (λ c. find d.bank_id q.server.bank_head_list ≡ some c.head))
configurations_agree_example =
    configurations_agree (json_of root) 0 "config.json" root small 0 1 bank_1 (local 50002) usual
      new_master new_server loads (small-Describes end) ids-Once clients-Once banks-IsNamed refl
      refl second_server-Chosen (record { no_banks = refl; no_clients = refl }) refl
