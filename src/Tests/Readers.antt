-- ===== src/Tests/Readers.antt =====
-- The readers of the configuration at other concrete files: clients with requests, random requests,
-- and what the file does not name.
use chain_replication.Proto.Float.{whole}
use chain_replication.Base.{
  ℕ, pos, ℤ, ◌≡◌, ◌≤◌, ◌<◌, ◌+◌, refl, true, none, some, List, [], ◌∷◌, ◌++◌, All, length, arith,
}
use chain_replication.Base.Map.{find}
use chain_replication.Base.Map.Apart.{adds}
use chain_replication.Exec.{ok, aborted}
use chain_replication.Proto.{Request, deposit}
use chain_replication.Master.State.{MasterProcess}
use chain_replication.Config.{load}
use chain_replication.Config.Described.{chains}
use chain_replication.Config.Chains.{read_config_master}
use chain_replication.Config.Servers.{read_config_server, get_server_json_with_chainno}
use chain_replication.Config.Servers.Heads.{heads}
use chain_replication.Config.Servers.Search.{first_with, get_server_json_with_chainno_lem}
use chain_replication.Config.Servers.Unknown.{read_config_server_unknown}
use chain_replication.Config.Seeds.{Setup, read_random_requests}
use chain_replication.Config.Clients.{type_of, read_config_client, read_drop_interval}
use chain_replication.Config.Clients.Draws.{
  DropsAtRandom, read_drop_interval_lem, read_drop_interval_two,
}
use chain_replication.Config.Clients.Random.{
  Seed, IsPossible, HasIds, IsSeed, GeneratedFrom, DistinctIds, read_random_requests_lem,
}
use chain_replication.Config.Clients.Requests.{RequestEntry}
use chain_replication.Config.Clients.Start.{ClientEntry, AreClientEntries, DropsBy, clients_of}
use chain_replication.Config.Agreement.{KnowsEnds, clients_agree}
use chain_replication.Tests.Data.{local}
use chain_replication.Tests.Json.{
  Value, Fields, flag, number, text, array, object, cons, nil, end, field, json_of, root_with,
  small, server_json, bank_json, list_1, list_2, bank_list, client_json, config_json,
}
use chain_replication.Tests.Configurations.{
  small-Describes, ids-Once, clients-Once, banks-IsNamed, new_master, new_server,
}

-- A deposit to the first bank.
abbrev request_json : Value
request_json = object (
    field "bankid" (text "bank1") (
      field "accountid" (text "account1") (
        field "seq" (number (pos 1))
          (field "type" (text "DEPOSIT") (field "amount" (number (pos 100)) end)))))

abbrev one_request : Fields
one_request = field "waittimeout" (number (pos 5)) (
    field "resendnum" (number (pos 3))
      (field "resend_newhead" (flag true) (field "requests" (array (cons request_json nil)) end)))

abbrev root : Value
root = root_with one_request

loads : load (json_of root) "config.json" ≡ some root
unfolding load
loads = refl

abbrev deposit_entry : RequestEntry ℕ
deposit_entry = record {
  bank_id = "bank1";
  account_id = "account1";
  seq = pos 1;
  amount = 100;
  type = deposit;
  dest_bank_id = "";
  dest_account_id = "";
}

abbrev client_entry : ClientEntry ℕ
client_entry = record {
  clientid = "client1";
  addr = local 60001;
  wait_timeout = pos 5;
  resend_num = pos 3;
  resend_newhead = true;
  requests = deposit_entry ∷ [];
}

entries : AreClientEntries (json_of root) (client_json one_request ∷ []) (client_entry ∷ [])
unfolding type_of
entries = (
  record {
    clientid = refl;
    addr = record { ip = refl; port = refl };
    wait_timeout = refl;
    resend_num = refl;
    resend_newhead = refl;
    not_seeded = refl;
    list = array (cons request_json nil);
    values = request_json ∷ [];
    list_here = refl;
    array = record { size = refl; elements = (refl, tt) };
    requests = (
      record {
        bank_id = refl;
        account_id = refl;
        seq = refl;
        amount = refl;
        word = "DEPOSIT";
        word_here = refl;
        type = refl;
        dest_bank_id = refl;
        dest_account_id = refl;
      },
      tt,
    );
  },
  tt,
)

three-DropsBy : DropsBy (json_of root) root "3"
three-DropsBy = record { config = config_json; config_here = refl; word_here = refl; number = refl }

abbrev no_clients : Setup ℕ
no_clients = record { client_vector = []; drawn = 0 }

abbrev counting : ℕ → ℕ
counting n = n

clients_agree_example :
    (n : MasterProcess ℕ) × (u : Setup ℕ) × (read_config_master
        (json_of root)
        "config.json"
        new_master
      ≡ (ok 0, n))
    × (read_config_client (json_of root) counting counting "config.json" no_clients ≡ (ok 0, u))
    × (u.client_vector ≡ clients_of small.banks "3" (client_entry ∷ []))
    × All (KnowsEnds small.banks n) u.client_vector
clients_agree_example =
    clients_agree (json_of root) counting counting "config.json" root small "3" (client_entry ∷ [])
      new_master no_clients loads (small-Describes one_request) ids-Once clients-Once banks-IsNamed
      three-DropsBy entries (record { no_banks = refl; no_clients = refl }) refl

-- Ten requests, of which half are queries.
abbrev seed_json : Value
seed_json = object (
    field "reqnum" (number (pos 10)) (
      field "accountnum" (number (pos 2)) (
        field "maxamount" (number (pos 50)) (
          field "probquery" (number (pos 5))
            (field "probdeposit" (number (pos 3)) (field "probwithdraw" (number (pos 2)) end))))))

abbrev seed : Seed
seed = record { accounts = 2; max_amount = 50; prob_query = 5; prob_deposit = 3; prob_withdraw = 2 }

abbrev two_banks : HasIds counting counting (json_of root) bank_list ("bank1" ∷ "bank2" ∷ [])
two_banks = record {
  values = bank_json "bank1" list_1 ∷ bank_json "bank2" list_2 ∷ [];
  array = record { size = refl; elements = (refl, (refl, tt)) };
  here = (refl, (refl, tt));
}

seed_json-IsSeed : IsSeed counting counting (json_of root) seed_json 10 seed
seed_json-IsSeed = record {
  number = refl;
  accounts = refl;
  max_amount = refl;
  prob_query = refl;
  prob_deposit = refl;
  prob_withdraw = refl;
}

seed-IsPossible : IsPossible seed
seed-IsPossible = record {
  some_account = omega arith;
  deposits = omega arith;
  withdrawals = omega arith;
}

read_random_requests_lem_example :
    (rs : List (Request ℕ)) × (t : Setup ℕ) × (read_random_requests counting counting
        (json_of root)
        "client1"
        bank_list
        seed_json
        no_clients
      ≡ (ok rs, t))
    × (length rs ≡ 10)
    × GeneratedFrom counting ("bank1" ∷ "bank2" ∷ []) "client1" seed 0 rs
    × DistinctIds counting rs
read_random_requests_lem_example =
    read_random_requests_lem counting counting (json_of root) bank_list seed_json
      ("bank1" ∷ "bank2" ∷ []) "client1" seed 10 no_clients two_banks (omega arith) seed-IsPossible
      seed_json-IsSeed

abbrev random_drops : Value
random_drops = object (field "config" (object (field "udp_drop_interval" (text "random") end)) end)

at_random : DropsAtRandom (json_of root) counting counting random_drops
at_random = record {
  config = object (field "udp_drop_interval" (text "random") end);
  config_here = refl;
  word_here = refl;
}

read_drop_interval_lem_example :
    (d : ℕ) × (read_drop_interval (json_of root) counting counting random_drops 10 no_clients
      ≡ (ok (pos d), record no_clients { drawn = 0 + 1 }))
    × (2 ≤ d)
    × (d < 10)
read_drop_interval_lem_example =
    read_drop_interval_lem (json_of root) counting counting random_drops 10 no_clients at_random
      (omega arith) (omega arith)

read_drop_interval_two_example :
    (read_drop_interval (json_of root) counting counting random_drops 2 no_clients).0 ≡ aborted
read_drop_interval_two_example =
    read_drop_interval_two (json_of root) counting counting random_drops no_clients at_random

-- The second server of the chain, and one that joins later.
abbrev two_servers : List (ℤ × Value)
two_servers = (pos 1, server_json 50001 1) ∷ (pos 2, server_json 50002 2) ∷ []

abbrev joining_server : List (ℤ × Value)
joining_server = (pos 3, server_json 50003 3) ∷ []

get_server_json_with_chainno_lem_example :
    get_server_json_with_chainno
      (json_of root)
      (array (cons (server_json 50001 1) (cons (server_json 50002 2) nil)))
      (array (cons (server_json 50003 3) nil))
      (pos 3)
      new_server
    ≡ (ok (first_with (pos 3) (two_servers ++ joining_server)), new_server)
get_server_json_with_chainno_lem_example =
    get_server_json_with_chainno_lem (json_of root) two_servers joining_server (pos 3) new_server
      (record { size = refl; elements = (refl, (refl, tt)) })
      (record { size = refl; elements = (refl, tt) }) (refl, (refl, tt)) (refl, tt)

nowhere : find "bank9" (chains small.banks) ≡ none
unfolding find
nowhere = refl

read_config_server_unknown_example :
    read_config_server (json_of root) 0 "config.json" "bank9" (pos 1) new_server ≡ (
      ok 1,
      record new_server {
        server = record new_server.server { bank_head_list = adds (heads small.banks) [] };
      },
    )
read_config_server_unknown_example =
    read_config_server_unknown (json_of root) 0 "config.json" root small "bank9" (pos 1) new_server
      loads (small-Describes one_request) ids-Once nowhere refl
