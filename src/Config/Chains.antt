-- ===== src/Config/Chains.antt =====
-- read_config_master of src-cpp/master/master.cc: the chains and the clients that the master starts
-- with.
pub mod Initial
pub mod Reading
pub mod Start
use chain_replication.Base.{ℕ, ℤ, pos, int_eq, String, none, some, [], if◌then◌else◌}
use chain_replication.Exec.{Exec, pure, modify, ◌>>=◌, ◌>>◌}
use chain_replication.Proto.{Address, default_address}
use chain_replication.Master.Chain.{BankServerChain, append_node}
use chain_replication.Master.State.{MasterProcess, add_bank, add_client}
use chain_replication.Config.{Json, call, string_at, int_at, address_at, fold_each, load}
use chain_replication.Config.Keys

-- `BankServerChain bsc; bsc.set_bank_id(bank_id);`
abbrev pub empty_chain : String → BankServerChain
empty_chain bank_id = record {
  bank_id = bank_id;
  head = default_address;
  tail = default_address;
  extending = default_address;
  server_chain = [];
}

-- A server of the list, of `size` servers, with its address and its number.
unfoldable pub append_server : ℕ → Address → ℤ → BankServerChain → BankServerChain
unfolding append_node
append_server size addr chainno b =
    let b' = append_node addr b in
    let b'' = if int_eq chainno (pos 1) then record b' { head = addr } else b' in
    if int_eq chainno (pos size) then record b'' { tail = addr } else b''

module _ {A : Type 0} (json : Json A) where
  -- A round of the loop over the servers of a bank.
  unfoldable pub read_server :
      {S : Type 0} → ℕ → json.Value → BankServerChain → Exec S BankServerChain
  unfolding ◌>>=◌ address_at
  read_server size server_json bsc = do
    addr ← address_at json server_json
    chainno ← call (int_at json Keys.chainno server_json)
    pure (append_server size addr chainno bsc)

  -- A round of the loop over the banks.
  unfoldable pub read_chain : json.Value → Exec (MasterProcess A) (Unit {0})
  unfolding ◌>>=◌ read_server fold_each add_bank
  read_chain bank_json = do
    bank_id ← call (string_at json Keys.bankid bank_json)
    server_list_json ← call (json.get Keys.servers bank_json)
    bsc ←
        fold_each json server_list_json (read_server (json.size server_list_json))
          (empty_chain bank_id)
    add_bank bank_id (record bsc { extending = default_address })

  -- A round of the loop over the clients.
  unfoldable pub read_client_addr : json.Value → Exec (MasterProcess A) (Unit {0})
  unfolding ◌>>=◌ address_at add_client
  read_client_addr client_json = do
    client_addr ← address_at json client_json
    client_id ← call (string_at json Keys.clientid client_json)
    add_client client_id client_addr

  unfoldable pub read_master : json.Value → Exec (MasterProcess A) ℕ
  unfolding ◌>>=◌ read_chain read_client_addr fold_each address_at
  read_master root = do
    config_json ← call (json.get Keys.config root)
    check_alive_interval ← call (int_at json Keys.server_report_interval config_json)
    modify (λ p. record p { check_alive_interval = check_alive_interval })
    crash_timeout ← call (int_at json Keys.server_fail_timeout config_json)
    modify (λ p. record p { crash_timeout = crash_timeout })
    master_json ← call (json.get Keys.master root)
    master_addr ← address_at json master_json
    modify (λ p. record p { master = record p.master { addr = master_addr } })
    bank_list_json ← call (json.get Keys.banks root)
    fold_each json bank_list_json (λ bank_json _. read_chain bank_json) tt
    client_list_json ← call (json.get Keys.clients root)
    fold_each json client_list_json (λ client_json _. read_client_addr client_json) tt
    pure 0

  -- The result is the one that `main` gets: 1 is a file that does not open or does not parse.
  unfoldable pub read_config_master : String → Exec (MasterProcess A) ℕ
  unfolding read_master
  read_config_master dir = elim (load json dir) [ none ↦ pure 1 | some root ↦ read_master root ]
