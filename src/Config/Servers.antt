-- ===== src/Config/Servers.antt =====
-- read_config_server of src-cpp/server/server.cc: the object of a server from the bank and the
-- number given on its command line.
pub mod Search
pub mod Place
pub mod Neighbours
pub mod Start
pub mod Unknown
pub mod Heads
pub mod Behaviour
pub mod Empty
use chain_replication.Base.{
  ℕ, zero, suc, ◌+◌, ◌%◌, ℤ, pos, negsuc, int_eq, pred, succ, String, str_eq, false, not, ◌&&◌,
  Option, none, some, [], if◌then◌else◌,
}
use chain_replication.Base.Map.{insert}
use chain_replication.Exec.{Exec, pure, modify, done, require, expect, ◌>>=◌, ◌>>◌}
use chain_replication.Proto.{Address}
use chain_replication.Server.State.{
  FailScenario, no_failure, fail_after_send, fail_after_recv, fail_after_send_in_extend,
  fail_after_recv_in_extend, fail_after_interval_fail, ChainServer, Process, asks, updates,
}
use chain_replication.Config.{Json, call, string_at, int_at, address_at, fold_each, load}
use chain_replication.Config.Decimal.{atoi}
use chain_replication.Config.Keys

-- The chain of `if`s over the word, which leaves the field as it is for any other word. Its last
-- test repeats the fourth.
unfoldable pub scenario_of : String → Option FailScenario
scenario_of word =
    if str_eq word Keys.no_failure
    then some no_failure
    else if str_eq word Keys.fail_after_send
    then some fail_after_send
    else if str_eq word Keys.fail_after_recv
    then some fail_after_recv
    else if str_eq word Keys.fail_after_send_in_extend
    then some fail_after_send_in_extend
    else if str_eq word Keys.fail_after_recv_in_extend
    then some fail_after_recv_in_extend
    else if str_eq word Keys.fail_after_interval_fail
    then some fail_after_interval_fail
    else if str_eq word Keys.fail_after_send_in_extend
    then some fail_after_send_in_extend
    else none

abbrev pub set_scenario : {A : Type 0} → Option FailScenario → ChainServer A → ChainServer A
set_scenario none s = s
set_scenario (some f) s = record s { fail_scenario = f }

module _ {A : Type 0} (json : Json A) where
  -- The loop of the two functions below over the elements of a list, from index `i` on.
  unfoldable pub server_from : {S : Type 0} → ℕ → ℕ → json.Value → ℤ → Exec S (Option json.Value)
  unfolding ◌>>=◌
  server_from zero i list chainno = pure none
  server_from (suc n) i list chainno = do
    server_json ← call (json.at i list)
    number ← call (int_at json Keys.chainno server_json)
    let rest = server_from n (suc i) list chainno
    if int_eq number chainno then pure (some server_json) else rest

  -- `none` is the result `false`, in which the server found is not set.
  unfoldable pub get_alive_server_json_with_chainno :
      {S : Type 0} → json.Value → ℤ → Exec S (Option json.Value)
  unfolding server_from
  get_alive_server_json_with_chainno server_list_json chainno =
      server_from (json.size server_list_json) 0 server_list_json chainno

  unfoldable pub get_server_json_with_chainno :
      {S : Type 0} → json.Value → json.Value → ℤ → Exec S (Option json.Value)
  unfolding ◌>>=◌ server_from
  get_server_json_with_chainno server_list_json extend_server_list_json chainno = do
    alive ← server_from (json.size server_list_json) 0 server_list_json chainno
    elim alive [
      | some server_json ↦ pure (some server_json)
      | none ↦ server_from (json.size extend_server_list_json) 0 extend_server_list_json chainno
    ]

  -- A round of the loop that collects the heads.
  unfoldable pub read_bank_head : json.Value → Exec (Process A) (Unit {0})
  unfolding ◌>>=◌
  read_bank_head bank_json = do
    server_list_json ← call (json.get Keys.servers bank_json)
    first ← call (json.at 0 server_list_json)
    head_addr ← address_at json first
    bank_id ← call (string_at json Keys.bankid bank_json)
    it_head ← asks (λ s. insert bank_id head_addr s.bank_head_list)
    updates (λ s. record s { bank_head_list = it_head.0 })
    require it_head.1

  -- The number at which the server fails. `random` is what `rand()` gives.
  unfoldable pub read_fail_seq : ℕ → json.Value → Exec (Process A) ℤ
  unfolding ◌>>=◌
  read_fail_seq random server_json = do
    set ← call (json.is_member Keys.fail_seq server_json)
    if not set then pure (negsuc 0) else (do
      fail_seq ← call (string_at json Keys.fail_seq server_json)
      pure (if str_eq fail_seq Keys.random then pos (random % 7 + 2) else atoi fail_seq))

  unfoldable pub read_send_delay : json.Value → Exec (Process A) ℤ
  unfolding ◌>>=◌
  read_send_delay root = do
    config_json ← call (json.get Keys.config root)
    set ← call (json.is_member Keys.extend_send_delay config_json)
    if not set then pure (pos 0) else call (int_at json Keys.extend_send_delay config_json)

  -- The delays, the interval and the failure to inject.
  unfoldable pub read_behaviour : ℕ → json.Value → json.Value → Exec (Process A) (Unit {0})
  unfolding ◌>>=◌
  read_behaviour random root server_json = do
    start_delay ← call (int_at json Keys.start_delay server_json)
    updates (λ s. record s { start_delay = start_delay })
    config_json ← call (json.get Keys.config root)
    interval ← call (int_at json Keys.server_report_interval config_json)
    modify (λ p. record p { heartbeat_interval = interval })
    extend_send_delay ← read_send_delay root
    updates (λ s. record s { extend_send_delay = extend_send_delay })
    fail_scenario ← call (string_at json Keys.fail_scenario server_json)
    updates (set_scenario (scenario_of fail_scenario))
    fail_seq ← read_fail_seq random server_json
    updates (λ s. record s { fail_seq = fail_seq; internal_crashing = false })

  -- The address of the server of a number in the list, which is asserted to be there.
  unfoldable pub neighbour : json.Value → ℤ → Exec (Process A) Address
  unfolding ◌>>=◌
  neighbour server_list_json chainno = do
    found ← get_alive_server_json_with_chainno server_list_json chainno
    server_json ← expect found
    address_at json server_json

  -- The first and the last number have no neighbour on one side, and a server that joins later has
  -- none yet.
  unfoldable pub read_pre_server : json.Value → ℤ → Exec (Process A) (Unit {0})
  unfolding ◌>>=◌
  read_pre_server server_list_json chainno = do
    wanted ← asks (λ s. not s.ishead && int_eq s.start_delay (pos 0))
    if wanted
        then (do
          pre_server ← neighbour server_list_json (pred chainno)
          updates (λ s. record s { pre_server_addr = pre_server }))
        else done

  unfoldable pub read_succ_server : json.Value → ℤ → Exec (Process A) (Unit {0})
  unfolding ◌>>=◌
  read_succ_server server_list_json chainno = do
    wanted ← asks (λ s. not s.istail && int_eq s.start_delay (pos 0))
    if wanted
        then (do
          succ_server ← neighbour server_list_json (succ chainno)
          updates (λ s. record s { succ_server_addr = succ_server }))
        else done

  -- Where the server stands in the chain.
  unfoldable pub read_place : json.Value → json.Value → ℤ → Exec (Process A) (Unit {0})
  unfolding ◌>>=◌
  read_place server_list_json server_json chainno = do
    updates (λ s. record s {
      ishead = int_eq chainno (pos 1);
      istail = int_eq chainno (pos (json.size server_list_json));
    })
    local_addr ← address_at json server_json
    updates (λ s. record s { local_addr = local_addr })
    read_pre_server server_list_json chainno
    read_succ_server server_list_json chainno

  -- A round of the loop over the banks at the bank that is asked for.
  unfoldable pub read_own_bank : ℕ → json.Value → json.Value → String → ℤ → Exec (Process A) ℕ
  unfolding ◌>>=◌
  read_own_bank random root bank_json bankid chainno = do
    server_list_json ← call (json.get Keys.servers bank_json)
    extend_server_list_json ← call (json.get Keys.extend_servers bank_json)
    found ← get_server_json_with_chainno server_list_json extend_server_list_json chainno
    elim found [
      | none ↦ pure 1
      | some server_json ↦ (do
        updates (λ s. record s {
          bank_id = bankid;
          bank = record { bankid = bankid; account_map = [] };
        })
        read_behaviour random root server_json
        master_json ← call (json.get Keys.master root)
        master_addr ← address_at json master_json
        modify (λ p. record p { master_addr = master_addr })
        read_place server_list_json server_json chainno
        pure 0)
    ]

  -- The loop over the banks, from index `i` on: it ends at the bank that is asked for, and with 1
  -- where there is none.
  unfoldable pub own_bank_from :
      ℕ → ℕ → ℕ → json.Value → json.Value → String → ℤ → Exec (Process A) ℕ
  unfolding ◌>>=◌
  own_bank_from zero i random root bank_list_json bankid chainno = pure 1
  own_bank_from (suc n) i random root bank_list_json bankid chainno = do
    bank_json ← call (json.at i bank_list_json)
    id ← call (string_at json Keys.bankid bank_json)
    let rest = own_bank_from n (suc i) random root bank_list_json bankid chainno
    if str_eq id bankid then read_own_bank random root bank_json bankid chainno else rest

  -- The result is the one that `main` gets: 1 is a file that does not open or does not parse, an
  -- unknown bank or an unknown number.
  unfoldable pub read_config_server : ℕ → String → String → ℤ → Exec (Process A) ℕ
  unfolding ◌>>=◌
  read_config_server random dir bankid chainno = elim (load json dir) [
    | none ↦ pure 1
    | some root ↦ (do
      bank_list_json ← call (json.get Keys.banks root)
      fold_each json bank_list_json (λ bank_json _. read_bank_head bank_json) tt
      own_bank_from (json.size bank_list_json) 0 random root bank_list_json bankid chainno)
  ]
