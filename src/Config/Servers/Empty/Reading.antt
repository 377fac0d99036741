-- ===== src/Config/Servers/Empty/Reading.antt =====
-- read_config_server of src-cpp/server/server.cc puts nothing into the accounts, the history and the
-- sent list, however it ends.
use chain_replication.Base.{ℕ, zero, suc, ℤ, int_eq, String, str_eq, refl, Option, none, some, []}
use chain_replication.Exec.{Exec, pure, modify, ◌>>=◌, ◌>>◌}
use chain_replication.Server.State.{FailScenario, Process, updates}
use chain_replication.Config.Keys
use chain_replication.Config.{Json, int_at, string_at, call, address_at, fold_from, fold_each, load}
use chain_replication.Config.Servers.{
  set_scenario, server_from, get_alive_server_json_with_chainno, get_server_json_with_chainno,
  read_bank_head, read_fail_seq, read_send_delay, read_behaviour, neighbour, read_pre_server,
  read_succ_server, read_place, read_own_bank, own_bank_from, read_config_server,
}
use chain_replication.Config.Servers.Empty.{
  IsBare, bare_rules, Bare-bind, Bare-if, Bare-call, Bare-pure, Bare-expect,
}

module _ {A : Type 0} (json : Json A) where
  address_at-IsBare : (v : json.Value) → IsBare {A = A} (address_at json v)
  unfolding address_at
  address_at-IsBare v = search bare_rules depth 8

  server_from-IsBare :
      (n i : ℕ) (l : json.Value) (chainno : ℤ) → IsBare {A = A} (server_from json n i l chainno)
  unfolding server_from
  server_from-IsBare zero i l chainno = search bare_rules
  server_from-IsBare (suc n) i l chainno =
      Bare-bind (call (json.at i l)) _ (Bare-call (json.at i l)) (λ x.
        Bare-bind (call (int_at json Keys.chainno x)) _ (Bare-call (int_at json Keys.chainno x))
          (λ k.
            Bare-if (int_eq k chainno) _ _ (Bare-pure (some x))
              (server_from-IsBare n (suc i) l chainno)))

  read_bank_head-IsBare : (v : json.Value) → IsBare {A = A} (read_bank_head json v)
  unfolding read_bank_head
  read_bank_head-IsBare v = search (bare_rules, address_at-IsBare) depth 16

  found-IsBare :
      (l m : json.Value) (chainno : ℤ)
      → IsBare {A = A} (get_server_json_with_chainno json l m chainno)
  unfolding get_server_json_with_chainno
  found-IsBare l m chainno = Bare-bind _ _ (server_from-IsBare (json.size l) 0 l chainno) go
    where
      go :
          (o : Option json.Value)
          → IsBare {A = A} (elim o [
            | some server_json ↦ pure (some server_json)
            | none ↦ server_from json (json.size m) 0 m chainno
          ])
      go (some x) = Bare-pure (some x)
      go none = server_from-IsBare (json.size m) 0 m chainno

  neighbour-IsBare : (l : json.Value) (chainno : ℤ) → IsBare {A = A} (neighbour json l chainno)
  unfolding neighbour get_alive_server_json_with_chainno
  neighbour-IsBare l chainno =
      Bare-bind _ _ (server_from-IsBare (json.size l) 0 l chainno)
        (λ o. Bare-bind _ _ (Bare-expect o) (λ x. address_at-IsBare x))

  scenario-IsBare : (o : Option FailScenario) → IsBare {A = A} (updates (set_scenario o))
  scenario-IsBare none = record { at = λ p v. v }
  scenario-IsBare (some x) = record { at = λ p v. v }

  read_fail_seq-IsBare : (n : ℕ) (v : json.Value) → IsBare {A = A} (read_fail_seq json n v)
  unfolding read_fail_seq
  read_fail_seq-IsBare n v = search bare_rules depth 10

  read_send_delay-IsBare : (v : json.Value) → IsBare {A = A} (read_send_delay json v)
  unfolding read_send_delay
  read_send_delay-IsBare v = search bare_rules depth 10

  read_behaviour-IsBare :
      (n : ℕ) (root v : json.Value) → IsBare {A = A} (read_behaviour json n root v)
  unfolding read_behaviour
  read_behaviour-IsBare n root v =
      search (bare_rules, read_send_delay-IsBare, read_fail_seq-IsBare, scenario-IsBare) depth 24

  read_pre_server-IsBare :
      (l : json.Value) (chainno : ℤ) → IsBare {A = A} (read_pre_server json l chainno)
  unfolding read_pre_server
  read_pre_server-IsBare l chainno = search (bare_rules, neighbour-IsBare) depth 12

  read_succ_server-IsBare :
      (l : json.Value) (chainno : ℤ) → IsBare {A = A} (read_succ_server json l chainno)
  unfolding read_succ_server
  read_succ_server-IsBare l chainno = search (bare_rules, neighbour-IsBare) depth 12

  read_place-IsBare :
      (l v : json.Value) (chainno : ℤ) → IsBare {A = A} (read_place json l v chainno)
  unfolding read_place
  read_place-IsBare l v chainno =
      search (bare_rules, address_at-IsBare, read_pre_server-IsBare, read_succ_server-IsBare) depth
        16

  -- `read_own_bank` once it has looked for the server.
  abbrev found_server :
      ℕ → json.Value → json.Value → String → ℤ → Option json.Value → Exec (Process A) ℕ
  found_server random root l bankid chainno none = pure 1
  found_server random root l bankid chainno (some server_json) = do
    updates
        (λ s. record s { bank_id = bankid; bank = record { bankid = bankid; account_map = [] } })
    read_behaviour json random root server_json
    master_json ← call (json.get Keys.master root)
    master_addr ← address_at json master_json
    modify (λ p. record p { master_addr = master_addr })
    read_place json l server_json chainno
    pure 0

  found_server-IsBare :
      (random : ℕ) (root l : json.Value) (bankid : String) (chainno : ℤ) (o : Option json.Value)
      → IsBare {A = A} (found_server random root l bankid chainno o)
  found_server-IsBare random root l bankid chainno none = Bare-pure 1
  found_server-IsBare random root l bankid chainno (some x) =
      Bare-bind
        (updates
          (λ s. record s { bank_id = bankid; bank = record { bankid = bankid; account_map = [] } }))
        _ (record { at = λ p v. (refl, v.1, v.2, v.3) })
        (λ _.
          search (bare_rules, read_behaviour-IsBare, address_at-IsBare, read_place-IsBare) depth 20)

  read_own_bank-IsBare :
      (n : ℕ) (root v : json.Value) (bankid : String) (chainno : ℤ)
      → IsBare {A = A} (read_own_bank json n root v bankid chainno)
  unfolding read_own_bank
  read_own_bank-IsBare n root v bankid chainno =
      Bare-bind (call (json.get Keys.servers v)) _ (Bare-call (json.get Keys.servers v)) (λ l.
        Bare-bind (call (json.get Keys.extend_servers v)) _
          (Bare-call (json.get Keys.extend_servers v))
          (λ m.
            Bare-bind (get_server_json_with_chainno json l m chainno)
              (found_server n root l bankid chainno) (found-IsBare l m chainno)
              (found_server-IsBare n root l bankid chainno)))

  own_bank_from-IsBare :
      (n i random : ℕ) (root l : json.Value) (bankid : String) (chainno : ℤ)
      → IsBare {A = A} (own_bank_from json n i random root l bankid chainno)
  unfolding own_bank_from
  own_bank_from-IsBare zero i random root l bankid chainno = Bare-pure 1
  own_bank_from-IsBare (suc n) i random root l bankid chainno =
      Bare-bind (call (json.at i l)) _ (Bare-call (json.at i l)) (λ x.
        Bare-bind (call (string_at json Keys.bankid x)) _ (Bare-call (string_at json Keys.bankid x))
          (λ k.
            Bare-if (str_eq k bankid) _ _ (read_own_bank-IsBare random root x bankid chainno)
              (own_bank_from-IsBare n (suc i) random root l bankid chainno)))

  heads-IsBare :
      (n i : ℕ) (l : json.Value)
      → IsBare {A = A} (fold_from json n i l (λ bank_json _. read_bank_head json bank_json) tt)
  unfolding fold_from
  heads-IsBare zero i l = Bare-pure tt
  heads-IsBare (suc n) i l = Bare-bind (call (json.at i l)) _ (Bare-call (json.at i l)) (λ x.
      Bare-bind (read_bank_head json x) _ (read_bank_head-IsBare x) (λ _. heads-IsBare n (suc i) l))

  -- Whatever the file holds, and whether or not the reading comes to an end.
  pub read_config_server-IsBare :
      (random : ℕ) (dir bankid : String) (chainno : ℤ)
      → IsBare {A = A} (read_config_server json random dir bankid chainno)
  unfolding read_config_server fold_each
  read_config_server-IsBare random dir bankid chainno =
      elim (load json dir)
        as (λ o. IsBare {A = A} {Q = ℕ} (elim o [
          | none ↦ pure 1
          | some root ↦ (do
            bank_list_json ← call (json.get Keys.banks root)
            fold_each json bank_list_json (λ bank_json _. read_bank_head json bank_json) tt
            own_bank_from json (json.size bank_list_json) 0 random root bank_list_json bankid
                chainno)
        ])) [
          | none ↦ Bare-pure 1
          | some root ↦
              Bare-bind (call (json.get Keys.banks root)) _ (Bare-call (json.get Keys.banks root))
                (λ l.
                  Bare-bind (fold_each json l (λ bank_json _. read_bank_head json bank_json) tt) _
                    (heads-IsBare (json.size l) 0 l)
                    (λ _. own_bank_from-IsBare (json.size l) 0 random root l bankid chainno))
        ]
