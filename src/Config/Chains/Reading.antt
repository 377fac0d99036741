-- ===== src/Config/Chains/Reading.antt =====
-- read_config_master of src-cpp/master/master.cc on a described configuration.
use chain_replication.Base.{
  ℕ, suc, String, none, ◌≡◌, refl, ap, ◌∙◌, List, [], ◌∷◌, length, arith, pos,
}
use chain_replication.Base.Map.{Map, find}
use chain_replication.Base.Map.Apart.{adds, Apart, Once, Apart-first, Apart-next, insert_cons}
use chain_replication.Exec.{ok, ◌>>=◌}
use chain_replication.Proto.{Address}
use chain_replication.Master.Chain.{BankServerChain}
use chain_replication.Master.State.{MasterProcess, add_bank, add_client}
use chain_replication.Config.{Json, string_at, int_at, address_at, fold_each}
use chain_replication.Config.Keys
use chain_replication.Exec.Rules.{bind_ok}
use chain_replication.Config.Arrays.{IsArray, fold_list, fold_each_lem}
use chain_replication.Config.Described.{
  BankEntry, servers, chain_of, chains, IsAddress, NumberedFrom, IsBank, AreBanks, AreClients,
}
use chain_replication.Config.Chains.Initial.{appended, read_servers, read_servers_lem}
use chain_replication.Config.Chains.{
  empty_chain, append_server, read_server, read_chain, read_client_addr,
}

module _ {A : Type 0} where
  abbrev pub with_chains : MasterProcess A → Map BankServerChain → MasterProcess A
  with_chains p m = record p { master = record p.master { bank_server_chain = m } }

  abbrev pub with_clients : MasterProcess A → Map Address → MasterProcess A
  with_clients p m = record p { master = record p.master { client_list = m } }

module _ {A : Type 0} (json : Json A) where
  module _ {S : Type 0} where
    pub address_at_lem :
        (v : json.Value) (a : Address) (s : S)
        → IsAddress json v a
        → address_at json v s ≡ (ok a, s)
    unfolding address_at ◌>>=◌
    address_at_lem v a s h = rw h.ip (rw h.port)

    read_server_lem :
        (size n : ℕ) (v : json.Value) (a : Address) (b : BankServerChain) (s : S)
        → IsAddress json v a
        → int_at json Keys.chainno v ≡ ok (pos n)
        → read_server json size v b s ≡ (ok (append_server size a (pos n) b), s)
    unfolding read_server ◌>>=◌
    read_server_lem size n v a b s h k = rw (address_at_lem v a s h) (rw k)

    servers_lem :
        (size n : ℕ) (vs : List json.Value) (more : List Address) (b : BankServerChain) (s : S)
        → NumberedFrom json n vs more
        → fold_list vs (read_server json size) b s ≡ (ok (appended size n more b), s)
    unfolding fold_list read_server ◌>>=◌
    servers_lem size n [] [] b s h = refl
    servers_lem size n [] (a ∷ more) b s h = absurd h
    servers_lem size n (v ∷ vs) [] b s h = absurd h
    servers_lem size n (v ∷ vs) (a ∷ more) b s h =
        bind_ok (read_server json size v b) (λ x. fold_list vs (read_server json size) x)
          (read_server_lem size n v a b s h.0 h.1)
        ∙ servers_lem size (suc n) vs more (append_server size a (pos n) b) s h.2

  add_bank_lem :
      (k : String) (b : BankServerChain) (p : MasterProcess A)
      → find k p.master.bank_server_chain ≡ none
      → add_bank k b p ≡ (ok tt, with_chains p ((k, b) ∷ p.master.bank_server_chain))
  unfolding add_bank ◌>>=◌
  add_bank_lem k b p h = rw (insert_cons k b p.master.bank_server_chain h)

  add_client_lem :
      (k : String) (a : Address) (p : MasterProcess A)
      → find k p.master.client_list ≡ none
      → add_client k a p ≡ (ok tt, with_clients p ((k, a) ∷ p.master.client_list))
  unfolding add_client ◌>>=◌
  add_client_lem k a p h = rw (insert_cons k a p.master.client_list h)

  pub numbered_length :
      (n : ℕ) (vs : List json.Value) (more : List Address)
      → NumberedFrom json n vs more
      → length vs ≡ length more
  numbered_length n [] [] h = refl
  numbered_length n [] (a ∷ more) h = absurd h
  numbered_length n (v ∷ vs) [] h = absurd h
  numbered_length n (v ∷ vs) (a ∷ more) h = omega (arith, numbered_length (suc n) vs more h.2)

  server_list_lem :
      {S : Type 0} {v : json.Value} (e : BankEntry) (h : IsBank json v e) (s : S)
      → fold_each json h.list (read_server json (json.size h.list)) (empty_chain e.bank_id) s
        ≡ (ok (read_servers e), s)
  server_list_lem e h s =
      ap (λ k. k s)
        (fold_each_lem json (read_server json (json.size h.list)) h.list h.values
          (empty_chain e.bank_id) h.array)
      ∙ servers_lem (json.size h.list) 1 h.values (servers e) (empty_chain e.bank_id) s h.numbered
      ∙ ap (λ n. (ok (appended n 1 (servers e) (empty_chain e.bank_id)), s))
          (h.array.size ∙ numbered_length 1 h.values (servers e) h.numbered)

  read_chain_lem :
      (v : json.Value) (e : BankEntry) (p : MasterProcess A)
      → IsBank json v e
      → find e.bank_id p.master.bank_server_chain ≡ none
      → read_chain json v p
        ≡ (ok tt, with_chains p ((e.bank_id, chain_of e) ∷ p.master.bank_server_chain))
  unfolding read_chain ◌>>=◌
  read_chain_lem v e p h fresh = rw h.bank_id (
      rw h.list_here (
        rw (server_list_lem e h p)
          (rw (read_servers_lem e) (add_bank_lem e.bank_id (chain_of e) p fresh))))

  read_chains_lem :
      (vs : List json.Value) (es : List BankEntry) (p : MasterProcess A)
      → AreBanks json vs es
      → Once (chains es)
      → Apart (chains es) p.master.bank_server_chain
      → fold_list vs (λ v _. read_chain json v) tt p
        ≡ (ok tt, with_chains p (adds (chains es) p.master.bank_server_chain))
  unfolding fold_list adds
  read_chains_lem [] [] p h o a = refl
  read_chains_lem [] (e ∷ es) p h o a = absurd h
  read_chains_lem (v ∷ vs) [] p h o a = absurd h
  read_chains_lem (v ∷ vs) (e ∷ es) p h o a =
      bind_ok (read_chain json v) (λ _. fold_list vs (λ v _. read_chain json v) tt)
        (read_chain_lem v e p h.0
          (Apart-first e.bank_id (chain_of e) (chains es) p.master.bank_server_chain a))
      ∙ read_chains_lem vs es _ h.1 o.1
          (Apart-next e.bank_id (chain_of e) (chains es) p.master.bank_server_chain o.0 a)

  read_client_addr_lem :
      (v : json.Value) (k : String) (a : Address) (p : MasterProcess A)
      → IsAddress json v a
      → string_at json Keys.clientid v ≡ ok k
      → find k p.master.client_list ≡ none
      → read_client_addr json v p ≡ (ok tt, with_clients p ((k, a) ∷ p.master.client_list))
  unfolding read_client_addr ◌>>=◌
  read_client_addr_lem v k a p h i fresh =
      rw (address_at_lem v a p h) (rw i (add_client_lem k a p fresh))

  read_client_addrs_lem :
      (vs : List json.Value) (m : Map Address) (p : MasterProcess A)
      → AreClients json vs m
      → Once m
      → Apart m p.master.client_list
      → fold_list vs (λ v _. read_client_addr json v) tt p
        ≡ (ok tt, with_clients p (adds m p.master.client_list))
  unfolding fold_list adds
  read_client_addrs_lem [] [] p h o a = refl
  read_client_addrs_lem [] (e ∷ es) p h o a = absurd h
  read_client_addrs_lem (v ∷ vs) [] p h o a = absurd h
  read_client_addrs_lem (v ∷ vs) ((k, c) ∷ m) p h o a =
      bind_ok (read_client_addr json v) (λ _. fold_list vs (λ v _. read_client_addr json v) tt)
        (read_client_addr_lem v k c p h.0 h.1 (Apart-first k c m p.master.client_list a))
      ∙ read_client_addrs_lem vs m _ h.2 o.1 (Apart-next k c m p.master.client_list o.0 a)

  -- The two loops, as the reader runs them.
  pub each_chain_lem :
      {v : json.Value} (vs : List json.Value) (es : List BankEntry) (p : MasterProcess A)
      → IsArray json v vs
      → AreBanks json vs es
      → Once (chains es)
      → Apart (chains es) p.master.bank_server_chain
      → fold_each json v (λ bank_json _. read_chain json bank_json) tt p
        ≡ (ok tt, with_chains p (adds (chains es) p.master.bank_server_chain))
  each_chain_lem vs es p arr h o a =
      ap (λ k. k p) (fold_each_lem json (λ bank_json _. read_chain json bank_json) _ vs tt arr)
      ∙ read_chains_lem vs es p h o a

  pub each_client_lem :
      {v : json.Value} (vs : List json.Value) (m : Map Address) (p : MasterProcess A)
      → IsArray json v vs
      → AreClients json vs m
      → Once m
      → Apart m p.master.client_list
      → fold_each json v (λ client_json _. read_client_addr json client_json) tt p
        ≡ (ok tt, with_clients p (adds m p.master.client_list))
  each_client_lem vs m p arr h o a =
      ap (λ k. k p)
        (fold_each_lem json (λ client_json _. read_client_addr json client_json) _ vs tt arr)
      ∙ read_client_addrs_lem vs m p h o a
