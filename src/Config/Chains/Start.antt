-- ===== src/Config/Chains/Start.antt =====
-- The state in which read_config_master of src-cpp/master/master.cc leaves the master: every bank
-- has a chain, in the sense of Master/Refinement.
use mathlib.Core.List.{append-nil}
use chain_replication.Base.{
  String, ◌≡◌, refl, sym, ap, subst, ◌∙◌, inl, false, some, List, [], ◌∷◌, map, All, All-map, arith,
  eq_iff,
}
use chain_replication.Base.Map.{Map, find, or_else}
use chain_replication.Base.Map.Apart.{adds, Once, find-adds-Once, nothing_yet, Apart, or_else_nil}
use chain_replication.Exec.{ok, ◌>>=◌}
use chain_replication.Proto.{Address, default_address}
use chain_replication.Master.Chain.{BankServerChain, new_node}
use chain_replication.Master.Chain.View.{addrs, member, Distinct}
use chain_replication.Master.State.{MasterProcess}
use chain_replication.Master.Refinement.{IsChain}
use chain_replication.Config.{Json, load}
use chain_replication.Config.Described.{
  BankEntry, servers, IsNamed, chain_of, chains, Setting, Describes,
}
use chain_replication.Config.Chains.{read_master, read_config_master}
use chain_replication.Config.Chains.Reading.{
  address_at_lem, with_chains, each_chain_lem, each_client_lem,
}

addrs-map : (xs : List Address) → addrs (map new_node xs) ≡ xs
addrs-map [] = refl
addrs-map (x ∷ xs) = ap (◌∷◌ x) (addrs-map xs)

chain_of-IsChain : (e : BankEntry) → IsNamed e → IsChain (chain_of e) e.first e.others []
chain_of-IsChain e h = record {
  servers = addrs-map (servers e) ∙ sym (append-nil (servers e));
  head_first = refl;
  tail_last = refl;
  extension = inl (refl, refl);
  distinct = subst Distinct (sym (append-nil (servers e))) h.0;
  named = subst (λ l. member default_address l ≡ false) (sym (append-nil (servers e))) h.1;
}

-- Each bank finds its own chain.
find-chains :
    (es : List BankEntry)
    → Once (chains es)
    → All (λ e. find e.bank_id (chains es) ≡ some (chain_of e)) es
unfolding find
find-chains [] o = tt
find-chains (d ∷ es) o = (
  ground (arith, eq_iff d.bank_id d.bank_id),
  All-map (λ e. find e.bank_id (chains es) ≡ some (chain_of e))
      (λ e. find e.bank_id (chains (d ∷ es)) ≡ some (chain_of e)) es
      (λ e f. ground (arith, eq_iff d.bank_id e.bank_id, f, o.0)) (find-chains es o.1),
)

found :
    (all es : List BankEntry) (m : Map BankServerChain)
    → ((k : String) → find k m ≡ find k (chains all))
    → All (λ e. find e.bank_id (chains all) ≡ some (chain_of e)) es
    → All IsNamed es
    → All
        (λ e. (b : BankServerChain) × (find e.bank_id m ≡ some b) × IsChain b e.first e.others [])
        es
found all [] m same f n = tt
found all (e ∷ es) m same f n =
    ((chain_of e, same e.bank_id ∙ f.0, chain_of-IsChain e n.0), found all es m same f.1 n.1)

module _ {A : Type 0} where
  -- A process that starts.
  pub record IsEmpty (p : MasterProcess A) : Type 0 where
    pub no_banks : p.master.bank_server_chain ≡ []
    pub no_clients : p.master.client_list ≡ []

  abbrev configured : Setting → MasterProcess A → MasterProcess A
  configured s p = record p {
    master = record {
      addr = s.master_addr;
      bank_server_chain = adds (chains s.banks) p.master.bank_server_chain;
      client_list = adds s.clients p.master.client_list;
    };
    check_alive_interval = s.report_interval;
    crash_timeout = s.fail_timeout;
  }

  pub record IsConfigured (s : Setting) (p : MasterProcess A) : Type 0 where
    pub addr : p.master.addr ≡ s.master_addr
    pub interval : p.check_alive_interval ≡ s.report_interval
    pub timeout : p.crash_timeout ≡ s.fail_timeout
    pub chains :
        All
          (λ e.
            (b : BankServerChain) × (find e.bank_id p.master.bank_server_chain ≡ some b)
            × IsChain b e.first e.others [])
          s.banks
    pub clients : (k : String) → find k p.master.client_list ≡ find k s.clients

module _ {A : Type 0} (json : Json A) where
  read_master_lem :
      (root : json.Value) (s : Setting) (p : MasterProcess A)
      → Describes json root s
      → Once (chains s.banks)
      → Once s.clients
      → Apart (chains s.banks) p.master.bank_server_chain
      → Apart s.clients p.master.client_list
      → read_master json root p ≡ (ok 0, configured s p)
  unfolding read_master ◌>>=◌
  read_master_lem root s p d ob oc ab ac =
      rw (d.config_here, d.report_interval, d.fail_timeout, d.master_here)
        (rw (address_at_lem json d.master s.master_addr set d.master_addr) (
          rw
            (
              d.banks_here,
              each_chain_lem json d.bank_values s.banks addressed d.bank_array d.banks ob ab,
            )
            (rw (
              d.clients_here,
              each_client_lem json d.client_values s.clients chained d.client_array d.clients oc ac,
            ))))
    where
      set : MasterProcess A
      set = record p { check_alive_interval = s.report_interval; crash_timeout = s.fail_timeout }

      addressed : MasterProcess A
      addressed = record set { master = record p.master { addr = s.master_addr } }

      chained : MasterProcess A
      chained = with_chains addressed (adds (chains s.banks) p.master.bank_server_chain)

  -- On a file that opens, parses and describes banks and clients with ids of their own, whose
  -- servers are told apart and numbered in order, a master that starts reads all of it without a
  -- failed assertion: each bank has the chain of its servers in order, with nobody joining, and
  -- each client its address.
  pub read_config_master_lem :
      (dir : String) (root : json.Value) (s : Setting) (p : MasterProcess A)
      → load json dir ≡ some root
      → Describes json root s
      → Once (chains s.banks)
      → Once s.clients
      → All IsNamed s.banks
      → IsEmpty p
      → (q : MasterProcess A) × (read_config_master json dir p ≡ (ok 0, q)) × IsConfigured s q
  unfolding read_config_master
  read_config_master_lem dir root s p here d ob oc named none_yet = (
    configured s p,
    rw (here, read_config_master) (read_master_lem root s p d ob oc ab ac),
    record {
      addr = refl;
      interval = refl;
      timeout = refl;
      chains =
          found s.banks s.banks _ (λ k. find-adds-Once k (chains s.banks) _ ob ab ∙ alone k)
            (find-chains s.banks ob) named;
      clients = λ k. find-adds-Once k s.clients p.master.client_list oc ac ∙ alone_c k;
    },
  )
    where
      ab : Apart (chains s.banks) p.master.bank_server_chain
      ab = subst (Apart (chains s.banks)) (sym none_yet.no_banks) (nothing_yet (chains s.banks))

      ac : Apart s.clients p.master.client_list
      ac = subst (Apart s.clients) (sym none_yet.no_clients) (nothing_yet s.clients)

      alone :
          (k : String)
          → or_else (find k p.master.bank_server_chain) (find k (chains s.banks))
            ≡ find k (chains s.banks)
      alone k = or_else_nil k p.master.bank_server_chain (chains s.banks) none_yet.no_banks

      alone_c :
          (k : String) → or_else (find k p.master.client_list) (find k s.clients) ≡ find k s.clients
      alone_c k = or_else_nil k p.master.client_list s.clients none_yet.no_clients
