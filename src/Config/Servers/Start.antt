-- ===== src/Config/Servers/Start.antt =====
-- The state in which read_config_server of src-cpp/server/server.cc leaves a server of the chain
-- that runs from the start.
use chain_replication.Base.{
  ℕ, suc, pos, String, ◌≡◌, refl, sym, ap, ◌∙◌, subst, some, [], get_elem?,
}
use chain_replication.Base.Map.{find}
use chain_replication.Base.Map.Apart.{adds, Apart, Once, find-adds-Once, nothing_yet, or_else_nil}
use chain_replication.Exec.{Result, ok, ◌>>=◌}
use chain_replication.Proto.{Address}
use chain_replication.Server.State.{Process}
use chain_replication.Master.Chain.{BankServerChain}
use chain_replication.Master.Refinement.{IsChain}
use chain_replication.Config.{Json, load}
use chain_replication.Config.Keys
use chain_replication.Config.Arrays.{element_at}
use chain_replication.Config.Described.{
  BankEntry, servers, chains, IsAddress, IsBank, Setting, Describes,
}
use chain_replication.Config.Chains.Reading.{address_at_lem}
use chain_replication.Config.Servers.{read_own_bank, read_config_server}
use chain_replication.Config.Servers.Search.{found_alive}
use chain_replication.Config.Servers.Place.{value_at, search_at, placed, read_place_lem}
use chain_replication.Config.Servers.Neighbours.{
  IsPlaced, before_lem, behind_lem, head_lem, tail_lem,
}
use chain_replication.Config.Servers.Behaviour.{Behaviour, Behaves, behaving, read_behaviour_lem}
use chain_replication.Config.Servers.Heads.{heads, heads-Once, each_head_lem, own_bank_from_lem}

module _ {A : Type 0} (json : Json A) (random : ℕ) where
  -- The values under which the root has bank `j`, and its server `k`, with the behaviour `b`.
  pub record Chosen (root : json.Value) (j k : ℕ) (b : Behaviour) : Type 0 where
    pub bank_list : json.Value
    pub bank : json.Value
    pub server_list : json.Value
    pub extend_list : json.Value
    pub server : json.Value
    pub banks_here : json.get Keys.banks root ≡ ok bank_list
    pub bank_here : json.at j bank_list ≡ ok bank
    pub servers_here : json.get Keys.servers bank ≡ ok server_list
    pub extend_here : json.get Keys.extend_servers bank ≡ ok extend_list
    pub server_here : json.at k server_list ≡ ok server
    pub behaves : Behaves json random root server b

  abbrev of_bank : String → Process A → Process A
  of_bank id p = record p {
    server = record p.server { bank_id = id; bank = record { bankid = id; account_map = [] } };
  }

  abbrev with_master : Address → Process A → Process A
  with_master a p = record p { master_addr = a }

  module _ {root v : json.Value} (e : BankEntry) (h : IsBank json v e) (b : Behaviour) where
    read_own_bank_lem :
        (k : ℕ) (a master_addr : Address) (w extend_list master : json.Value) (p : Process A)
        → get_elem? (servers e) k ≡ some a
        → get_elem? h.values k ≡ some w
        → IsAddress json w a
        → json.get Keys.extend_servers v ≡ ok extend_list
        → Behaves json random root w b
        → json.get Keys.master root ≡ ok master
        → IsAddress json master master_addr
        → read_own_bank json random root v e.bank_id (pos (suc k)) p ≡ (
          ok 0,
          placed json e h k a
              (with_master master_addr (behaving json random b (of_bank e.bank_id p))),
        )
    unfolding read_own_bank ◌>>=◌
    read_own_bank_lem k a master_addr w extend_list master p at value here extend behaves m maddr =
        rw
          (
            h.list_here,
            extend,
            found_alive json h.list extend_list (pos (suc k)) w p (search_at json e h k w p value),
          )
          (rw (read_behaviour_lem json random b (of_bank e.bank_id p) behaves, m)
            (rw
              (address_at_lem json master master_addr (behaving json random b (of_bank e.bank_id p))
                maddr)
              (rw (
                read_place_lem json e h k a w
                  (with_master master_addr (behaving json random b (of_bank e.bank_id p))) at here
                  refl))))

  -- What the object of the server at address `a` of bank `e` holds then.
  pub record IsStarted (s : Setting) (e : BankEntry) (a : Address) (b : Behaviour) (p : Process A)
      : Type 0 where
    pub bank_id : p.server.bank_id ≡ e.bank_id
    pub no_accounts : p.server.bank.account_map ≡ []
    pub master_addr : p.master_addr ≡ s.master_addr
    pub interval : p.heartbeat_interval ≡ b.interval
    pub scenario : p.server.fail_scenario ≡ b.scenario
    pub fail_seq : p.server.fail_seq ≡ b.fail_seq
    pub heads : (k : String) → find k p.server.bank_head_list ≡ find k (heads s.banks)
    pub placed : (c : BankServerChain) → IsChain c e.first e.others [] → IsPlaced c a p.server

  ok-eq : {R : Type 0} {x y : R} (r : Result R) → r ≡ ok x → r ≡ ok y → x ≡ y
  ok-eq r p q = cc

  -- The values chosen are those that the description names.
  module _ {root : json.Value} {s : Setting} {j k : ℕ} {e : BankEntry} {b : Behaviour}
      (d : Describes json root s) (c : Chosen root j k b) {v w : json.Value}
      (v_at : get_elem? d.bank_values j ≡ some v) (bank : IsBank json v e)
      (w_at : get_elem? bank.values k ≡ some w) where
    same_bank : v ≡ c.bank
    same_bank = ok-eq (json.at j d.bank_list) listed (ap (json.at j) same_list ∙ c.bank_here)
      where
        same_list : d.bank_list ≡ c.bank_list
        same_list = ok-eq (json.get Keys.banks root) d.banks_here c.banks_here

        listed : json.at j d.bank_list ≡ ok v
        listed = element_at json d.bank_list d.bank_values j v d.bank_array v_at

    same_server : w ≡ c.server
    same_server = ok-eq (json.at k bank.list) listed (ap (json.at k) same_list ∙ c.server_here)
      where
        same_list : bank.list ≡ c.server_list
        same_list =
            ok-eq (json.get Keys.servers v) bank.list_here
              (ap (json.get Keys.servers) same_bank ∙ c.servers_here)

        listed : json.at k bank.list ≡ ok w
        listed = element_at json bank.list bank.values k w bank.array w_at

    same_extend : json.get Keys.extend_servers v ≡ ok c.extend_list
    same_extend = ap (json.get Keys.extend_servers) same_bank ∙ c.extend_here

    same_behaviour : Behaves json random root w b
    same_behaviour = subst (λ x. Behaves json random root x b) (sym same_server) c.behaves

  pub read_config_server_lem :
      (dir : String) (root : json.Value) (s : Setting) (j k : ℕ) (e : BankEntry) (a : Address)
      (b : Behaviour) (p : Process A)
      → load json dir ≡ some root
      → Describes json root s
      → Once (chains s.banks)
      → get_elem? s.banks j ≡ some e
      → get_elem? (servers e) k ≡ some a
      → Chosen root j k b
      → p.server.bank_head_list ≡ []
      → (q : Process A) × (read_config_server json random dir e.bank_id (pos (suc k)) p ≡ (ok 0, q))
        × IsStarted s e a b q
  unfolding read_config_server ◌>>=◌
  read_config_server_lem dir root s j k e a b p here d once at_j at_k chosen no_heads =
      let (v, v_at, bank, runs) =
        own_bank_from_lem json 0 random root d.bank_list d.bank_values s.banks j e (pos (suc k))
          headed d.bank_array.elements d.banks once at_j in
      let (w, w_at, addr) = value_at json 1 bank.values (servers e) k a bank.numbered at_k in
      (
        final bank,
        rw (here, read_config_server, d.banks_here)
            (rw
              (each_head_lem json d.bank_values s.banks p d.bank_array d.banks
                (heads-Once s.banks once) ap_heads)
              (rw d.bank_array.size (
                runs
                ∙ read_own_bank_lem e bank b k a s.master_addr w chosen.extend_list d.master headed
                    at_k w_at addr (same_extend d chosen v_at bank w_at)
                    (same_behaviour d chosen v_at bank w_at) d.master_here d.master_addr))),
        started bank,
      )
    where
      ap_heads : Apart (heads s.banks) p.server.bank_head_list
      ap_heads = subst (Apart (heads s.banks)) (sym no_heads) (nothing_yet (heads s.banks))

      headed : Process A
      headed = record p {
        server = record p.server { bank_head_list = adds (heads s.banks) p.server.bank_head_list };
      }

      final : {v : json.Value} → IsBank json v e → Process A
      final bank =
          placed json e bank k a
            (with_master s.master_addr (behaving json random b (of_bank e.bank_id headed)))

      started : {v : json.Value} (bank : IsBank json v e) → IsStarted s e a b (final bank)
      started bank = record {
        bank_id = refl;
        no_accounts = refl;
        master_addr = refl;
        interval = refl;
        scenario = refl;
        fail_seq = refl;
        heads = λ i.
            find-adds-Once i (heads s.banks) _ (heads-Once s.banks once) ap_heads
            ∙ or_else_nil i p.server.bank_head_list (heads s.banks) no_heads;
        placed = λ c chain. record {
          local = refl;
          head = head_lem c e chain k a at_k;
          tail = tail_lem c e chain k a at_k;
          before = λ x. before_lem c e chain k a at_k x p.server.pre_server_addr;
          behind = λ x. behind_lem c e chain k a at_k x p.server.succ_server_addr;
        };
      }
