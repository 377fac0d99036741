-- ===== src/Config/Agreement.antt =====
-- The master and the servers read one configuration: read_config_master of src-cpp/master/master.cc
-- and read_config_server of src-cpp/server/server.cc.
use chain_replication.Base.{
  ℕ, zero, suc, pos, String, ◌≡◌, ap, sym, subst, ◌∙◌, some, List, [], ◌∷◌, ◌++◌, All, get_elem?,
}
use chain_replication.Base.Map.{find}
use chain_replication.Base.Map.Apart.{Once}
use chain_replication.Exec.{ok}
use chain_replication.Proto.{Address}
use chain_replication.Server.State.{Process}
use chain_replication.Master.Chain.{BankServerChain}
use chain_replication.Master.State.{MasterProcess}
use chain_replication.Master.Refinement.{IsChain}
use chain_replication.Config.{Json, load}
use chain_replication.Config.Described.{BankEntry, servers, IsNamed, chains, Setting, Describes}
use chain_replication.Config.Chains.{read_config_master}
use chain_replication.Config.Chains.Start.{IsEmpty, IsConfigured, read_config_master_lem}
use chain_replication.Config.Servers.{read_config_server}
use chain_replication.Proto.Float.{FloatOps}
use chain_replication.Base.Map.Apart.{find-adds-Once, nothing_yet}
use chain_replication.Client.State.{Client}
use chain_replication.Config.Seeds.{Setup}
use chain_replication.Config.Clients.{read_config_client}
use chain_replication.Config.Clients.Ends.{tails, tails-Once, find-tails_at}
use chain_replication.Config.Clients.Start.{
  ClientEntry, client_of, clients_of, AreClientEntries, DropsBy, read_config_client_lem,
}
use chain_replication.Config.Servers.Behaviour.{Behaviour}
use chain_replication.Config.Servers.Heads.{heads, heads-Once, find-heads_at}
use chain_replication.Config.Servers.Neighbours.{IsPlaced}
use chain_replication.Config.Servers.Start.{Chosen, read_config_server_lem}

-- Some chain of `e` is known to the master, and `P` holds of it.
abbrev pub ChainOf :
    {A : Type 0} → MasterProcess A → BankEntry → (BankServerChain → Type 0) → Type 0
ChainOf m e P =
    (c : BankServerChain) × (find e.bank_id m.master.bank_server_chain ≡ some c)
    × IsChain c e.first e.others []
    × P c

All_at :
    (P : BankEntry → Type 0) (es : List BankEntry) (j : ℕ) (e : BankEntry)
    → All P es
    → get_elem? es j ≡ some e
    → P e
All_at P [] j e h at = absurd (cc)
All_at P (d ∷ es) zero e h at = subst P (cc) h.0
All_at P (d ∷ es) (suc j) e h at = All_at P es j e h.1 at

module _ {A : Type 0} (json : Json A) (random : ℕ) where
  -- When the master and a server of the chain that runs from the start read one file, which
  -- describes banks and clients with ids of their own and servers that are told apart and numbered in
  -- order, both end without a failed assertion. The server has the place at its own chain that the master
  -- gives it: it is head or tail just as the master has it, and the neighbours that the master
  -- names are those that it sends to. Its map has the master's head of every bank.
  pub configurations_agree :
      (dir : String) (root : json.Value) (s : Setting) (j k : ℕ) (e : BankEntry) (a : Address)
      (b : Behaviour) (m : MasterProcess A) (p : Process A)
      → load json dir ≡ some root
      → Describes json root s
      → Once (chains s.banks)
      → Once s.clients
      → All IsNamed s.banks
      → get_elem? s.banks j ≡ some e
      → get_elem? (servers e) k ≡ some a
      → Chosen json random root j k b
      → IsEmpty m
      → p.server.bank_head_list ≡ []
      → (n : MasterProcess A) × (q : Process A) × (read_config_master json dir m ≡ (ok 0, n))
        × (read_config_server json random dir e.bank_id (pos (suc k)) p ≡ (ok 0, q))
        × (q.master_addr ≡ n.master.addr)
        × ChainOf n e (λ c. IsPlaced c a q.server)
        × ((i : ℕ) (d : BankEntry)
            → get_elem? s.banks i ≡ some d
            → ChainOf n d (λ c. find d.bank_id q.server.bank_head_list ≡ some c.head))
  configurations_agree dir root s j k e a b m p here d ob oc named at_j at_k chosen fresh no_heads =
      let (n, master_reads, started) =
        read_config_master_lem json dir root s m here d ob oc named fresh in
      let (q, server_reads, set) =
        read_config_server_lem json random dir root s j k e a b p here d ob at_j at_k chosen
          no_heads in
      let (c, found, chain) = All_at _ s.banks j e started.chains at_j in
      (
        n,
        q,
        master_reads,
        server_reads,
        set.master_addr ∙ sym started.addr,
        (c, found, chain, set.placed c chain),
        λ i x at_i.
            let (c', found', chain') = All_at _ s.banks i x started.chains at_i in
            (
              c',
              found',
              chain',
              set.heads x.bank_id
                  ∙ find-heads_at s.banks i x ob at_i
                  ∙ ap some (sym chain'.head_first),
            ),
      )

-- The maps of a client, as the reader fills them from the banks `es`.
module _ {A : Type 0} ⦃f : FloatOps A⦄ where
  -- The client has the ends of every chain just as the master has them.
  pub record KnowsEnds (es : List BankEntry) (n : MasterProcess A) (c : Client A) : Type 0 where
    pub ends :
        (i : ℕ) (e : BankEntry)
        → get_elem? es i ≡ some e
        → ChainOf n e (λ b.
          (find e.bank_id c.bank_head_list ≡ some b.head)
          × (find e.bank_id c.bank_tail_list ≡ some b.tail))

  client_of-KnowsEnds :
      (s : Setting) (n : MasterProcess A) (word : String) (c : ClientEntry A)
      → Once (chains s.banks)
      → IsConfigured s n
      → KnowsEnds s.banks n (client_of s.banks word c)
  unfolding find
  client_of-KnowsEnds s n word c once started = record {
    ends = λ i e at.
        let (b, found, chain) = All_at _ s.banks i e started.chains at in
        (
          b,
          found,
          chain,
          (
            find-adds-Once e.bank_id (heads s.banks) [] (heads-Once s.banks once)
                  (nothing_yet (heads s.banks))
                ∙ find-heads_at s.banks i e once at
                ∙ ap some (sym chain.head_first),
            find-adds-Once e.bank_id (tails s.banks) [] (tails-Once s.banks once)
                  (nothing_yet (tails s.banks))
                ∙ find-tails_at s.banks i e once at
                ∙ ap some (sym chain.tail_last),
          ),
        );
  }

  all_know :
      (s : Setting) (n : MasterProcess A) (word : String) (cs : List (ClientEntry A))
      → Once (chains s.banks)
      → IsConfigured s n
      → All (KnowsEnds s.banks n) (clients_of s.banks word cs)
  all_know s n word [] once started = tt
  all_know s n word (c ∷ cs) once started =
      (client_of-KnowsEnds s n word c once started, all_know s n word cs once started)

  -- When the master and the clients read one file, which describes banks with ids of their own,
  -- servers that are told apart and numbered in order, clients with ids of their own whose requests
  -- stand in the file, and a word other than "random" for udp_drop_interval, both end without a failed
  -- assertion: there is a client for each entry, with its requests, and each has the head
  -- and the tail of every bank that the master has.
  pub clients_agree :
      (json : Json A) (rand : ℕ → ℕ) (from_int : ℕ → A) (dir : String) (root : json.Value)
      (s : Setting) (word : String) (cs : List (ClientEntry A)) (m : MasterProcess A) (t : Setup A)
      → load json dir ≡ some root
      → (d : Describes json root s) → Once (chains s.banks)
      → Once s.clients
      → All IsNamed s.banks
      → DropsBy json root word
      → AreClientEntries json d.client_values cs
      → IsEmpty m
      → t.client_vector ≡ []
      → (n : MasterProcess A) × (u : Setup A) × (read_config_master json dir m ≡ (ok 0, n))
        × (read_config_client json rand from_int dir t ≡ (ok 0, u))
        × (u.client_vector ≡ clients_of s.banks word cs)
        × All (KnowsEnds s.banks n) u.client_vector
  clients_agree json rand from_int dir root s word cs m t here d ob oc named drops entries fresh
        none_yet =
      let (n, master_reads, started) =
        read_config_master_lem json dir root s m here d ob oc named fresh in
      let u = record t { client_vector = t.client_vector ++ clients_of s.banks word cs } in
      let all : u.client_vector ≡ clients_of s.banks word cs =
        ap (λ l. l ++ clients_of s.banks word cs) none_yet in
      (
        n,
        u,
        master_reads,
        read_config_client_lem json rand from_int d ob drops dir d.client_list d.client_values cs t
            here d.clients_here d.client_array entries,
        all,
        subst (All (KnowsEnds s.banks n)) (sym all) (all_know s n word cs ob started),
      )
