-- ===== src/Master/Refinement/Removal.antt =====
-- What `remove_node`, `succ_server_addr` and `pre_server_addr` of src-cpp/master/master.h give on a
-- chain.
use chain_replication.Base.{
  ◌≡◌, sym, ap, ap₂, subst, ◌∙◌, ◌⊎◌, true, false, none, some, List, [], ◌∷◌, ◌++◌, arith,
}
use chain_replication.Proto.{Address, default_address, addr_eq}
use chain_replication.Master.Chain.{BankServerChain, remove_node, succ_server_addr, pre_server_addr}
use chain_replication.Master.Chain.View.{
  addrs, member, without, last_or, Distinct, drop_node, erase_node-member, addrs-drop_node, next,
  previous, next_of_lem, previous_of_lem, without-append, without-Distinct, member-without,
  without_absent, member_apart,
}
use chain_replication.Master.Refinement.{IsChain}

abbrev pub removed : Address → BankServerChain → BankServerChain
removed a b = record b { server_chain = drop_node a b.server_chain }

pub remove_node_found :
    (a : Address) (b : BankServerChain)
    → member a (addrs b.server_chain) ≡ true
    → remove_node a b ≡ some (removed a b)
unfolding remove_node
remove_node_found a b m = ground (arith, erase_node-member a b.server_chain m)

module _ (a x : Address) (xs joining : List Address) (b : BankServerChain)
    (c : IsChain b x xs joining) where
  pub found : member a ((x ∷ xs) ++ joining) ≡ true → member a (addrs b.server_chain) ≡ true
  found = subst (λ l. member a l ≡ true) (sym c.servers)

  pub servers_removed : addrs (removed a b).server_chain ≡ without a (x ∷ xs) ++ without a joining
  servers_removed =
      addrs-drop_node a b.server_chain
      ∙ ap (without a) c.servers
      ∙ without-append a (x ∷ xs) joining c.distinct

  Distinct-removed : Distinct (without a (x ∷ xs) ++ without a joining)
  Distinct-removed =
      subst Distinct (without-append a (x ∷ xs) joining c.distinct)
        (without-Distinct a ((x ∷ xs) ++ joining) c.distinct)

  member-removed : member default_address (without a (x ∷ xs) ++ without a joining) ≡ false
  member-removed =
      subst (λ l. member default_address l ≡ false) (without-append a (x ∷ xs) joining c.distinct)
        (member-without default_address a ((x ∷ xs) ++ joining) c.named)

  pub succ_server_addr_chain :
      addr_eq a b.tail ≡ false → succ_server_addr a b ≡ next a ((x ∷ xs) ++ joining)
  unfolding succ_server_addr
  succ_server_addr_chain h = rw (h) (next_of_lem a b.server_chain ∙ ap (next a) c.servers)

  pub pre_server_addr_chain :
      addr_eq a b.head ≡ false → pre_server_addr a b ≡ previous none a ((x ∷ xs) ++ joining)
  unfolding pre_server_addr
  pre_server_addr_chain h =
      rw h (previous_of_lem none a b.server_chain ∙ ap (previous none a) c.servers)

  -- The chain without `a`, under the new ends that the master sets.
  pub IsChain-removed :
      (z : Address) (zs rest : List Address) (h t e : Address)
      → without a (x ∷ xs) ≡ z ∷ zs
      → without a joining ≡ rest
      → h ≡ z
      → t ≡ last_or z zs
      → ((rest ≡ []) × (e ≡ default_address)) ⊎ (rest ≡ e ∷ [])
      → IsChain (record (removed a b) { head = h; tail = t; extending = e }) z zs rest
  IsChain-removed z zs rest h t e p q hz tz ext = record {
    servers = servers_removed ∙ parts;
    head_first = hz;
    tail_last = tz;
    extension = ext;
    distinct = subst Distinct parts Distinct-removed;
    named = subst (λ l. member default_address l ≡ false) parts member-removed;
  }
    where
      parts : without a (x ∷ xs) ++ without a joining ≡ (z ∷ zs) ++ rest
      parts = ap₂ (λ (l m : List Address). l ++ m) p q

module _ (x : Address) (xs joining : List Address) (b : BankServerChain)
    (c : IsChain b x xs joining) where
  -- A server of the chain is not the one that is joining, and the other way round.
  pub joining_apart : (a : Address) → member a (x ∷ xs) ≡ true → without a joining ≡ joining
  joining_apart a m = without_absent a joining (member_apart a (x ∷ xs) joining c.distinct m)
