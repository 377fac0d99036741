-- ===== src/Config/Servers/Neighbours.antt =====
-- The neighbours that read_config_server of src-cpp/server/server.cc gives a server are those that
-- the chain of src-cpp/master/master.h names.
use mathlib.Core.List.{append-nil}
use chain_replication.Base.{
  ℕ, suc, pos, int_eq, ◌≡◌, ap, ◌∙◌, subst, none, some, [], length, get_elem?, arith,
}
use chain_replication.Proto.{Address, addr_eq}
use chain_replication.Server.State.{ChainServer}
use chain_replication.Master.Chain.{BankServerChain, pre_server_addr, succ_server_addr}
use chain_replication.Master.Chain.View.{
  addrs, Distinct, next, previous, next_of_lem, previous_of_lem,
}
use chain_replication.Master.Chain.Positions.{predecessor, next_at, previous_at, head_at, tail_at}
use chain_replication.Master.Refinement.{IsChain}
use chain_replication.Config.Described.{BankEntry, servers}
use chain_replication.Config.Servers.Place.{or_kept}

-- The server's object has the place of `a` in the chain `c`.
pub record IsPlaced {A : Type 0} (c : BankServerChain) (a : Address) (s : ChainServer A)
    : Type 0 where
  pub local : s.local_addr ≡ a
  pub head : s.ishead ≡ addr_eq c.head a
  pub tail : s.istail ≡ addr_eq c.tail a
  pub before : (x : Address) → pre_server_addr a c ≡ some x → s.pre_server_addr ≡ x
  pub behind : (x : Address) → succ_server_addr a c ≡ some x → s.succ_server_addr ≡ x

module _ (c : BankServerChain) (e : BankEntry) (h : IsChain c e.first e.others []) (k : ℕ)
    (a : Address) (at : get_elem? (servers e) k ≡ some a) where
  all_servers : addrs c.server_chain ≡ servers e
  all_servers = h.servers ∙ append-nil (servers e)

  distinct : Distinct (servers e)
  distinct = subst Distinct (append-nil (servers e)) h.distinct

  pub before_lem :
      (x y : Address)
      → pre_server_addr a c ≡ some x
      → or_kept (predecessor none (servers e) k) y ≡ x
  unfolding pre_server_addr
  before_lem x y p = ground (
    arith,
    p,
    previous_of_lem none a c.server_chain,
    ap (previous none a) all_servers,
    previous_at none (servers e) k a distinct at,
  )

  pub behind_lem :
      (x y : Address)
      → succ_server_addr a c ≡ some x
      → or_kept (get_elem? (servers e) (suc k)) y ≡ x
  unfolding succ_server_addr
  behind_lem x y p = ground (
    arith,
    p,
    next_of_lem a c.server_chain,
    ap (next a) all_servers,
    next_at (servers e) k a distinct at,
  )

  pub head_lem : int_eq (pos (suc k)) (pos 1) ≡ addr_eq c.head a
  unfolding int_eq
  head_lem =
      ground (arith, head_at e.first e.others k a distinct at, ap (λ y. addr_eq y a) h.head_first)

  pub tail_lem : int_eq (pos (suc k)) (pos (length (servers e))) ≡ addr_eq c.tail a
  unfolding int_eq
  tail_lem =
      ground (arith, tail_at e.first e.others k a distinct at, ap (λ y. addr_eq y a) h.tail_last)
