-- ===== src/Master/Refinement/Alone.antt =====
-- A chain of one active server, whose crash `notify_crash` of src-cpp/master/master.cc cannot handle.
use chain_replication.Base.{
  String, ◌≡◌, refl, sym, subst, ◌⊎◌, inl, inr, true, false, List, [], ◌∷◌, arith,
}
use chain_replication.Exec.{aborted, ◌>>=◌}
use chain_replication.Proto.{Address, default_address, addr_eq}
use chain_replication.Master.Chain.{BankServerChain}
use chain_replication.Master.Chain.View.{addr_eq_refl, addr_eq_comm}
use chain_replication.Master.State.{MasterProcess}
use chain_replication.Master.Crash.{notify_crash, extending_crashed}
use chain_replication.Master.Refinement.{IsChain}

-- The crash of the only active server of a chain, whether or not another one is joining, is taken for
-- the crash of a joining server, and the assertion there fails: the master aborts, with nothing sent
-- and nothing changed.
pub notify_crash_alone :
    {A : Type 0} (key : String) (x : Address) (joining : List Address) (b : BankServerChain)
    (p : MasterProcess A)
    → IsChain b x [] joining
    → notify_crash key b x p ≡ (aborted, p)
unfolding notify_crash extending_crashed ◌>>=◌
notify_crash_alone key x joining b p c =
    rw
      (
        subst (λ d. addr_eq x d ≡ true) (sym c.head_first) (addr_eq_refl x),
        subst (λ d. addr_eq x d ≡ true) (sym c.tail_last) (addr_eq_refl x),
        stranger c.extension,
      )
      refl
  where
    stranger :
        ((joining ≡ []) × (b.extending ≡ default_address)) ⊎ (joining ≡ b.extending ∷ [])
        → addr_eq x b.extending ≡ false
    stranger (inl e) = ground (arith, e.1, addr_eq_comm x b.extending, c.named)
    stranger (inr j) = ground (arith, j, addr_eq_comm x b.extending, c.distinct.0)
