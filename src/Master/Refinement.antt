-- ===== src/Master/Refinement.antt =====
-- What the master promises about a chain: it is a list of active servers, the first of them the head
-- and the last the tail, perhaps followed by one server that is joining.
pub mod Removal
pub mod Crashes
pub mod Departure
pub mod Alone
pub mod Joins
use chain_replication.Base.{◌≡◌, ◌⊎◌, false, List, [], ◌∷◌, ◌++◌}
use chain_replication.Proto.{Address, default_address}
use chain_replication.Master.Chain.{BankServerChain}
use chain_replication.Master.Chain.View.{addrs, member, last_or, Distinct}

-- `b` is the chain of the active servers `x ∷ xs` and of those in `joining`, none or one.
pub record IsChain (b : BankServerChain) (x : Address) (xs joining : List Address) : Type 0 where
  pub servers : addrs b.server_chain ≡ (x ∷ xs) ++ joining
  pub head_first : b.head ≡ x
  pub tail_last : b.tail ≡ last_or x xs
  pub extension : ((joining ≡ []) × (b.extending ≡ default_address)) ⊎ (joining ≡ b.extending ∷ [])
  pub distinct : Distinct ((x ∷ xs) ++ joining)
  -- The address that stands for "nobody is joining" is nobody's.
  pub named : member default_address ((x ∷ xs) ++ joining) ≡ false
