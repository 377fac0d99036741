-- ===== src/Master/Chain.antt =====
-- `Node` and `BankServerChain` of src-cpp/master/master.h: the chain of a bank, as the master knows
-- it. Where the code would step past an end of the list the result is `none`.
pub mod View
pub mod Neighbours
pub mod Ends
pub mod Positions
use chain_replication.Base.{
  ℕ, ◌-◌, ◌*◌, ℤ, String, pos, negsuc, Bool, true, false, ◌&&◌, Option, none, some, List, [], ◌∷◌,
  ◌++◌, ltb, if◌then◌else◌,
}
use chain_replication.Proto.{Address, addr_eq}

pub record Node : Type 0 where
  pub addr : Address
  -- In nanoseconds of the steady clock.
  pub last_report_time : ℕ
  pub reported : Bool
  pub crashed : Bool

pub record BankServerChain : Type 0 where
  pub bank_id : String
  pub head : Address
  pub tail : Address
  pub extending : Address
  pub server_chain : List Node

-- `Node node(ip, port)`
abbrev pub new_node : Address → Node
new_node a = record { addr = a; last_report_time = 0; reported = false; crashed = false }

unfoldable pub append_node : Address → BankServerChain → BankServerChain
append_node a b = record b { server_chain = b.server_chain ++ new_node a ∷ [] }

-- The node that `*it == node` finds first, taken out.
unfoldable pub erase_node : Address → List Node → Option (List Node)
erase_node a [] = none
erase_node a (x ∷ xs) =
    if addr_eq x.addr a
    then some xs
    else elim (erase_node a xs) [ none ↦ none | some ys ↦ some (x ∷ ys) ]

unfoldable pub remove_node : Address → BankServerChain → Option BankServerChain
remove_node a b = elim (erase_node a b.server_chain) [
  | none ↦ none
  | some nodes ↦ some (record b { server_chain = nodes })
]

unfoldable pub first_addr : List Node → Option Address
first_addr [] = none
first_addr (x ∷ xs) = some x.addr

-- `(++it)->addr()` and `(--it)->addr()` at the node found.
unfoldable pub next_of : Address → List Node → Option Address
next_of a [] = none
next_of a (x ∷ xs) = if addr_eq x.addr a then first_addr xs else next_of a xs

unfoldable pub previous_of : Option Address → Address → List Node → Option Address
previous_of before a [] = none
previous_of before a (x ∷ xs) = if addr_eq x.addr a then before else previous_of (some x.addr) a xs

unfoldable pub succ_server_addr : Address → BankServerChain → Option Address
succ_server_addr a b = if addr_eq a b.tail then none else next_of a b.server_chain

unfoldable pub pre_server_addr : Address → BankServerChain → Option Address
pre_server_addr a b = if addr_eq a b.head then none else previous_of none a b.server_chain

unfoldable pub get_node : Address → List Node → Option Node
get_node a [] = none
get_node a (x ∷ xs) = if addr_eq x.addr a then some x else get_node a xs

-- `*node = n` at the node that `get_node` points to.
unfoldable pub set_node : Address → Node → List Node → List Node
set_node a n [] = []
set_node a n (x ∷ xs) = if addr_eq x.addr a then n ∷ xs else x ∷ set_node a n xs

unfoldable pub set_report_time : ℕ → Node → Node
set_report_time now n = record n { last_report_time = now; reported = true }

-- `time_span.count() > crash_timeout`, for a span in nanoseconds: any span is longer than a negative
-- timeout.
abbrev pub longer_than : ℕ → ℤ → Bool
longer_than span (pos seconds) = ltb (seconds * 1_000_000_000) span
longer_than span (negsuc n) = true

-- What `become_crashed` finds at `now`, given the timeout in seconds. The code compares in `double`.
unfoldable pub expired : ℕ → ℤ → Node → Bool
expired now crash_timeout n = n.reported && longer_than (now - n.last_report_time) crash_timeout

unfoldable pub become_crashed : ℕ → ℤ → Node → Node
become_crashed now crash_timeout n = record n { crashed = expired now crash_timeout n }
