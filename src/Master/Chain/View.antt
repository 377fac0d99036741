-- ===== src/Master/Chain/View.antt =====
-- The chain of src-cpp/master/master.h as a list of addresses: where a node stands, and what taking
-- it out leaves.
use chain_replication.Base.{
  ◌≡◌, refl, ap, Bool, true, false, Option, none, some, List, [], ◌∷◌, ◌++◌, arith, if◌then◌else◌,
}
use chain_replication.Proto.{Address, addr_eq, addr_eq_iff}
use chain_replication.Master.Chain.{Node, erase_node, first_addr, next_of, previous_of}

abbrev pub addrs : List Node → List Address
addrs [] = []
addrs (x ∷ xs) = x.addr ∷ addrs xs

abbrev pub member : Address → List Address → Bool
member a [] = false
member a (x ∷ xs) = if addr_eq x a then true else member a xs

-- The abstract removal.
unfoldable pub without : Address → List Address → List Address
without a [] = []
without a (x ∷ xs) = if addr_eq x a then xs else x ∷ without a xs

abbrev pub first : List Address → Option Address
first [] = none
first (x ∷ xs) = some x

abbrev pub last_or : Address → List Address → Address
last_or x [] = x
last_or x (y ∷ ys) = last_or y ys

abbrev pub last : List Address → Option Address
last [] = none
last (x ∷ xs) = some (last_or x xs)

-- No address stands twice.
abbrev pub Distinct : List Address → Type 0
Distinct [] = Unit
Distinct (x ∷ xs) = (member x xs ≡ false) × Distinct xs

pub addrs-append : (xs ys : List Node) → addrs (xs ++ ys) ≡ addrs xs ++ addrs ys
addrs-append [] ys = refl
addrs-append (x ∷ xs) ys = ap (◌∷◌ x.addr) (addrs-append xs ys)

abbrev pub drop_node : Address → List Node → List Node
drop_node a [] = []
drop_node a (x ∷ xs) = if addr_eq x.addr a then xs else x ∷ drop_node a xs

pub erase_node-member :
    (a : Address) (xs : List Node)
    → member a (addrs xs) ≡ true
    → erase_node a xs ≡ some (drop_node a xs)
unfolding erase_node
erase_node-member a [] h = cc
erase_node-member a (x ∷ xs) h = ground (arith, erase_node-member a xs)

pub addrs-drop_node : (a : Address) (xs : List Node) → addrs (drop_node a xs) ≡ without a (addrs xs)
unfolding without
addrs-drop_node a [] = refl
addrs-drop_node a (x ∷ xs) = ground (arith, addrs-drop_node a xs)

-- The neighbours of an address.
unfoldable pub next : Address → List Address → Option Address
next a [] = none
next a (x ∷ xs) = if addr_eq x a then first xs else next a xs

unfoldable pub previous : Option Address → Address → List Address → Option Address
previous before a [] = none
previous before a (x ∷ xs) = if addr_eq x a then before else previous (some x) a xs

first_addr_lem : (xs : List Node) → first_addr xs ≡ first (addrs xs)
unfolding first_addr
first_addr_lem [] = refl
first_addr_lem (x ∷ xs) = refl

pub next_of_lem : (a : Address) (xs : List Node) → next_of a xs ≡ next a (addrs xs)
unfolding next_of next
next_of_lem a [] = refl
next_of_lem a (x ∷ xs) = ground (arith, next_of_lem a xs, first_addr_lem xs)

pub previous_of_lem :
    (before : Option Address) (a : Address) (xs : List Node)
    → previous_of before a xs ≡ previous before a (addrs xs)
unfolding previous_of previous
previous_of_lem before a [] = refl
previous_of_lem before a (x ∷ xs) = ground (arith, previous_of_lem (some x.addr) a xs)

pub addr_eq_refl : (a : Address) → addr_eq a a ≡ true
addr_eq_refl a = (addr_eq_iff a a).1 refl

pub addr_eq_comm : (a b : Address) → addr_eq a b ≡ addr_eq b a
addr_eq_comm a b = ground (arith, addr_eq_iff a b, addr_eq_iff b a)

pub member-last_or : (x : Address) (xs : List Address) → member (last_or x xs) (x ∷ xs) ≡ true
member-last_or x [] = rw addr_eq_refl
member-last_or x (y ∷ ys) = ground (arith, member-last_or y ys)

pub member-append :
    (a : Address) (xs ys : List Address)
    → member a (xs ++ ys) ≡ (if member a xs then true else member a ys)
member-append a [] ys = refl
member-append a (x ∷ xs) ys = ground (arith, member-append a xs ys)

pub without_absent : (a : Address) (xs : List Address) → member a xs ≡ false → without a xs ≡ xs
unfolding without
without_absent a [] h = refl
without_absent a (x ∷ xs) h = ground (arith, without_absent a xs)

-- A part of a list of distinct addresses.
pub member-without :
    (b a : Address) (xs : List Address) → member b xs ≡ false → member b (without a xs) ≡ false
unfolding without
member-without b a [] h = refl
member-without b a (x ∷ xs) h = ground (arith, member-without b a xs)

pub without-Distinct : (a : Address) (xs : List Address) → Distinct xs → Distinct (without a xs)
unfolding without
without-Distinct a [] h = tt
without-Distinct a (x ∷ xs) h =
    ground (arith, h, member-without x a xs h.0, without-Distinct a xs h.1)

pub without-append :
    (a : Address) (xs ys : List Address)
    → Distinct (xs ++ ys)
    → without a (xs ++ ys) ≡ without a xs ++ without a ys
unfolding without
without-append a [] ys d = refl
without-append a (x ∷ xs) ys d = ground (
  arith,
  d,
  addr_eq_iff x a,
  without_absent a ys,
  member-append x xs ys,
  without-append a xs ys d.1,
)

-- What stands in the first part of such a list stands in no other.
pub member_apart :
    (a : Address) (xs ys : List Address)
    → Distinct (xs ++ ys)
    → member a xs ≡ true
    → member a ys ≡ false
member_apart a [] ys d m = cc
member_apart a (x ∷ xs) ys d m =
    ground (arith, d.0, addr_eq_iff x a, member-append x xs ys, member_apart a xs ys d.1)

pub Distinct-append : (xs ys : List Address) → Distinct (xs ++ ys) → Distinct xs
Distinct-append [] ys d = tt
Distinct-append (x ∷ xs) ys d =
    (ground (arith, d.0, member-append x xs ys), Distinct-append xs ys d.1)
