-- ===== src/Master/Chain/Neighbours.antt =====
-- The neighbours of a server in its chain, and the ends of a chain that lost a server, for
-- `succ_server_addr` and `pre_server_addr` of src-cpp/master/master.h.
use chain_replication.Base.{
  ◌≡◌, refl, true, false, Option, some, List, [], ◌∷◌, ◌++◌, arith, is_some,
}
use chain_replication.Proto.{Address, addr_eq, addr_eq_iff}
use chain_replication.Master.Chain.View.{
  member, without, last_or, Distinct, next, previous, addr_eq_refl, member-last_or,
}

-- After a server that is not the last one there is another.
pub next-is_some :
    (a x : Address) (xs ys : List Address)
    → member a (x ∷ xs) ≡ true
    → addr_eq (last_or x xs) a ≡ false
    → is_some (next a ((x ∷ xs) ++ ys)) ≡ true
unfolding next
next-is_some a x [] ys m h = ground arith
next-is_some a x (z ∷ zs) ys m h = ground (arith, next-is_some a z zs ys)

-- So there is one before a server that is not the first.
pub previous-is_some :
    (a before : Address) (xs ys : List Address)
    → member a xs ≡ true
    → is_some (previous (some before) a (xs ++ ys)) ≡ true
unfolding previous
previous-is_some a before [] ys m = cc
previous-is_some a before (x ∷ xs) ys m = ground (arith, previous-is_some a x xs ys)

unfoldable pub or_last : Option Address → List Address → Option Address
or_last before [] = before
or_last before (x ∷ xs) = some (last_or x xs)

or_last-some : (x : Address) (xs : List Address) → or_last (some x) xs ≡ some (last_or x xs)
unfolding or_last
or_last-some x [] = refl
or_last-some x (y ∷ ys) = refl

absent_ne :
    (x b : Address) (xs : List Address)
    → member x xs ≡ false
    → member b xs ≡ true
    → addr_eq x b ≡ false
absent_ne x b xs h m = ground (arith, addr_eq_iff x b)

-- The server before the last one is the last of those that remain.
pub previous-last :
    (before : Option Address) (x : Address) (xs ys : List Address)
    → Distinct (x ∷ xs)
    → previous before (last_or x xs) ((x ∷ xs) ++ ys)
      ≡ or_last before (without (last_or x xs) (x ∷ xs))
unfolding previous without or_last
previous-last before x [] ys d = ground (arith, addr_eq_refl x)
previous-last before x (z ∷ zs) ys d = ground (
  arith,
  absent_ne x (last_or z zs) (z ∷ zs) d.0 (member-last_or z zs),
  previous-last (some x) z zs ys d.1,
  or_last-some x (without (last_or z zs) (z ∷ zs)),
)

-- The server before one that follows the whole list is the last of the list.
pub previous-append :
    (before : Option Address) (a : Address) (xs ys : List Address)
    → member a xs ≡ false
    → previous before a (xs ++ a ∷ ys) ≡ or_last before xs
unfolding previous or_last
previous-append before a [] ys h = ground (arith, addr_eq_refl a)
previous-append before a (x ∷ xs) ys h =
    ground (arith, previous-append (some x) a xs ys, or_last-some x xs)

-- The last server stays the last when another goes.
pub last_or-without :
    (a x : Address) (xs : List Address)
    → addr_eq x a ≡ false
    → addr_eq (last_or x xs) a ≡ false
    → last_or x (without a xs) ≡ last_or x xs
unfolding without
last_or-without a x [] h k = refl
last_or-without a x (z ∷ []) h k = ground arith
last_or-without a x (z ∷ y ∷ ys) h k = ground (arith, last_or-without a z (y ∷ ys))
