-- ===== src/Master/Chain/Positions.antt =====
-- Where an address stands in a list of distinct addresses, and what its neighbours are.
use chain_replication.Base.{
  ℕ, zero, suc, ◌≡◌, true, false, Option, some, List, [], ◌∷◌, length, get_elem?, arith, ◌==◌,
}
use chain_replication.Proto.{Address, addr_eq, addr_eq_iff}
use chain_replication.Master.Chain.View.{member, last_or, Distinct, next, previous, member-last_or}

member_at : (l : List Address) (k : ℕ) (a : Address) → get_elem? l k ≡ some a → member a l ≡ true
member_at [] k a h = cc
member_at (x ∷ xs) zero a h = ground (arith, addr_eq_iff x a)
member_at (x ∷ xs) (suc k) a h = ground (arith, member_at xs k a h)

-- The first of distinct addresses is none of the others.
apart_at :
    (x : Address) (xs : List Address) (k : ℕ) (a : Address)
    → Distinct (x ∷ xs)
    → get_elem? xs k ≡ some a
    → addr_eq x a ≡ false
apart_at x xs k a d h = ground (arith, d.0, member_at xs k a h, addr_eq_iff x a)

pub next_at :
    (l : List Address) (k : ℕ) (a : Address)
    → Distinct l
    → get_elem? l k ≡ some a
    → next a l ≡ get_elem? l (suc k)
unfolding next
next_at [] k a d h = cc
next_at (x ∷ []) zero a d h = ground (arith, addr_eq_iff x a)
next_at (x ∷ y ∷ ys) zero a d h = ground (arith, addr_eq_iff x a)
next_at (x ∷ xs) (suc k) a d h = rw (apart_at x xs k a d h) (next_at xs k a d.1 h)

-- What stands before position `k`, where `before` stands before the list.
abbrev pub predecessor : Option Address → List Address → ℕ → Option Address
predecessor before l zero = before
predecessor before l (suc k) = get_elem? l k

pub previous_at :
    (before : Option Address) (l : List Address) (k : ℕ) (a : Address)
    → Distinct l
    → get_elem? l k ≡ some a
    → previous before a l ≡ predecessor before l k
unfolding previous
previous_at before [] k a d h = cc
previous_at before (x ∷ xs) zero a d h = ground (arith, addr_eq_iff x a)
previous_at before (x ∷ xs) (suc zero) a d h =
    rw (apart_at x xs zero a d h) (previous_at (some x) xs zero a d.1 h)
previous_at before (x ∷ xs) (suc (suc k)) a d h =
    rw (apart_at x xs (suc k) a d h) (previous_at (some x) xs (suc k) a d.1 h)

pub head_at :
    (x : Address) (xs : List Address) (k : ℕ) (a : Address)
    → Distinct (x ∷ xs)
    → get_elem? (x ∷ xs) k ≡ some a
    → addr_eq x a ≡ (k == 0)
head_at x xs zero a d h = ground (arith, addr_eq_iff x a)
head_at x xs (suc k) a d h = ground (arith, apart_at x xs k a d h)

pub tail_at :
    (x : Address) (xs : List Address) (k : ℕ) (a : Address)
    → Distinct (x ∷ xs)
    → get_elem? (x ∷ xs) k ≡ some a
    → addr_eq (last_or x xs) a ≡ (k == length xs)
tail_at x [] zero a d h = ground (arith, addr_eq_iff x a)
tail_at x [] (suc k) a d h = cc
tail_at x (y ∷ ys) zero a d h =
    ground (arith, d.0, member-last_or y ys, addr_eq_iff x a, addr_eq_iff (last_or y ys) a)
tail_at x (y ∷ ys) (suc k) a d h = ground (arith, tail_at y ys k a d.1 h)
