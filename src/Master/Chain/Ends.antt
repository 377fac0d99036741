-- ===== src/Master/Chain/Ends.antt =====
-- The first and the last address of a chain that loses one, for `notify_crash` of
-- src-cpp/master/master.cc.
use chain_replication.Base.{◌≡◌, true, false, some, List, [], ◌∷◌, ◌++◌, arith}
use chain_replication.Proto.{Address, addr_eq, addr_eq_iff}
use chain_replication.Master.Chain.View.{without, last_or, Distinct, next, member-last_or}

-- The first server goes: the next one comes first and the last one stays.
pub second_first :
    (a x z : Address) (xs zs ys : List Address)
    → addr_eq x a ≡ true
    → without a (x ∷ xs) ≡ z ∷ zs
    → (next a ((x ∷ xs) ++ ys) ≡ some z) × (last_or x xs ≡ last_or z zs)
unfolding next without
second_first a x z [] zs ys h w = ground arith
second_first a x z (y ∷ xs) zs ys h w = ground arith

-- Another one goes: the first one stays.
pub first_stays :
    (a x z : Address) (xs zs : List Address)
    → addr_eq x a ≡ false
    → without a (x ∷ xs) ≡ z ∷ zs
    → (x ≡ z) × (without a xs ≡ zs)
unfolding without
first_stays a x z xs zs h w = ground arith

pub single_last :
    (a x z : Address) (xs zs : List Address)
    → Distinct (x ∷ xs)
    → addr_eq x a ≡ true
    → without a (x ∷ xs) ≡ z ∷ zs
    → addr_eq (last_or x xs) a ≡ false
unfolding without
single_last a x z [] zs d h w = ground arith
single_last a x z (y ∷ xs) zs d h w =
    ground (arith, addr_eq_iff x a, addr_eq_iff (last_or y xs) a, member-last_or y xs)
