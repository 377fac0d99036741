-- ===== src/Server/Validity/Sequence.antt =====
-- Lists of requests in the order of their numbers.
use chain_replication.Base.{ℕ, ◌<◌, ◌≤◌, Bool, List, [], ◌∷◌, ◌++◌, arith, keep}
use chain_replication.Proto.{Request}

module _ {A : Type 0} where
  -- The numbers rise strictly, from above `lo` to at most `hi`.
  abbrev pub Between : ℕ → ℕ → List (Request A) → Type 0
  Between lo hi [] = lo ≤ hi
  Between lo hi (x ∷ xs) = (lo < x.bank_update_seq) × Between x.bank_update_seq hi xs

  pub Between-le : (lo hi : ℕ) (xs : List (Request A)) → Between lo hi xs → lo ≤ hi
  Between-le lo hi [] h = h
  Between-le lo hi (x ∷ xs) h = omega (arith, Between-le x.bank_update_seq hi xs h.1, h.0)

  pub Between-widen :
      (lo' hi' lo hi : ℕ) (xs : List (Request A))
      → lo' ≤ lo
      → hi ≤ hi'
      → Between lo hi xs
      → Between lo' hi' xs
  Between-widen lo' hi' lo hi [] p q h = omega arith
  Between-widen lo' hi' lo hi (x ∷ xs) p q h = (
    omega (arith, h.0),
    Between-widen x.bank_update_seq hi' x.bank_update_seq hi xs (omega arith) q h.1,
  )

  pub Between-snoc :
      (lo hi : ℕ) (xs : List (Request A)) (x : Request A)
      → Between lo hi xs
      → hi < x.bank_update_seq
      → Between lo x.bank_update_seq (xs ++ x ∷ [])
  Between-snoc lo hi [] x h p = (omega arith, omega arith)
  Between-snoc lo hi (y ∷ xs) x h p = (h.0, Between-snoc y.bank_update_seq hi xs x h.1 p)

  -- Any part of such a list is one.
  pub Between-keep :
      (lo hi : ℕ) (p : Request A → Bool) (xs : List (Request A))
      → Between lo hi xs
      → Between lo hi (keep p xs)
  Between-keep lo hi p [] h = h
  Between-keep lo hi p (x ∷ xs) h = ground (
    arith,
    h,
    Between-keep x.bank_update_seq hi p xs h.1,
    Between-widen lo hi x.bank_update_seq hi (keep p xs),
  )
