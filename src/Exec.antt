-- ===== src/Exec.antt =====
-- Code that changes a state and may not return: `exit(0)`, a failed `assert` or a fatal error of a
-- library, and a C++ exception. What was written before stays written, so the state comes back
-- whatever the outcome.
pub mod Rules
use chain_replication.Base.{Bool, true, false, Option, none, some, List, [], ◌∷◌}

pub data Result {ℓ} (R : Type ℓ) : Type ℓ where
  ok : R → Result R
  exited aborted threw : Result R

abbrev pub Exec {ℓ} : Type ℓ → Type ℓ → Type ℓ
Exec S R = S → Result R × S

module _ {ℓ} {S R : Type ℓ} where
  abbrev pub pure : R → Exec S R
  pure r s = (ok r, s)

  abbrev pub exit : Exec S R
  exit s = (exited, s)

  abbrev pub abort : Exec S R
  abort s = (aborted, s)

  abbrev pub throw : Exec S R
  throw s = (threw, s)

  abbrev pub gets : (S → R) → Exec S R
  gets f s = (ok (f s), s)

module _ {ℓ} {S Q R : Type ℓ} where
  abbrev pub continue : Result Q → (Q → Exec S R) → Exec S R
  continue (ok q) f s = f q s
  continue exited f s = (exited, s)
  continue aborted f s = (aborted, s)
  continue threw f s = (threw, s)

  infixl 5 ◌>>=◌ ◌>>◌
  unfoldable pub ◌>>=◌ : Exec S Q → (Q → Exec S R) → Exec S R
  ◌>>=◌ m f s = let (r, s') = m s in continue r f s'

  abbrev pub ◌>>◌ : Exec S Q → Exec S R → Exec S R
  m >> n = m >>= λ _. n

module _ {S : Type 0} where
  abbrev pub modify : (S → S) → Exec S (Unit {0})
  modify f s = (ok tt, f s)

  abbrev pub done : Exec S (Unit {0})
  done s = (ok tt, s)

  -- `assert(b)`
  abbrev pub require : Bool → Exec S (Unit {0})
  require true s = (ok tt, s)
  require false s = (aborted, s)

  -- A pointer or an iterator that the code dereferences after an `assert` that it is there.
  abbrev pub expect : {R : Type 0} → Option R → Exec S R
  expect (some r) s = (ok r, s)
  expect none s = (aborted, s)

  -- `for (auto& x : list) body(x);`
  unfoldable pub for_each : {X : Type 0} → List X → (X → Exec S (Unit {0})) → Exec S (Unit {0})
  for_each [] body = done
  for_each (x ∷ xs) body = body x >> for_each xs body
