-- ===== src/Proto/Float.antt =====
-- `float`, as the servers use it: the operations are a parameter of the model, since the language
-- has no floating point numbers.
use chain_replication.Base.{ℕ, ◌+◌, ◌-◌, ◌≡◌, refl, Bool, false, ltb, ◌==◌, arith}

pub record FloatOps (A : Type 0) : Type 0 where
  pub zero : A
  pub add : A → A → A
  pub sub : A → A → A
  pub lt : A → A → Bool
  pub eq : A → A → Bool

module _ {A : Type 0} ⦃f : FloatOps A⦄ where
  abbrev pub zero_float : A
  zero_float = f.zero

  infixl 65 ◌+f◌ ◌-f◌
  infix 50 ◌<f◌ ◌==f◌
  abbrev pub ◌+f◌ : A → A → A
  a +f b = f.add a b

  abbrev pub ◌-f◌ : A → A → A
  a -f b = f.sub a b

  abbrev pub ◌<f◌ : A → A → Bool
  a <f b = f.lt a b

  abbrev pub ◌==f◌ : A → A → Bool
  a ==f b = f.eq a b

-- What IEEE 754 says of signs: a sum of two values that are not below zero is not below zero, nor
-- is a difference `a - b` where `a < b` is false. Both hold of infinities and NaN too.
pub record SignLaws {A : Type 0} (f : FloatOps A) : Type 0 where
  pub zero_sign : f.lt f.zero f.zero ≡ false
  pub add_sign :
      (a b : A) → f.lt a f.zero ≡ false → f.lt b f.zero ≡ false → f.lt (f.add a b) f.zero ≡ false
  pub sub_sign : (a b : A) → f.lt a b ≡ false → f.lt (f.sub a b) f.zero ≡ false

-- Whole amounts of money: an instance to run the model at.
instance abbrev pub whole : FloatOps ℕ
whole = record { zero = 0; add = λ a b. a + b; sub = λ a b. a - b; lt = ltb; eq = ◌==◌ }

pub whole-SignLaws : SignLaws whole
whole-SignLaws = record {
  zero_sign = refl;
  add_sign = λ a b p q. ground arith;
  sub_sign = λ a b p. ground arith;
}
