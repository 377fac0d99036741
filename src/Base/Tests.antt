-- ===== src/Base/Tests.antt =====
-- Boolean tests on the native numbers, the conditional, and splits that keep an equation.
use Prim.Native.Nat.{ℕ, ◌+◌, ◌%◌, ◌-◌, ◌<◌, compare, Ordering}
use mathlib.Core.Path.{◌≡◌, refl}
use mathlib.Core.Logic.{◌⊎◌, inl, inr}
use mathlib.Core.Bool.{Bool, true, false}
use mathlib.Core.Option.{Option, none, some}
use native.Mathlib.Omega.{arith}

abbrev pub ltb : ℕ → ℕ → Bool
ltb a b = elim (compare a b) [ Ordering.lt ↦ true | _ ↦ false ]

abbrev pub leb : ℕ → ℕ → Bool
leb a b = elim (compare a b) [ Ordering.gt ↦ false | _ ↦ true ]

infix 50 ◌==◌
abbrev pub ◌==◌ : ℕ → ℕ → Bool
a == b = elim (compare a b) [ Ordering.eq ↦ true | _ ↦ false ]

infix 1 if◌then◌else◌
abbrev pub if◌then◌else◌ {ℓ} : {A : Type ℓ} → Bool → A → A → A
if true then x else y = x
if false then x else y = y

pub Bool-cases : (b : Bool) → (b ≡ true) ⊎ (b ≡ false)
Bool-cases true = inl refl
Bool-cases false = inr refl

pub Option-cases {ℓ} : {A : Type ℓ} (o : Option A) → (o ≡ none) ⊎ ((a : A) × (o ≡ some a))
Option-cases none = inl refl
Option-cases (some a) = inr (a, refl)

abbrev pub is_some {ℓ} : {A : Type ℓ} → Option A → Bool
is_some none = false
is_some (some a) = true

-- `uint32_t` arithmetic: `x + 1` and `x - 1` wrap around.
abbrev pub u32_mod : ℕ
u32_mod = 4294967296

unfoldable pub u32_inc : ℕ → ℕ
u32_inc x = (x + 1) % u32_mod

unfoldable pub u32_dec : ℕ → ℕ
u32_dec x = (x + u32_mod - 1) % u32_mod

-- Below the largest value the increment is exact.
pub u32_inc_exact : (x : ℕ) → x + 1 < u32_mod → u32_inc x ≡ x + 1
unfolding u32_inc
u32_inc_exact x h = omega arith

pub u32_inc_lt : (x : ℕ) → u32_inc x < u32_mod
unfolding u32_inc
u32_inc_lt x = omega arith

pub u32_dec_exact : (x : ℕ) → 0 < x → x < u32_mod → u32_dec x + 1 ≡ x
unfolding u32_dec
u32_dec_exact x p h = omega arith
