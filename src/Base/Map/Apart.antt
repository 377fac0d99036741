-- ===== src/Base/Map/Apart.antt =====
-- Two maps without a common key, and one put in front of the other.
use Prim.Native.String.{String}
use text.Mathlib.TextEquality.{eq_iff}
use text.Mathlib.TextPositions.{eq_refl}
use mathlib.Core.Path.{◌≡◌, refl}
use mathlib.Core.Bool.{true}
use mathlib.Core.Option.{none}
use mathlib.Core.List.{[], ◌∷◌}
use native.Mathlib.Omega.{arith}
use chain_replication.Base.Tests.{is_some}
use chain_replication.Base.Map.{Map, find, insert, or_else}
use chain_replication.Base.Map.Keyed.{IsKeyed}

module _ {V : Type 0} where
  -- The entries of one map put in front of another, one by one.
  unfoldable pub adds : Map V → Map V → Map V
  adds [] n = n
  adds ((k, v) ∷ m) n = adds m ((k, v) ∷ n)

  -- Each key stands once.
  abbrev pub Once : Map V → Type 0
  Once [] = Unit
  Once ((k, v) ∷ m) = (find k m ≡ none) × Once m

  pub IsKeyed-Once : (key : V → String) (m : Map V) → IsKeyed key m → Once m
  IsKeyed-Once key [] h = tt
  IsKeyed-Once key ((k, v) ∷ m) h = (h.1, IsKeyed-Once key m h.2)

  -- No key stands in both.
  abbrev pub Apart : Map V → Map V → Type 0
  Apart m n = (j : String) → is_some (find j m) ≡ true → find j n ≡ none

  pub Apart-next :
      (k : String) (v : V) (m n : Map V)
      → find k m ≡ none
      → Apart ((k, v) ∷ m) n
      → Apart m ((k, v) ∷ n)
  unfolding find
  Apart-next k v m n fresh h = λ j s. ground (arith, eq_iff k j, h j, s, fresh)

  pub Apart-first : (k : String) (v : V) (m n : Map V) → Apart ((k, v) ∷ m) n → find k n ≡ none
  unfolding find
  Apart-first k v m n h = ground (arith, eq_refl k, h k)

  pub find-adds-Once :
      (j : String) (m n : Map V)
      → Once m
      → Apart m n
      → find j (adds m n) ≡ or_else (find j n) (find j m)
  unfolding adds find
  find-adds-Once j [] n o h = ground arith
  find-adds-Once j ((i, v) ∷ m) n o h = ground (
    arith,
    eq_iff i j,
    Apart-first i v m n h,
    find-adds-Once j m ((i, v) ∷ n) o.1 (Apart-next i v m n o.0 h),
  )

  pub find-adds :
      (key : V → String) (j : String) (m n : Map V)
      → IsKeyed key m
      → Apart m n
      → find j (adds m n) ≡ or_else (find j n) (find j m)
  find-adds key j m n k h = find-adds-Once j m n (IsKeyed-Once key m k) h

  pub insert_cons :
      (k : String) (v : V) (m : Map V) → find k m ≡ none → insert k v m ≡ ((k, v) ∷ m, true)
  unfolding insert
  insert_cons k v m h = ground arith

  pub nothing_yet : (m : Map V) → Apart m []
  unfolding find
  nothing_yet m j h = refl

  pub or_else_nil : (k : String) (m n : Map V) → m ≡ [] → or_else (find k m) (find k n) ≡ find k n
  unfolding find
  or_else_nil k m n e = rw e

  pub find-adds_nil :
      (key : V → String) (m : Map V) → IsKeyed key m → (k : String) → find k (adds m []) ≡ find k m
  unfolding find
  find-adds_nil key m h k = find-adds key k m [] h (nothing_yet m)
