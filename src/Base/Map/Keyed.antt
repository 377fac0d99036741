-- ===== src/Base/Map/Keyed.antt =====
-- Maps whose entries know their own key, and in which each key stands once.
use Prim.Native.String.{String}
use text.Mathlib.TextEquality.{eq_iff}
use mathlib.Core.Path.{◌≡◌}
use mathlib.Core.Option.{none, some}
use mathlib.Core.List.{[], ◌∷◌}
use native.Mathlib.Omega.{arith}
use chain_replication.Base.Map.{Map, find, insert, assign, find-assign}

module _ {ℓ} {V : Type ℓ} (key : V → String) where
  abbrev pub IsKeyed : Map V → Type ℓ
  IsKeyed [] = Unit
  IsKeyed ((k, v) ∷ m) = (key v ≡ k) × (find k m ≡ none) × IsKeyed m

  pub insert-IsKeyed :
      (k : String) (v : V) (m : Map V) → key v ≡ k → IsKeyed m → IsKeyed (insert k v m).0
  unfolding insert
  insert-IsKeyed k v m e h = ground arith

  pub assign-IsKeyed :
      (k : String) (v : V) (m : Map V) → key v ≡ k → IsKeyed m → IsKeyed (assign k v m)
  unfolding assign
  assign-IsKeyed k v [] e h = tt
  assign-IsKeyed k v ((j, w) ∷ m) e h =
      ground (arith, eq_iff j k, eq_iff k j, find-assign j k v m, assign-IsKeyed k v m e h.2)

  pub find-IsKeyed : (k : String) (v : V) (m : Map V) → IsKeyed m → find k m ≡ some v → key v ≡ k
  unfolding find
  find-IsKeyed k v [] h e = cc
  find-IsKeyed k v ((j, w) ∷ m) h e = ground (arith, eq_iff j k, find-IsKeyed k v m h.2)
