-- ===== src/Base/Map.antt =====
-- `std::unordered_map` with string keys: an association list, whose order stands for the
-- unspecified order of iteration.
pub mod Keyed
pub mod Apart
use text.Mathlib.Text.{◌==◌}
use text.Mathlib.TextEquality.{eq_iff}
use mathlib.Core.Path.{◌≡◌}
use mathlib.Core.Bool.{Bool, true, false}
use mathlib.Core.Option.{Option, none, some}
use mathlib.Core.List.{List, [], ◌∷◌}
use Prim.Native.String.{String}
use native.Mathlib.Omega.{arith}
use chain_replication.Base.Tests.{if◌then◌else◌}

abbrev pub Map {ℓ} : Type ℓ → Type ℓ
Map V = List (String × V)

module _ {ℓ} {V : Type ℓ} where
  -- `it = m.find(k)`; `none` is `m.end()`.
  unfoldable pub find : String → Map V → Option V
  find k [] = none
  find k ((j, v) ∷ m) = if j == k then some v else find k m

  -- `m.insert(make_pair(k, v))`: a key that is there keeps its value, and the flag is false.
  unfoldable pub insert : String → V → Map V → Map V × Bool
  insert k v m = elim (find k m) [ none ↦ ((k, v) ∷ m, true) | some w ↦ (m, false) ]

  -- `it->second = v` at the entry that `find(k)` points to.
  unfoldable pub assign : String → V → Map V → Map V
  assign k v [] = []
  assign k v ((j, w) ∷ m) = if j == k then (j, v) ∷ m else (j, w) ∷ assign k v m

  abbrev pub or_else : Option V → Option V → Option V
  or_else (some v) o = some v
  or_else none o = o

  abbrev pub replaced : Option V → V → Option V
  replaced (some w) v = some v
  replaced none v = none

  pub find-insert :
      (j k : String) (v : V) (m : Map V)
      → find j (insert k v m).0 ≡ (if k == j then or_else (find k m) (some v) else find j m)
  unfolding find insert
  find-insert j k v m = ground (arith, eq_iff k j)

  pub insert_fresh : (k : String) (v : V) (m : Map V) → find k m ≡ none → (insert k v m).1 ≡ true
  unfolding insert
  insert_fresh k v m h = ground arith

  pub find-assign :
      (j k : String) (v : V) (m : Map V)
      → find j (assign k v m) ≡ (if k == j then replaced (find k m) v else find j m)
  unfolding find assign
  find-assign j k v [] = ground arith
  find-assign j k v ((i, w) ∷ m) =
      ground (arith, eq_iff k j, eq_iff i k, eq_iff i j, find-assign j k v m)

  pub assign_again : (k : String) (v w : V) (m : Map V) → assign k v (assign k w m) ≡ assign k v m
  unfolding assign
  assign_again k v w [] = ground arith
  assign_again k v w ((j, u) ∷ m) = ground (arith, assign_again k v w m)

pub ruleset map_laws = (find-insert, find-assign)
