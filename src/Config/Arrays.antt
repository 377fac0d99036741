-- ===== src/Config/Arrays.antt =====
-- The loops of the readers over the elements of a JSON array, as loops over a list.
use mathlib.Core.Path.{fun_ext}
use chain_replication.Base.{
  ℕ, zero, suc, ◌+◌, some, get_elem?, arith, ◌≡◌, refl, ap, ◌∙◌, List, [], ◌∷◌, length,
}
use chain_replication.Exec.{ok, Exec, pure, ◌>>=◌}
use chain_replication.Config.{Json, call, fold_from, fold_each}

-- `for (auto& x : xs) body(x);`, where the body changes a local variable.
unfoldable pub fold_list : {S X B : Type 0} → List X → (X → B → Exec S B) → B → Exec S B
unfolding ◌>>=◌
fold_list [] body b = pure b
fold_list (x ∷ xs) body b = body x b >>= fold_list xs body

module _ {A : Type 0} (json : Json A) where
  -- From index `i` on, `v` has the elements `xs`.
  abbrev pub ElementsFrom : ℕ → json.Value → List json.Value → Type 0
  ElementsFrom i v [] = Unit
  ElementsFrom i v (x ∷ xs) = (json.at i v ≡ ok x) × ElementsFrom (suc i) v xs

  -- `v` is an array of the values `xs`.
  pub record IsArray (v : json.Value) (xs : List json.Value) : Type 0 where
    pub size : json.size v ≡ length xs
    pub elements : ElementsFrom 0 v xs

  ElementsFrom-at :
      (i : ℕ) (v : json.Value) (xs : List json.Value) (k : ℕ) (x : json.Value)
      → ElementsFrom i v xs
      → get_elem? xs k ≡ some x
      → json.at (i + k) v ≡ ok x
  ElementsFrom-at i v [] k x h at = cc
  ElementsFrom-at i v (y ∷ xs) zero x h at =
      ap (λ n. json.at n v) (omega arith) ∙ h.0 ∙ ap ok (ground arith)
  ElementsFrom-at i v (y ∷ xs) (suc k) x h at =
      ap (λ n. json.at n v) (omega arith) ∙ ElementsFrom-at (suc i) v xs k x h.1 at

  pub element_at :
      (v : json.Value) (xs : List json.Value) (k : ℕ) (x : json.Value)
      → IsArray v xs
      → get_elem? xs k ≡ some x
      → json.at k v ≡ ok x
  element_at v xs k x h at =
      ap (λ n. json.at n v) (omega arith) ∙ ElementsFrom-at 0 v xs k x h.elements at

  module _ {S B : Type 0} (body : json.Value → B → Exec S B) where
    fold_from_lem :
        (i : ℕ) (v : json.Value) (xs : List json.Value) (b : B)
        → ElementsFrom i v xs
        → fold_from json (length xs) i v body b ≡ fold_list xs body b
    unfolding fold_from fold_list ◌>>=◌
    fold_from_lem i v [] b h = refl
    fold_from_lem i v (x ∷ xs) b h =
        ap (λ r. (call r >>= λ y. body y b >>= fold_from json (length xs) (suc i) v body)) h.0
        ∙ ap (λ k. body x b >>= k) (fun_ext (λ b'. fold_from_lem (suc i) v xs b' h.1))

    pub fold_each_lem :
        (v : json.Value) (xs : List json.Value) (b : B)
        → IsArray v xs
        → fold_each json v body b ≡ fold_list xs body b
    unfolding fold_each
    fold_each_lem v xs b h =
        ap (λ n. fold_from json n 0 v body b) h.size ∙ fold_from_lem 0 v xs b h.elements
