-- ===== src/Exec/Rules.antt =====
-- What stays true of the state over code that may not return.
use chain_replication.Base.{◌≡◌, ap, List, [], ◌∷◌}
use chain_replication.Exec.{Result, ok, exited, aborted, threw, Exec, continue, ◌>>=◌, for_each}

-- `m` takes every state to one that `R` relates to it, however it ends.
pub record Moves {S Q : Type 0} (R : S → S → Type 0) (m : Exec S Q) : Type 0 where
  pub at : (s : S) → R s (m s).1

-- A reflexive and transitive relation between the state before and the state after.
pub record IsOrder {S : Type 0} (R : S → S → Type 0) : Type 0 where
  pub here : (s : S) → R s s
  pub next : (s t u : S) → R s t → R t u → R s u

module _ {S : Type 0} {R : S → S → Type 0} (o : IsOrder R) where
  pub Moves-bind :
      {P Q : Type 0} (m : Exec S P) (f : P → Exec S Q)
      → Moves R m
      → ((p : P) → Moves R (f p))
      → Moves R (m >>= f)
  unfolding ◌>>=◌
  Moves-bind {P} {Q} m f km kf = record {
    at = λ s. o.next s (m s).1 _ (km.at s) (go (m s).0 (m s).1);
  }
    where
      go : (r : Result P) (s : S) → R s (continue r f s).1
      go (ok p) s = (kf p).at s
      go exited s = o.here s
      go aborted s = o.here s
      go threw s = o.here s

  pub Moves-for_each :
      {X : Type 0} (xs : List X) (body : X → Exec S (Unit {0}))
      → ((x : X) → Moves R (body x))
      → Moves R (for_each xs body)
  unfolding for_each
  Moves-for_each [] body k = record { at = o.here }
  Moves-for_each (x ∷ xs) body k =
      Moves-bind (body x) (λ _. for_each xs body) (k x) (λ _. Moves-for_each xs body k)

-- Code goes on from a step that returns.
pub bind_ok :
    {S Q R : Type 0} (m : Exec S Q) (f : Q → Exec S R) {s t : S} {q : Q}
    → m s ≡ (ok q, t)
    → (m >>= f) s ≡ f q t
unfolding ◌>>=◌
bind_ok m f e = ap (λ r. continue r.0 f r.1) e
