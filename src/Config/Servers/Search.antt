-- ===== src/Config/Servers/Search.antt =====
-- get_server_json_with_chainno and get_alive_server_json_with_chainno of src-cpp/server/server.cc
-- against a search in one list.
use chain_replication.Base.{
  ℕ, zero, suc, ◌+◌, ℤ, pos, int_eq, int_eq_iff, ◌≡◌, refl, ap, ◌∙◌, Option, none, some, List, [],
  ◌∷◌, ◌++◌, All, length, get_elem?, arith, if◌then◌else◌, Bool-cases, inl, inr, Option-cases,
  false,
}
use chain_replication.Exec.{ok, ◌>>=◌}
use chain_replication.Config.{Json, int_at}
use chain_replication.Config.Keys
use chain_replication.Config.Arrays.{ElementsFrom, IsArray}
use chain_replication.Config.Servers.{
  server_from, get_alive_server_json_with_chainno, get_server_json_with_chainno,
}

-- Values under their numbers, and the first with a number.
module _ {V : Type 0} where
  abbrev pub unnumbered : List (ℤ × V) → List V
  unnumbered [] = []
  unnumbered ((n, v) ∷ xs) = v ∷ unnumbered xs

  unfoldable pub first_with : ℤ → List (ℤ × V) → Option V
  first_with z [] = none
  first_with z ((n, v) ∷ xs) = if int_eq n z then some v else first_with z xs

  abbrev or_later : Option V → Option V → Option V
  or_later (some v) o = some v
  or_later none o = o

  first_with-append :
      (z : ℤ) (xs ys : List (ℤ × V))
      → first_with z (xs ++ ys) ≡ or_later (first_with z xs) (first_with z ys)
  unfolding first_with
  first_with-append z [] ys = refl
  first_with-append z ((n, v) ∷ xs) ys = ground (arith, first_with-append z xs ys)

  abbrev pub numbered : ℕ → List V → List (ℤ × V)
  numbered n [] = []
  numbered n (v ∷ vs) = (pos n, v) ∷ numbered (suc n) vs

  pub unnumbered-numbered : (n : ℕ) (vs : List V) → unnumbered (numbered n vs) ≡ vs
  unnumbered-numbered n [] = refl
  unnumbered-numbered n (v ∷ vs) = ap (◌∷◌ v) (unnumbered-numbered (suc n) vs)

  pub first_with-numbered :
      (n k : ℕ) (vs : List V) → first_with (pos (n + k)) (numbered n vs) ≡ get_elem? vs k
  unfolding first_with
  first_with-numbered n k [] = refl
  first_with-numbered n zero (v ∷ vs) = ground (arith, int_eq_iff (pos n) (pos (n + 0)))
  first_with-numbered n (suc k) (v ∷ vs) = rw other (
      ap (λ m. first_with (pos m) (numbered (suc n) vs)) (omega arith)
      ∙ first_with-numbered (suc n) k vs)
    where
      other : int_eq (pos n) (pos (n + suc k)) ≡ false
      other = ground (arith, int_eq_iff (pos n) (pos (n + suc k)))

module _ {A : Type 0} (json : Json A) where
  -- Each value has its number.
  abbrev pub HaveNumbers : List (ℤ × json.Value) → Type 0
  HaveNumbers = All (λ x. int_at json Keys.chainno x.1 ≡ ok x.0)

  module _ {S : Type 0} where
    server_from_lem :
        (i : ℕ) (list : json.Value) (xs : List (ℤ × json.Value)) (z : ℤ) (s : S)
        → ElementsFrom json i list (unnumbered xs)
        → HaveNumbers xs
        → server_from json (length (unnumbered xs)) i list z s ≡ (ok (first_with z xs), s)
    unfolding server_from first_with ◌>>=◌
    server_from_lem i list [] z s e h = refl
    server_from_lem i list ((n, v) ∷ xs) z s e h =
        rw (e.0, h.0)
          (elim (Bool-cases (int_eq n z)) [
            | inl here ↦ rw here
            | inr later ↦ rw later (server_from_lem (suc i) list xs z s e.1 h.1)
          ])

    search_lem :
        {list : json.Value} (xs : List (ℤ × json.Value)) (z : ℤ) (s : S)
        → IsArray json list (unnumbered xs)
        → HaveNumbers xs
        → server_from json (json.size list) 0 list z s ≡ (ok (first_with z xs), s)
    search_lem {list} xs z s a h =
        ap (λ n. server_from json n 0 list z s) a.size ∙ server_from_lem 0 list xs z s a.elements h

    pub get_alive_lem :
        {list : json.Value} (xs : List (ℤ × json.Value)) (z : ℤ) (s : S)
        → IsArray json list (unnumbered xs)
        → HaveNumbers xs
        → get_alive_server_json_with_chainno json list z s ≡ (ok (first_with z xs), s)
    unfolding get_alive_server_json_with_chainno
    get_alive_lem xs z s a h = search_lem xs z s a h

    -- On two lists of servers that have numbers, the search for a number in the one and then in
    -- the other finds the first server with this number in the two lists together.
    pub get_server_json_with_chainno_lem :
        {alive extend : json.Value} (xs ys : List (ℤ × json.Value)) (z : ℤ) (s : S)
        → IsArray json alive (unnumbered xs)
        → IsArray json extend (unnumbered ys)
        → HaveNumbers xs
        → HaveNumbers ys
        → get_server_json_with_chainno json alive extend z s ≡ (ok (first_with z (xs ++ ys)), s)
    unfolding get_server_json_with_chainno ◌>>=◌
    get_server_json_with_chainno_lem {alive} {extend} xs ys z s a b h k =
        rw (search_lem xs z s a h) (
          rw (first_with-append z xs ys) (elim (Option-cases (first_with z xs)) [
            | inl missing ↦ rw missing (search_lem ys z s b k)
            | inr (v, here) ↦ rw here
          ]))

    -- A server that the search among those of the chain finds is found by the other search too.
    pub found_alive :
        (alive extend : json.Value) (z : ℤ) (w : json.Value) (s : S)
        → get_alive_server_json_with_chainno json alive z s ≡ (ok (some w), s)
        → get_server_json_with_chainno json alive extend z s ≡ (ok (some w), s)
    unfolding get_alive_server_json_with_chainno get_server_json_with_chainno ◌>>=◌
    found_alive alive extend z w s h = rw h
