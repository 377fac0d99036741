-- ===== src/Config/Clients/Random.antt =====
-- The random requests of read_config_client in src-cpp/client/client.cc: each is well formed, and
-- no two have one id.
use Prim.Native.String.{◌++◌ as ◌<>◌}
use chain_replication.Base.{
  ℕ, zero, suc, ◌+◌, ◌%◌, ◌≤◌, ◌<◌, pos, succ, String, ◌≡◌, ◌≢◌, refl, sym, ◌∙◌, some, List, [],
  ◌∷◌, All, length, get_elem?, arith,
}
use chain_replication.Exec.{ok, ◌>>=◌}
use chain_replication.Proto.{Request}
use chain_replication.Proto.Float.{FloatOps}
use chain_replication.Config.{Json, string_at, int_at}
use chain_replication.Config.Keys
use chain_replication.Config.Arrays.{IsArray, element_at}
use chain_replication.Config.Decimal.{to_string}
use chain_replication.Config.Decimal.Dots.{joined_inj}
use chain_replication.Config.Seeds.{
  Setup, joined, amount_for, draw, draw_below, random_request, random_requests,
  read_random_requests, blank_request,
}
use chain_replication.Config.Clients.Draws.{type_for, add_pos, upper_bound_lem}

-- What the seed of a client asks for.
pub record Seed : Type 0 where
  pub accounts : ℕ
  pub max_amount : ℕ
  pub prob_query : ℕ
  pub prob_deposit : ℕ
  pub prob_withdraw : ℕ

abbrev pub weight : Seed → ℕ
weight s = s.prob_query + s.prob_deposit + s.prob_withdraw

pub record IsPossible (s : Seed) : Type 0 where
  pub some_account : 0 < s.accounts
  pub deposits : 0 < s.prob_deposit
  pub withdrawals : 0 < s.prob_withdraw

module _ {A : Type 0} ⦃f : FloatOps A⦄ (from_int : ℕ → A) where
  -- Request number `i + 1` of a client, to one of the banks `ids`.
  pub record IsGenerated (ids : List String) (clientid : String) (s : Seed) (i : ℕ) (r : Request A)
      : Type 0 where
    pub bank : (j : ℕ) × (get_elem? ids j ≡ some r.bank_id)
    pub account : (n : ℕ) × (n < s.accounts) × (r.account_id ≡ "account" <> to_string (pos (n + 1)))
    pub type : (n : ℕ) × (n < weight s) × (r.type ≡ type_for s.prob_query s.prob_deposit n)
    pub amount : (n : ℕ) × (n ≤ s.max_amount) × (r.amount ≡ amount_for r.type (from_int n))
    pub id : r.req_id ≡ joined r.bank_id clientid (to_string (pos (i + 1)))

  abbrev pub GeneratedFrom : List String → String → Seed → ℕ → List (Request A) → Type 0
  GeneratedFrom ids clientid s i [] = Unit
  GeneratedFrom ids clientid s i (r ∷ rs) =
      IsGenerated ids clientid s i r × GeneratedFrom ids clientid s (suc i) rs

  -- Two requests of the list have different ids.
  abbrev pub DistinctIds : List (Request A) → Type 0
  DistinctIds [] = Unit
  DistinctIds (r ∷ rs) = All (λ q. r.req_id ≢ q.req_id) rs × DistinctIds rs

  later_ids :
      (ids : List String) (clientid : String) (s : Seed) (i j : ℕ) (r : Request A)
      (rs : List (Request A))
      → i < j
      → IsGenerated ids clientid s i r
      → GeneratedFrom ids clientid s j rs
      → All (λ q. r.req_id ≢ q.req_id) rs
  later_ids ids clientid s i j r [] h g gs = tt
  later_ids ids clientid s i j r (q ∷ rs) h g gs = (
    λ same.
        let e : i + 1 ≡ j + 1 =
          joined_inj r.bank_id clientid q.bank_id clientid (i + 1) (j + 1)
            (sym g.id ∙ same ∙ gs.0.id) in
        absurd (omega arith),
    later_ids ids clientid s i (suc j) r rs (omega arith) g gs.1,
  )

  GeneratedFrom-DistinctIds :
      (ids : List String) (clientid : String) (s : Seed) (i : ℕ) (rs : List (Request A))
      → GeneratedFrom ids clientid s i rs
      → DistinctIds rs
  GeneratedFrom-DistinctIds ids clientid s i [] g = tt
  GeneratedFrom-DistinctIds ids clientid s i (r ∷ rs) g = (
    later_ids ids clientid s i (suc i) r rs (omega arith) g.0 g.1,
    GeneratedFrom-DistinctIds ids clientid s (suc i) rs g.1,
  )

  module _ (rand : ℕ → ℕ) (json : Json A) where
    abbrev AreIds : List json.Value → List String → Type 0
    AreIds [] [] = Unit
    AreIds (v ∷ vs) (k ∷ ks) = (string_at json Keys.bankid v ≡ ok k) × AreIds vs ks
    AreIds _ _ = ⊥

    -- `list` is an array of banks with these ids.
    pub record HasIds (list : json.Value) (ids : List String) : Type 0 where
      pub values : List json.Value
      pub array : IsArray json list values
      pub here : AreIds values ids

    id_at :
        (vs : List json.Value) (ids : List String) (j : ℕ)
        → AreIds vs ids
        → j < length vs
        → (v : json.Value) × (k : String) × (get_elem? vs j ≡ some v)
          × (get_elem? ids j ≡ some k)
          × (string_at json Keys.bankid v ≡ ok k)
    id_at [] ids j h lt = absurd (omega arith)
    id_at (v ∷ vs) [] j h lt = absurd h
    id_at (v ∷ vs) (k ∷ ks) zero h lt = (v, k, refl, refl, h.0)
    id_at (v ∷ vs) (k ∷ ks) (suc j) h lt = id_at vs ks j h.1 (omega arith)

    draw_lem :
        (m : ℕ) (s : Setup A)
        → 0 < m
        → draw_below rand (pos m) s ≡ (ok (rand s.drawn % m), record s { drawn = s.drawn + 1 })
    unfolding draw_below draw ◌>>=◌
    draw_lem zero s h = absurd (omega arith)
    draw_lem (suc m) s h = refl

    abbrev after : Setup A → Setup A
    after s = record s { drawn = s.drawn + 1 }

    random_request_lem :
        (list : json.Value) (ids : List String) (clientid : String) (seed : Seed) (i : ℕ)
        (s : Setup A)
        → (h : HasIds list ids) → 0 < length h.values
        → IsPossible seed
        → (r : Request A) × (t : Setup A) × (random_request rand from_int json clientid list
              (pos seed.accounts)
              (pos seed.max_amount)
              (pos seed.prob_query)
              (pos seed.prob_deposit)
              (pos seed.prob_withdraw)
              i
              s
            ≡ (ok r, t))
          × IsGenerated ids clientid seed i r
    unfolding random_request ◌>>=◌ succ
    random_request_lem list ids clientid seed i s h banks possible =
        let j : ℕ = rand s.drawn % json.size list in
        let below : j < length h.values = ground (arith, h.array.size) in
        let (v, k, v_at, k_at, named) = id_at h.values ids j h.here below in
        let n : ℕ = rand (after s).drawn % seed.accounts in
        let m : ℕ = rand (after (after s)).drawn % suc seed.max_amount in
        let t : ℕ = rand (after (after (after s))).drawn % weight seed in
        (
          record blank_request {
            bank_id = k;
            account_id = "account" <> to_string (pos (n + 1));
            req_id = joined k clientid (to_string (pos (i + 1)));
            amount = amount_for (type_for seed.prob_query seed.prob_deposit t) (from_int m);
            type = type_for seed.prob_query seed.prob_deposit t;
          },
          after (after (after (after s))),
          rw
              (
                draw_lem (json.size list) s (ground arith),
                element_at json list h.values j v h.array v_at,
                named,
                draw_lem seed.accounts (after s) possible.some_account,
                draw_lem (suc seed.max_amount) (after (after s)) (omega arith),
              )
              (rw
                (
                  add_pos seed.prob_query seed.prob_deposit,
                  add_pos (seed.prob_query + seed.prob_deposit) seed.prob_withdraw,
                )
                (rw (draw_lem (weight seed) (after (after (after s))) (ground arith)) (
                  rw (
                    upper_bound_lem seed.prob_query seed.prob_deposit seed.prob_withdraw t
                      possible.deposits possible.withdrawals (ground arith))))),
          record {
            bank = (j, k_at);
            account = (n, ground arith, refl);
            type = (t, ground arith, refl);
            amount = (m, ground arith, refl);
            id = refl;
          },
        )

    rounds_lem :
        (list : json.Value) (ids : List String) (clientid : String) (seed : Seed) (n i : ℕ)
        (s : Setup A)
        → (h : HasIds list ids) → 0 < length h.values
        → IsPossible seed
        → (rs : List (Request A)) × (t : Setup A) × (random_requests rand from_int json n i clientid
              list
              (pos seed.accounts)
              (pos seed.max_amount)
              (pos seed.prob_query)
              (pos seed.prob_deposit)
              (pos seed.prob_withdraw)
              s
            ≡ (ok rs, t))
          × (length rs ≡ n)
          × GeneratedFrom ids clientid seed i rs
    unfolding random_requests ◌>>=◌
    rounds_lem list ids clientid seed zero i s h banks possible = ([], s, refl, refl, tt)
    rounds_lem list ids clientid seed (suc n) i s h banks possible =
        let (r, t, first, generated) =
          random_request_lem list ids clientid seed i s h banks possible in
        let (rs, u, others, size, all) =
          rounds_lem list ids clientid seed n (suc i) t h banks possible in
        (r ∷ rs, u, rw first (rw others), omega arith, (generated, all))

    -- `v` asks for `n` requests by `seed`.
    pub record IsSeed (v : json.Value) (n : ℕ) (seed : Seed) : Type 0 where
      pub number : int_at json Keys.reqnum v ≡ ok (pos n)
      pub accounts : int_at json Keys.accountnum v ≡ ok (pos seed.accounts)
      pub max_amount : int_at json Keys.max_amount v ≡ ok (pos seed.max_amount)
      pub prob_query : int_at json Keys.prob_query v ≡ ok (pos seed.prob_query)
      pub prob_deposit : int_at json Keys.prob_deposit v ≡ ok (pos seed.prob_deposit)
      pub prob_withdraw : int_at json Keys.prob_withdraw v ≡ ok (pos seed.prob_withdraw)

    -- On a bank list that is not empty, with weights above 0 for deposits and withdrawals and at
    -- least one account, the reader makes as many requests as the seed asks for, whatever `rand()`
    -- gives. Each is to one of the banks and to one of the accounts, of a type that the weights
    -- allow, of an amount up to the largest one, and numbered in its id. No two have the same id.
    pub read_random_requests_lem :
        (list v : json.Value) (ids : List String) (clientid : String) (seed : Seed) (n : ℕ)
        (s : Setup A)
        → (h : HasIds list ids) → 0 < length h.values
        → IsPossible seed
        → IsSeed v n seed
        → (rs : List (Request A)) × (t : Setup A) × (read_random_requests rand from_int json
              clientid list v s
            ≡ (ok rs, t))
          × (length rs ≡ n)
          × GeneratedFrom ids clientid seed 0 rs
          × DistinctIds rs
    unfolding read_random_requests ◌>>=◌
    read_random_requests_lem list v ids clientid seed n s h banks possible asks =
        let (rs, t, runs, size, generated) =
          rounds_lem list ids clientid seed n 0 s h banks possible in
        (
          rs,
          t,
          rw
              (
                asks.number, asks.accounts, asks.max_amount, asks.prob_query, asks.prob_deposit,
                asks.prob_withdraw,
              )
              runs,
          size,
          generated,
          GeneratedFrom-DistinctIds ids clientid seed 0 rs generated,
        )
