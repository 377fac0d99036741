-- ===== src/Config/Clients/Draws.antt =====
-- The random choices of read_config_client in src-cpp/client/client.cc: which type a request gets,
-- and after how many replies a client drops one.
use chain_replication.Base.{
  ℕ, suc, ◌+◌, ◌-◌, ◌%◌, ◌^◌, ◌≤◌, ◌<◌, pos, ◌+ℤ◌, int_eq, int_lt, ◌≡◌, refl, ap, none, some, [],
  ◌∷◌, arith, ltb, if◌then◌else◌,
}
use chain_replication.Proto.{RequestType, query, deposit, withdraw}
use chain_replication.Exec.{ok, aborted, ◌>>=◌}
use chain_replication.Proto.Float.{FloatOps}
use chain_replication.Config.{Json, string_at}
use chain_replication.Config.Keys
use chain_replication.Config.Seeds.{Setup, draw, put, upper_bound, genreq_map}
use chain_replication.Config.Clients.{to_int, drop_divisor, drop_interval_from, read_drop_interval}

-- The type that a number below the sum of the weights stands for.
abbrev pub type_for : ℕ → ℕ → ℕ → RequestType
type_for prob_query prob_deposit r =
    if ltb r prob_query
    then query
    else if ltb r (prob_query + prob_deposit)
    then deposit
    else withdraw

pub add_pos : (a b : ℕ) → pos a +ℤ pos b ≡ pos (a + b)
unfolding ◌+ℤ◌
add_pos a b = ground arith

-- The weights of the three types as keys.
map_lem :
    (pq pd pw : ℕ)
    → 0 < pd
    → 0 < pw
    → genreq_map (pos pq) (pos pd) (pos pw)
      ≡ (pos pq, query) ∷ (pos (pq + pd), deposit) ∷ (pos (pq + pd + pw), withdraw) ∷ []
unfolding genreq_map int_eq int_lt
map_lem pq pd pw d w = rw (add_pos pq pd, add_pos (pq + pd) pw) (ground arith)

pub upper_bound_lem :
    (pq pd pw r : ℕ)
    → 0 < pd
    → 0 < pw
    → r < pq + pd + pw
    → upper_bound (pos r) (genreq_map (pos pq) (pos pd) (pos pw)) ≡ some (type_for pq pd r)
unfolding upper_bound int_lt
upper_bound_lem pq pd pw r d w h = rw (map_lem pq pd pw d w) (ground arith)

-- Without weight for deposits, their entry replaces that of the queries.
pub no_deposits_lem :
    (pq pw r : ℕ)
    → 0 < pw
    → r < pq
    → upper_bound (pos r) (genreq_map (pos pq) (pos 0) (pos pw)) ≡ some deposit
unfolding upper_bound genreq_map put int_lt int_eq
no_deposits_lem pq pw r w h = rw (add_pos pq 0, add_pos (pq + 0) pw) (ground arith)

divisor_lem : (n : ℕ) → 3 ≤ n → n < 2 ^ 31 → drop_divisor n ≡ suc (n - 3)
unfolding drop_divisor
divisor_lem n h k = omega arith

to_int_small : (n : ℕ) → n < 2 ^ 31 → to_int (n % 2 ^ 64) ≡ pos n
unfolding to_int
to_int_small n h = ground arith

pub drop_interval_bounds :
    (random n : ℕ)
    → 3 ≤ n
    → n < 2 ^ 31
    → (d : ℕ) × (drop_interval_from random n ≡ some (pos d)) × (2 ≤ d) × (d < n)
unfolding drop_interval_from
drop_interval_bounds random n h k =
    let d : ℕ = random % suc (n - 3) + 2 in
    let small : d < n = ground arith in
    (
      d,
      rw (divisor_lem n h k, drop_interval_from) (ap some (to_int_small d (omega arith))),
      omega arith,
      small,
    )

pub drop_interval_two : (random : ℕ) → drop_interval_from random 2 ≡ none
unfolding drop_interval_from
drop_interval_two random = refl

module _ {A : Type 0} ⦃f : FloatOps A⦄ (json : Json A) (rand : ℕ → ℕ) (from_int : ℕ → A) where
  -- The file asks for a random interval.
  pub record DropsAtRandom (root : json.Value) : Type 0 where
    pub config : json.Value
    pub config_here : json.get Keys.config root ≡ ok config
    pub word_here : string_at json Keys.udp_drop_interval config ≡ ok Keys.random

  -- Where the file asks for a random interval, a client of at least three and fewer than 2^31
  -- requests gets one of at least 2 and below the number of its requests, and one number is drawn.
  pub read_drop_interval_lem :
      (root : json.Value) (n : ℕ) (s : Setup A)
      → DropsAtRandom root
      → 3 ≤ n
      → n < 2 ^ 31
      → (d : ℕ) × (read_drop_interval json rand from_int root n s
          ≡ (ok (pos d), record s { drawn = s.drawn + 1 }))
        × (2 ≤ d)
        × (d < n)
  unfolding read_drop_interval draw ◌>>=◌
  read_drop_interval_lem root n s h low high =
      let (d, drawn, above, below) = drop_interval_bounds (rand s.drawn) n low high in
      (d, rw (h.config_here, h.word_here) (rw drawn), above, below)

  -- Where the file asks for a random interval, a client of two requests makes the reader divide by
  -- zero.
  pub read_drop_interval_two :
      (root : json.Value) (s : Setup A)
      → DropsAtRandom root
      → (read_drop_interval json rand from_int root 2 s).0 ≡ aborted
  unfolding read_drop_interval draw ◌>>=◌
  read_drop_interval_two root s h =
      rw (h.config_here, h.word_here) (rw (drop_interval_two (rand s.drawn)))
