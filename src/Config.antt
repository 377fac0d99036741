-- ===== src/Config.antt =====
-- How the programs read their configuration: jsoncpp and the file system are a parameter of the
-- model, and src-cpp/common/common.h names the keys (Config/Keys).
pub mod Keys
pub mod Chains
pub mod Arrays
pub mod Described
pub mod Seeds
pub mod Clients
pub mod Agreement
pub mod Decimal
pub mod Servers
use chain_replication.Base.{ℕ, zero, suc, ℤ, String, Bool, Option, none, some}
use chain_replication.Exec.{Result, ok, exited, aborted, threw, Exec, pure, ◌>>=◌}
use chain_replication.Proto.{Address}

-- `Json::Value` with the calls that the readers make. A call may throw, and what it gives for a
-- value of another kind, or for a missing key, is the library's affair.
pub record Json (A : Type 0) : Type 1 where
  pub Value : Type 0
  -- The text of a file, if it opens; and the value of a text, if it parses.
  pub contents : String → Option String
  pub parse : String → Option Value
  -- `v[key]`, `v.isMember(key)`, `v.size()` and `v[i]`.
  pub get : String → Value → Result Value
  pub is_member : String → Value → Result Bool
  pub size : Value → ℕ
  pub at : ℕ → Value → Result Value
  pub as_string : Value → Result String
  pub as_int : Value → Result ℤ
  pub as_bool : Value → Result Bool
  -- `asDouble()`, as the `float` that `set_amount` stores.
  pub as_double : Value → Result A

-- A call of the library within code that changes a state.
abbrev pub call : {S R : Type 0} → Result R → Exec S R
call r s = (r, s)

-- `f(g(x))`, where either may throw.
abbrev pub and_then : {Q R : Type 0} → Result Q → (Q → Result R) → Result R
and_then (ok q) f = f q
and_then exited f = exited
and_then aborted f = aborted
and_then threw f = threw

module _ {A : Type 0} (json : Json A) where
  abbrev pub string_at : String → json.Value → Result String
  string_at key v = and_then (json.get key v) json.as_string

  abbrev pub int_at : String → json.Value → Result ℤ
  int_at key v = and_then (json.get key v) json.as_int

  abbrev pub bool_at : String → json.Value → Result Bool
  bool_at key v = and_then (json.get key v) json.as_bool

  abbrev pub double_at : String → json.Value → Result A
  double_at key v = and_then (json.get key v) json.as_double

  -- `a.set_ip(v["ip"].asString()); a.set_port(v["port"].asInt());`
  unfoldable pub address_at : {S : Type 0} → json.Value → Exec S Address
  unfolding ◌>>=◌
  address_at v = do
    ip ← call (string_at Keys.ip v)
    port ← call (int_at Keys.port v)
    pure (record { ip = ip; port = port })

  -- `for (i = 0; i < v.size(); i++) body(v[i]);`, where the body changes a local variable: the
  -- rounds left, and `i`.
  unfoldable pub fold_from :
      {S B : Type 0} → ℕ → ℕ → json.Value → (json.Value → B → Exec S B) → B → Exec S B
  unfolding ◌>>=◌
  fold_from zero i v body b = pure b
  fold_from (suc n) i v body b = do
    x ← call (json.at i v)
    b' ← body x b
    fold_from n (suc i) v body b'

  unfoldable pub fold_each :
      {S B : Type 0} → json.Value → (json.Value → B → Exec S B) → B → Exec S B
  unfolding fold_from
  fold_each v body b = fold_from (json.size v) 0 v body b

  -- The file of a name, as far as it opens and parses.
  unfoldable pub load : String → Option json.Value
  load dir = elim (json.contents dir) [ none ↦ none | some text ↦ json.parse text ]
