-- ===== src/Config/Servers/Empty.antt =====
-- Code that puts nothing into the accounts, the history and the sent list of a server of
-- src-cpp/server/server.cc, however it ends.
pub mod Reading
use chain_replication.Base.{◌≡◌, if◌then◌else◌, Bool, true, false, Option, none, some, []}
use chain_replication.Exec.{Result, Exec, pure, modify, done, expect, require, ◌>>=◌, ◌>>◌}
use chain_replication.Exec.Rules.{Moves, IsOrder, Moves-bind}
use chain_replication.Server.State.{ChainServer, Process, accounts, asks, updates}
use chain_replication.Config.Keys
use chain_replication.Config.{call}

module _ {A : Type 0} where
  -- A server as it starts: no accounts, no history, nothing waiting, and no number taken.
  abbrev pub IsFresh : ChainServer A → Type 0
  IsFresh s =
      (accounts s ≡ []) × (s.processed_map ≡ []) × (s.sent_list ≡ []) × (s.bank_update_seq ≡ 0)

  abbrev Empty : Process A → Process A → Type 0
  Empty p q = IsFresh p.server → IsFresh q.server

  Empty-order : IsOrder Empty
  Empty-order = record { here = λ p v. v; next = λ p q r e g v. g (e v) }

  -- Code after which the server is empty if it was before.
  abbrev pub IsBare : {Q : Type 0} → Exec (Process A) Q → Type 0
  IsBare m = Moves Empty m

  Bare-bind :
      {P Q : Type 0} (m : Exec (Process A) P) (g : P → Exec (Process A) Q)
      → IsBare m
      → ((x : P) → IsBare (g x))
      → IsBare (m >>= g)
  Bare-bind m g = Moves-bind Empty-order m g

  Bare-if :
      {Q : Type 0} (b : Bool) (m n : Exec (Process A) Q)
      → IsBare m
      → IsBare n
      → IsBare (if b then m else n)
  Bare-if true m n h k = h
  Bare-if false m n h k = k

  Bare-call : {Q : Type 0} (r : Result Q) → IsBare (call r)
  Bare-call r = record { at = λ p v. v }

  Bare-pure : {Q : Type 0} (x : Q) → IsBare (pure x)
  Bare-pure x = record { at = λ p v. v }

  Bare-done : IsBare done
  Bare-done = record { at = λ p v. v }

  Bare-asks : {Q : Type 0} (g : ChainServer A → Q) → IsBare (asks g)
  Bare-asks g = record { at = λ p v. v }

  Bare-expect : {Q : Type 0} (o : Option Q) → IsBare (expect o)
  Bare-expect none = record { at = λ p v. v }
  Bare-expect (some x) = record { at = λ p v. v }

  Bare-require : (b : Bool) → IsBare (require b)
  Bare-require true = record { at = λ p v. v }
  Bare-require false = record { at = λ p v. v }

  Bare-updates :
      (e : ChainServer A → ChainServer A)
      → ((s : ChainServer A) → IsFresh s → IsFresh (e s))
      → IsBare (updates e)
  Bare-updates e h = record { at = λ p v. h p.server v }

  Bare-modify :
      (e : Process A → Process A)
      → ((p : Process A) → IsFresh p.server → IsFresh (e p).server)
      → IsBare (modify e)
  Bare-modify e h = record { at = λ p v. h p v }

  ruleset bare_rules = (
    Bare-bind, Bare-if, Bare-call, Bare-pure, Bare-done, Bare-asks, Bare-expect, Bare-require,
    Bare-updates, Bare-modify,
  )
