-- ===== src/Server/Validity/Messages.antt =====
-- Code of src-cpp/server/server.cc that keeps the invariant of a server however it ends, and the
-- handlers of what the master says of a crash.
pub mod Erasure
pub mod Extension
pub mod Joining
pub mod Sending
pub mod Serve
pub mod Reach
use chain_replication.Base.Map.{Map, assign}
use chain_replication.Base.{ℕ, String, if◌then◌else◌, refl, sym, subst, Bool, true, false, List}
use chain_replication.Exec.{Exec, gets, for_each, ◌>>=◌}
use chain_replication.Exec.Rules.{Moves, IsOrder, Moves-bind, Moves-for_each}
use chain_replication.Proto.{Address, Request, Reqseq, Notify}
use chain_replication.Proto.Float.{FloatOps}
use chain_replication.Server.State.{ChainServer, Process, updates}
use chain_replication.Server.Send.Frame.{
  Keeps, Keeps-on_wire, Keeps-asks, Keeps-done, Keeps-expect, Keeps-require, if_server_crash-Keeps,
  frame_rules, SameServer-order, forward_request-Keeps, forward_transfer_to_downstream-Keeps,
}
use chain_replication.Server.Reconfigure.{
  to_be_head, receive_new_preserver, forward_after, receive_new_succserver, forward_to_bank,
  handle_new_head,
}
use chain_replication.Server.Validity.{IsValid}

module _ {A : Type 0} where
  forward_after-Keeps : (n : ℕ) (x : Request A) → Keeps (forward_after n x)
  unfolding forward_after
  forward_after-Keeps n x = search (frame_rules, forward_request-Keeps)

  forward_to_bank-Keeps : (bank_id : String) (x : Request A) → Keeps (forward_to_bank bank_id x)
  unfolding forward_to_bank
  forward_to_bank-Keeps bank_id x = search (frame_rules, forward_transfer_to_downstream-Keeps)

  Keeps-for_each :
      {X : Type 0} (xs : List X) (body : X → Exec (Process A) (Unit {0}))
      → ((x : X) → Keeps (body x))
      → Keeps (for_each xs body)
  Keeps-for_each xs body k = Moves-for_each SameServer-order xs body k

  Keeps-gets : {Q : Type 0} (g : Process A → Q) → Keeps (gets g)
  Keeps-gets g = record { at = λ p. refl }

module _ {A : Type 0} ⦃f : FloatOps A⦄ where
  abbrev Holds : Process A → Process A → Type 0
  Holds p q = IsValid p.server → IsValid q.server

  Holds-order : IsOrder Holds
  Holds-order = record { here = λ p v. v; next = λ p q r e g v. g (e v) }

  -- Code after which the server is valid if it was before.
  abbrev Safe : {Q : Type 0} → Exec (Process A) Q → Type 0
  Safe m = Moves Holds m

  Safe-kept : {Q : Type 0} (m : Exec (Process A) Q) → Keeps m → Safe m
  Safe-kept m k = record { at = λ p v. subst IsValid (sym (k.at p)) v }

  Safe-updates :
      (e : ChainServer A → ChainServer A)
      → ((s : ChainServer A) → IsValid s → IsValid (e s))
      → Safe (updates e)
  Safe-updates e h = record { at = λ p v. h p.server v }

  Safe-bind :
      {P Q : Type 0} (m : Exec (Process A) P) (g : P → Exec (Process A) Q)
      → Safe m
      → ((x : P) → Safe (g x))
      → Safe (m >>= g)
  Safe-bind m g = Moves-bind Holds-order m g

  Safe-if :
      {Q : Type 0} (b : Bool) (m n : Exec (Process A) Q)
      → Safe m
      → Safe n
      → Safe (if b then m else n)
  Safe-if true m n h k = h
  Safe-if false m n h k = k

  -- Fields that the invariant does not read.
  neighbours-IsValid :
      (h c : Bool) (a b : Address) (l : Map Address) (s : ChainServer A)
      → IsValid s
      → IsValid (record s {
        ishead = h;
        internal_crashing = c;
        pre_server_addr = a;
        succ_server_addr = b;
        bank_head_list = l;
      })
  neighbours-IsValid h c a b l s v = record {
    ordered = v.ordered;
    covered = v.covered;
    accounts_keyed = v.accounts_keyed;
    history_keyed = v.history_keyed;
    tail_waits = v.tail_waits;
  }

  to_be_head-Safe : Safe to_be_head
  unfolding to_be_head
  to_be_head-Safe = Safe-updates _ (λ s v. neighbours-IsValid true _ _ _ _ s v)

  crashing-Safe : (c : Bool) → Safe (updates (λ s. record s { internal_crashing = c }))
  crashing-Safe c = Safe-updates _ (λ s v. neighbours-IsValid _ c _ _ _ s v)

  before-Safe :
      (a : Address)
      → Safe (updates (λ s. record s { internal_crashing = true; pre_server_addr = a }))
  before-Safe a = Safe-updates _ (λ s v. neighbours-IsValid _ true a _ _ s v)

  behind-Safe : (b : Address) → Safe (updates (λ s. record s { succ_server_addr = b }))
  behind-Safe b = Safe-updates _ (λ s v. neighbours-IsValid _ _ _ b _ s v)

  heads-Safe :
      (k : String) (a : Address)
      → Safe (updates (λ s. record s { bank_head_list = assign k a s.bank_head_list }))
  heads-Safe k a = Safe-updates _ (λ s v. neighbours-IsValid _ _ _ _ _ s v)

  ruleset safe_rules = (
    Safe-bind, Safe-if, Safe-kept, crashing-Safe, Keeps-on_wire, Keeps-asks, Keeps-done,
    Keeps-expect, Keeps-require, if_server_crash-Keeps,
  )

  receive_new_preserver-Safe : (a : Address) → Safe (receive_new_preserver a)
  unfolding receive_new_preserver
  receive_new_preserver-Safe a = search (safe_rules, before-Safe, Keeps-gets) depth 10

  receive_new_succserver-Safe : (r : Reqseq) → Safe (receive_new_succserver r)
  unfolding receive_new_succserver
  receive_new_succserver-Safe r =
      search (safe_rules, behind-Safe, Keeps-for_each, forward_after-Keeps) depth 12

  handle_new_head-Safe : (n : Notify) → Safe (handle_new_head n)
  unfolding handle_new_head
  handle_new_head-Safe n =
      search (safe_rules, heads-Safe, Keeps-for_each, forward_to_bank-Keeps) depth 12
