-- ===== src/Server/Validity/Messages/Sending.antt =====
-- The thread of src-cpp/server/server.cc that sends the history of a tail keeps the invariant, wherever
-- it stops.
use chain_replication.Base.{◌+◌, refl, Bool, true, false, List, [], ◌∷◌}
use chain_replication.Exec.{pure, modify}
use chain_replication.Proto.{ExtendMsg}
use chain_replication.Proto.Float.{FloatOps}
use chain_replication.Server.State.{updates}
use chain_replication.Server.Send.Frame.{Keeps, Keeps-bind, Keeps-if, frame_rules}
use chain_replication.Server.Extend.{send_extend, send_and_count, send_each, hand_over_tail}
use chain_replication.Server.Dispatch.{send_heartbeat}
use chain_replication.Server.Validity.Messages.{Safe, Safe-updates, safe_rules, Keeps-gets}

module _ {A : Type 0} where
  Keeps-pure : {Q : Type 0} (x : Q) → Keeps {A = A} (pure x)
  Keeps-pure x = record { at = λ p. refl }

  counted-Keeps :
      Keeps {A = A} (modify (λ p. record p { send_req_seq_extend = p.send_req_seq_extend + 1 }))
  counted-Keeps = record { at = λ p. refl }

  send_extend-Keeps : (m : ExtendMsg A) → Keeps (send_extend m)
  unfolding send_extend
  send_extend-Keeps m = search frame_rules

  pub send_and_count-Keeps : (m : ExtendMsg A) → Keeps (send_and_count m)
  unfolding send_and_count
  send_and_count-Keeps m =
      search (frame_rules, Keeps-pure, counted-Keeps, send_extend-Keeps) depth 8

  send_each-Keeps : (ms : List (ExtendMsg A)) → Keeps (send_each ms)
  unfolding send_each
  send_each-Keeps [] = Keeps-pure true
  send_each-Keeps (m ∷ ms) =
      Keeps-bind (send_and_count m) _ (send_and_count-Keeps m)
        (λ b. Keeps-if b _ _ (send_each-Keeps ms) (Keeps-pure false))

  pub send_heartbeat-Keeps : Keeps {A = A} send_heartbeat
  unfolding send_heartbeat
  send_heartbeat-Keeps = search (frame_rules, Keeps-gets) depth 8

module _ {A : Type 0} ⦃f : FloatOps A⦄ where
  pub finished-Safe :
      (b : Bool) → Safe {A = A} (updates (λ s. record s { finish_sending_hist = b }))
  finished-Safe b = Safe-updates _ (λ s v. record {
    ordered = v.ordered;
    covered = v.covered;
    accounts_keyed = v.accounts_keyed;
    history_keyed = v.history_keyed;
    tail_waits = v.tail_waits;
  })

  handed_over-Safe : Safe {A = A} (
      updates
        (λ s. record s { extending_chain = false; finish_sending_hist = false; istail = false }))
  handed_over-Safe = Safe-updates _ (λ s v. record {
    ordered = v.ordered;
    covered = v.covered;
    accounts_keyed = v.accounts_keyed;
    history_keyed = v.history_keyed;
    tail_waits = λ t e. cc;
  })

  pub hand_over_tail-Safe : Safe {A = A} hand_over_tail
  unfolding hand_over_tail
  hand_over_tail-Safe =
      search (safe_rules, handed_over-Safe, send_each-Keeps, send_extend-Keeps) depth 12
