-- ===== src/Server/Send/Frame.antt =====
-- The senders of src-cpp/server/server.cc change the sockets and the counters, and never `*cs`.
use chain_replication.Base.{
  ◌≡◌, refl, ◌∙◌, Bool, true, false, Option, none, some, arith, if◌then◌else◌,
}
use chain_replication.Exec.{Exec, done, expect, require, ◌>>=◌}
use chain_replication.Exec.Rules.{Moves, IsOrder, Moves-bind}
use chain_replication.Proto.{Request, RequestType, transfer_to, Acknowledge, Address, Reply}
use chain_replication.Wire.{Wire}
use chain_replication.Server.State.{ChainServer, Process, on_wire, asks}
use chain_replication.Server.Send.{
  if_server_crash, count_and_crash, forward_request, send_reply, reply_to_client, sendback_ack,
  forward_transfer_to_downstream,
}

module _ {A : Type 0} where
  abbrev pub SameServer : Process A → Process A → Type 0
  SameServer p q = q.server ≡ p.server

  pub SameServer-order : IsOrder SameServer
  SameServer-order = record { here = λ p. refl; next = λ p q r e g. g ∙ e }

  abbrev pub Keeps : {Q : Type 0} → Exec (Process A) Q → Type 0
  Keeps m = Moves SameServer m

  pub Keeps-on_wire : {Q : Type 0} (m : Exec (Wire A) Q) → Keeps (on_wire m)
  Keeps-on_wire m = record { at = λ p. refl }

  pub Keeps-asks : {Q : Type 0} (g : ChainServer A → Q) → Keeps (asks g)
  Keeps-asks g = record { at = λ p. refl }

  pub Keeps-done : Keeps done
  Keeps-done = record { at = λ p. refl }

  pub Keeps-expect : {Q : Type 0} (o : Option Q) → Keeps (expect o)
  Keeps-expect none = record { at = λ p. refl }
  Keeps-expect (some q) = record { at = λ p. refl }

  pub Keeps-require : (b : Bool) → Keeps (require b)
  Keeps-require true = record { at = λ p. refl }
  Keeps-require false = record { at = λ p. refl }

  pub Keeps-bind :
      {P Q : Type 0} (m : Exec (Process A) P) (g : P → Exec (Process A) Q)
      → Keeps m
      → ((x : P) → Keeps (g x))
      → Keeps (m >>= g)
  Keeps-bind m g = Moves-bind SameServer-order m g

  pub Keeps-if :
      {Q : Type 0} (b : Bool) (m n : Exec (Process A) Q)
      → Keeps m
      → Keeps n
      → Keeps (if b then m else n)
  Keeps-if true m n h k = h
  Keeps-if false m n h k = k

  pub if_server_crash-Keeps : Keeps if_server_crash
  unfolding if_server_crash
  if_server_crash-Keeps = record { at = λ p. ground arith }

  pub ruleset frame_rules = (
    Keeps-on_wire, Keeps-asks, Keeps-done, Keeps-expect, Keeps-require, Keeps-bind, Keeps-if,
    if_server_crash-Keeps,
  )

  count_and_crash-Keeps : (b : Bool) → Keeps (count_and_crash b)
  unfolding count_and_crash
  count_and_crash-Keeps true = search frame_rules
  count_and_crash-Keeps false = search frame_rules

  pub forward_request-Keeps : (req : Request A) → Keeps (forward_request req)
  unfolding forward_request
  forward_request-Keeps req = search (frame_rules, count_and_crash-Keeps)

  pub sendback_ack-Keeps : (ack : Acknowledge) → Keeps (sendback_ack ack)
  unfolding sendback_ack
  sendback_ack-Keeps ack = search (frame_rules, count_and_crash-Keeps)

  send_reply-Keeps :
      (t : RequestType) (client : Address) (reply : Reply A) → Keeps (send_reply t client reply)
  unfolding send_reply
  send_reply-Keeps transfer_to client reply = search frame_rules
  send_reply-Keeps _ client reply = search frame_rules

  pub reply_to_client-Keeps : (req : Request A) → Keeps (reply_to_client req)
  unfolding reply_to_client
  reply_to_client-Keeps req = search (frame_rules, send_reply-Keeps)

  pub forward_transfer_to_downstream-Keeps :
      (req : Request A) → Keeps (forward_transfer_to_downstream req)
  unfolding forward_transfer_to_downstream
  forward_transfer_to_downstream-Keeps req = search frame_rules depth 8
