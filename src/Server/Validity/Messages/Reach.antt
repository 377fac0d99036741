-- ===== src/Server/Validity/Messages/Reach.antt =====
-- The states that a server of src-cpp/server/server.cc reaches: it reads its configuration, and goes on by
-- messages from its two loops, by heartbeats and by the thread that sends its history.
use chain_replication.Config.{Json}
use chain_replication.Config.Servers.{read_config_server}
use chain_replication.Config.Servers.Empty.{IsFresh}
use chain_replication.Config.Servers.Empty.Reading.{read_config_server-IsBare}
use chain_replication.Base.{ℕ, ℤ, String, ◌≡◌, sym, subst, true, false, arith}
use chain_replication.Base.Map.{find}
use chain_replication.Exec.{◌>>=◌}
use chain_replication.Proto.{Message, ExtendMsg, request_type}
use chain_replication.Proto.Float.{FloatOps, SignLaws, zero_float, ◌<f◌}
use chain_replication.Wire.{count_receive}
use chain_replication.Server.State.{ChainServer, Process, on_wire}
use chain_replication.Server.Accounts.Balances.{balance_at}
use chain_replication.Server.Send.Frame.{if_server_crash-Keeps}
use chain_replication.Server.Send.{if_server_crash}
use chain_replication.Server.Dispatch.{
  handle_tcp_msg, handle_udp_msg, serve_tcp, serve_udp, send_heartbeat,
}
use chain_replication.Server.Extend.{send_and_count, hand_over_tail}
use chain_replication.Server.Validity.{IsValid, Transfers}
use chain_replication.Server.Validity.Sequence.{Between}
use chain_replication.Server.Validity.Ledger.{AccountsKeyed}
use chain_replication.Server.History.{history_key}
use chain_replication.Base.Map.Keyed.{IsKeyed}
use chain_replication.Server.Validity.Requests.{receive_request-IsValid}
use chain_replication.Server.Validity.Messages.{crashing-Safe}
use chain_replication.Server.Validity.Messages.Erasure.{after_sends}
use chain_replication.Server.Validity.Messages.Sending.{
  send_heartbeat-Keeps, send_and_count-Keeps, finished-Safe, hand_over_tail-Safe,
}
use chain_replication.Server.Validity.Messages.Serve.{IsAdmissible, expected, dispatch-IsValid}

module _ {A : Type 0} ⦃f : FloatOps A⦄ where
  -- A step of the process.
  pub data Step (p : Process A) : Process A → Type 0 where
    tcp : (msg : Message A) → IsAdmissible msg p.server → Step p (serve_tcp msg p).1
    udp : (msg : Message A) → IsAdmissible msg p.server → Step p (serve_udp msg p).1
    heartbeat_sent : Step p (send_heartbeat p).1
    -- The thread that extends the chain, at any point between two messages: one message of the
    -- history, the flag after the last one, and the block under the lock.
    extension_sent : (m : ExtendMsg A) → Step p (send_and_count m p).1
    history_finished : Step p (record p { server = record p.server { finish_sending_hist = true } })
    tail_handed_over : Step p (hand_over_tail p).1

  pub data Reach (p : Process A) : Process A → Type 0 where
    here : Reach p p
    next : {q r : Process A} → Reach p q → Step q r → Reach p r

  IsAdmissible-same :
      (msg : Message A) (s t : ChainServer A) → t ≡ s → IsAdmissible msg s → IsAdmissible msg t
  IsAdmissible-same msg s t e a = subst (IsAdmissible msg) (sym e) a

  IsAdmissible-crashing :
      (msg : Message A) (s : ChainServer A)
      → IsAdmissible msg s
      → IsAdmissible msg (record s { internal_crashing = false })
  IsAdmissible-crashing msg s a = record {
    amount = a.amount;
    room = a.room;
    fair = a.fair;
    joining = a.joining;
  }

  module _ (laws : SignLaws f) where
    handle_tcp_msg-IsValid :
        (msg : Message A) (p : Process A)
        → IsAdmissible msg p.server
        → IsValid p.server
        → IsValid (handle_tcp_msg msg p).1.server
    unfolding handle_tcp_msg ◌>>=◌
    handle_tcp_msg-IsValid msg p a v =
        after_sends if_server_crash _ (on_wire count_receive p).1 if_server_crash-Keeps v (λ _ q e.
          dispatch-IsValid laws msg _
            (IsAdmissible-crashing msg q.server (IsAdmissible-same msg p.server q.server e a))
            ((crashing-Safe false).at q (subst IsValid (sym e) v)))

    handle_udp_msg-IsValid :
        (msg : Message A) (p : Process A)
        → IsAdmissible msg p.server
        → IsValid p.server
        → IsValid (handle_udp_msg msg p).1.server
    unfolding handle_udp_msg ◌>>=◌
    handle_udp_msg-IsValid msg p a v =
        elim msg.type as (λ t. IsValid (handle_udp_msg (record msg { type = t }) p).1.server) [
          | request_type ↦ expected msg.request _ (on_wire count_receive p).1 v (λ x e.
              after_sends if_server_crash _ (on_wire count_receive p).1 if_server_crash-Keeps v
                (λ _ q s.
                  receive_request-IsValid laws x (a.amount x e) q
                    (IsAdmissible-same msg p.server q.server s a).room (subst IsValid (sym s) v)))
          | _ ↦ v
        ]

    Step-IsValid : {p q : Process A} → Step p q → IsValid p.server → IsValid q.server
    unfolding serve_tcp serve_udp
    Step-IsValid {p} (tcp msg a) v = handle_tcp_msg-IsValid msg p a v
    Step-IsValid {p} (udp msg a) v = handle_udp_msg-IsValid msg p a v
    Step-IsValid {p} heartbeat_sent v = subst IsValid (sym (send_heartbeat-Keeps.at p)) v
    Step-IsValid {p} (extension_sent m) v = subst IsValid (sym ((send_and_count-Keeps m).at p)) v
    Step-IsValid {p} history_finished v = (finished-Safe true).at p v
    Step-IsValid {p} tail_handed_over v = hand_over_tail-Safe.at p v

    started-IsValid : (s : ChainServer A) → IsFresh s → IsValid s
    unfolding balance_at find
    started-IsValid s e = record {
      ordered = subst (Between 0 s.bank_update_seq) (sym e.2) (omega arith);
      covered = λ j. subst (λ m. balance_at j m <f zero_float ≡ false) (sym e.0) laws.zero_sign;
      accounts_keyed = subst AccountsKeyed (sym e.0) tt;
      history_keyed = subst (IsKeyed history_key) (sym e.1) tt;
      tail_waits = λ _ _. subst Transfers (sym e.2) tt;
    }

    reached_again : {p q : Process A} → IsFresh p.server → Reach p q → IsValid q.server
    reached_again {p} e here = started-IsValid p.server e
    reached_again e (next r s) = Step-IsValid s (reached_again e r)

    -- A server that is empty reads its configuration, whatever the file holds and however the
    -- reading ends. It goes on by any number of messages from the two loops, heartbeats, and sends and
    -- the last block of the thread that extends the chain, in any order and on any network, each of
    -- which may end in an exit, a failed assertion or an exception. Every message has amounts and
    -- balances that are not negative, comes while a number is left, and brings the history of another
    -- server only to one with nothing waiting. Amounts have the signs that IEEE 754 gives. Then every
    -- state that the server reaches keeps the invariant: the waiting requests have rising numbers up
    -- to the last one taken, no balance is negative, the two maps are keyed, and a tail that is not
    -- extending the chain has only transfers waiting.
    pub reached-IsValid :
        (json : Json A) (random : ℕ) (dir bankid : String) (chainno : ℤ) (p q : Process A)
        → IsFresh p.server
        → Reach (read_config_server json random dir bankid chainno p).1 q
        → IsValid q.server
    reached-IsValid json random dir bankid chainno p q e r =
        reached_again ((read_config_server-IsBare json random dir bankid chainno).at p e) r
