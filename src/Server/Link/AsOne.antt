-- ===== src/Server/Link/AsOne.antt =====
-- A chain of two servers of src-cpp/server/server.cc, and a single server: an update goes to the head,
-- what the head sends to the tail, and the acknowledgement of the tail back to the head.
pub mod Step
pub mod Run
use chain_replication.Base.{
  ◌≡◌, sym, ap, ◌∙◌, Bool, true, false, none, Option, [], ◌∷◌, arith, u32_inc,
}
use chain_replication.Exec.{Exec, gets, expect, ◌>>=◌, ◌>>◌}
use chain_replication.Proto.{Request, RequestType, deposit, withdraw, transfer_to, Message}
use chain_replication.Proto.Float.{FloatOps}
use chain_replication.Server.State.{ChainServer, Process}
use chain_replication.Server.History.{update_request_reply}
use chain_replication.Server.Update.{is_newreq, is_transfer, receive_request, receive_ack}
use chain_replication.Server.Update.Effect.{numbered}
use chain_replication.Server.Validity.Ledger.{update_request_reply_frame}
use chain_replication.Server.Link.{Replicas}
use chain_replication.Server.Link.Answers.{answer_again}
use chain_replication.Server.Link.Round.{posted, ack_packet}
use chain_replication.Server.Link.Finish.{filed, filed_map, filed_again, finished, replied}
use chain_replication.Server.Link.Forward.{
  is_update, stamped, ready, forwarded, head_after, alike, seq_forwarded,
}

-- An update that one bank carries out alone.
abbrev pub is_local : RequestType → Bool
is_local deposit = true
is_local withdraw = true
is_local transfer_to = true
is_local _ = false

pub local_update :
    (t : RequestType) → is_local t ≡ true → (is_update t ≡ true) × (is_transfer t ≡ false)
local_update t l = ground arith

module _ {A : Type 0} ⦃f : FloatOps A⦄ where
  -- A round of the two, the head first. Each takes what the other sent last.
  abbrev newest : {X : Type 0} → (Message A → Option X) → Process A → Option X
  newest look p = elim p.wire.packets [ [] ↦ none | k ∷ ks ↦ look k.message ]

  abbrev on_head : {X : Type 0} → Exec (Process A) X → Exec (Process A × Process A) X
  on_head m s = let (r, p) = m s.0 in (r, (p, s.1))

  abbrev on_tail : {X : Type 0} → Exec (Process A) X → Exec (Process A × Process A) X
  on_tail m s = let (r, q) = m s.1 in (r, (s.0, q))

  unfoldable pub round : Request A → Exec (Process A × Process A) (Unit {0})
  unfolding ◌>>=◌
  round req = do
    on_head (receive_request req)
    sent ← gets (λ s. newest (λ m. m.request) s.0)
    req' ← expect sent
    on_tail (receive_request req')
    answer ← gets (λ s. newest (λ m. m.ack) s.1)
    ack ← expect answer
    on_head (receive_ack ack)

  -- The head once the acknowledgement has come, and the last server of a chain afterwards.
  abbrev head_at_end : Request A → Process A → Process A
  head_at_end req p = record p {
    server = record (filed true (forwarded req p) (head_after req p).server) { sent_list = [] };
    wire = (head_after req p).wire;
  }

  abbrev ready_for : Request A → Process A → Process A
  ready_for x q = record q { server = numbered x.bank_update_seq q.server }

  abbrev tail_at_end : Request A → Process A → Process A
  tail_at_end x q = record (replied x (ready_for x q)) {
    wire =
        posted (ack_packet q.server.pre_server_addr x.bank_update_seq)
          (replied x (ready_for x q)).wire;
  }

  module _ (req : Request A) (p : Process A) where
    -- What the head sends on.
    abbrev down : Request A
    down = forwarded req p

    down_lem : down ≡ record req {
      bank_update_seq = down.bank_update_seq;
      check_result = down.check_result;
      reply = down.reply;
    }
    down_lem =
        (update_request_reply_frame (stamped req p.server) (ready p).server).1
        ∙ ap
            (λ n. record req {
              bank_update_seq = n;
              check_result = down.check_result;
              reply = down.reply;
            })
            (sym (seq_forwarded req p))

    -- A replica that numbers the request itself answers it as one to which it was forwarded.
    number_again :
        (t : ChainServer A)
        → Replicas p.server t
        → update_request_reply (stamped req t) (numbered (u32_inc t.bank_update_seq) t)
          ≡ update_request_reply down (numbered down.bank_update_seq t)
    number_again t r =
        ap (λ n. update_request_reply (record req { bank_update_seq = n }) (numbered n t))
          (ap u32_inc r.same_seq ∙ sym (seq_forwarded req p))
        ∙ sym (
            answer_again (record req { bank_update_seq = down.bank_update_seq }) down.check_result
              down.reply (numbered down.bank_update_seq t))
        ∙ ap (λ v. update_request_reply v (numbered down.bank_update_seq t)) (sym down_lem)

    module _ (t : ChainServer A) (r : Replicas p.server t) (e : p.server.sent_list ≡ []) where
      -- The last server becomes a replica of the head again.
      finished-Replicas :
          Replicas (head_at_end req p).server (finished down (numbered down.bank_update_seq t))
      finished-Replicas = record {
        same_accounts = (alike req p t r).1;
        same_history =
            (λ i.
              filed_map (is_newreq ((alike req p t r).0 i).check_result) ((alike req p t r).0 i)
                (r.same_history i))
            ∙ sym (filed_again (stamped req p.server) (ready p).server e);
        same_sent = r.same_sent ∙ e;
        same_seq = seq_forwarded req p;
      }
