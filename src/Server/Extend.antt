-- ===== src/Server/Extend.antt =====
-- Chain extension: the current tail's thread `send_req_to_extend_server`, the new server's
-- `receive_extend_msg`, and the two notices of the master, of src-cpp/server/server.cc.
pub mod Replay
pub mod Handover
pub mod NewHead
use chain_replication.Base.{
  ℕ, ◌+◌, Bool, true, false, none, some, List, [], ◌∷◌, map, ltb, is_empty, if◌then◌else◌,
}
use chain_replication.Base.Map.{Map, insert}
use chain_replication.Exec.{Exec, pure, done, gets, modify, expect, require, ◌>>=◌, ◌>>◌}
use chain_replication.Proto.{
  Address, default_address, Request, AccountInfo, ExtendMsg, ExtendType, account, history, sent,
  fin, start, MessageType, extend_msg_sub, extend_finish_sub,
}
use chain_replication.Proto.Float.{FloatOps}
use chain_replication.Wire.{send_msg_tcp}
use chain_replication.Server.State.{
  ChainServer, Account, Process, on_wire, asks, updates, accounts, with_accounts,
}
use chain_replication.Server.History.{insert_processed_list}
use chain_replication.Server.Send.{if_server_crash}
use chain_replication.Server.Update.{is_newreq, replies}

module _ {A : Type 0} where
  unfoldable pub receive_extend_server : Address → Exec (Process A) (Unit {0})
  unfolding ◌>>=◌
  receive_extend_server extend_addr = do
    idle ← asks (λ s. is_empty s.sent_list)
    require idle
    updates (λ s. record s {
      extending_chain = true;
      finish_sending_hist = false;
      succ_server_addr = extend_addr;
    })
    modify (λ p. record p { send_req_seq_extend = 0; extend_threads = p.extend_threads + 1 })

  abbrev pub extend_message : ExtendType → ExtendMsg A
  extend_message t = record {
    type = t;
    request = none;
    account = none;
    server_addr = default_address;
  }

  abbrev pub start_message : Address → ExtendMsg A
  start_message local_addr = record (extend_message start) { server_addr = local_addr }

  abbrev pub account_message : AccountInfo A → ExtendMsg A
  account_message a = record (extend_message account) { account = some a }

  abbrev pub history_message : Request A → ExtendMsg A
  history_message req = record (extend_message history) { request = some req }

  abbrev pub sent_message : Request A → ExtendMsg A
  sent_message req = record (extend_message sent) { request = some req }

  -- The copies that the thread makes under the lock, in the maps' order of iteration.
  unfoldable pub copy_accounts : Map (Account A) → List (AccountInfo A)
  copy_accounts [] = []
  copy_accounts ((_, a) ∷ m) =
      record { account_id = a.accountid; balance = a.balance } ∷ copy_accounts m

  unfoldable pub copy_requests : Map (Request A) → List (Request A)
  copy_requests [] = []
  copy_requests ((_, req) ∷ m) = req ∷ copy_requests m

  unfoldable pub send_extend : ExtendMsg A → Exec (Process A) Bool
  unfolding ◌>>=◌
  send_extend msg = do
    succ_server_addr ← asks (λ s. s.succ_server_addr)
    on_wire (send_msg_tcp succ_server_addr MessageType.extend_msg (extend_msg_sub msg))

  -- A message that arrived is counted, and may be the one to crash after; `false` gives up.
  unfoldable pub send_and_count : ExtendMsg A → Exec (Process A) Bool
  unfolding ◌>>=◌
  send_and_count msg = do
    send_res ← send_extend msg
    if send_res
        then (do
          modify (λ p. record p { send_req_seq_extend = p.send_req_seq_extend + 1 })
          if_server_crash
          pure true)
        else pure false

  unfoldable pub send_each : List (ExtendMsg A) → Exec (Process A) Bool
  unfolding ◌>>=◌
  send_each [] = pure true
  send_each (msg ∷ msgs) = do
    send_res ← send_and_count msg
    if send_res then send_each msgs else pure false

  -- The last block of the thread, under the lock: the requests that came in meanwhile, then `FIN`.
  unfoldable pub hand_over_tail : Exec (Process A) (Unit {0})
  unfolding ◌>>=◌
  hand_over_tail = do
    sent_list ← asks (λ s. s.sent_list)
    all_sent ← send_each (map sent_message sent_list)
    if all_sent
        then (do
          send_res ← send_extend (extend_message fin)
          if send_res
              then (updates (λ s. record s {
                extending_chain = false;
                finish_sending_hist = false;
                istail = false;
              }))
              else done)
        else done

  -- What the thread sends between its two locked blocks: `START`, the accounts and the history.
  unfoldable pub send_history : List (AccountInfo A) → List (Request A) → Exec (Process A) Bool
  unfolding ◌>>=◌
  send_history account_map_copy processed_map_copy = do
    local_addr ← asks (λ s. s.local_addr)
    started ← send_and_count (start_message local_addr)
    if started
        then (do
          all_accounts ← send_each (map account_message account_map_copy)
          if all_accounts then send_each (map history_message processed_map_copy) else pure false)
        else pure false

  unfoldable pub send_req_to_extend_server : Exec (Process A) (Unit {0})
  unfolding ◌>>=◌
  send_req_to_extend_server = do
    account_map_copy ← asks (λ s. copy_accounts (accounts s))
    processed_map_copy ← asks (λ s. copy_requests s.processed_map)
    all_sent ← send_history account_map_copy processed_map_copy
    if all_sent
        then (do updates (λ s. record s { finish_sending_hist = true }); hand_over_tail)
        else done

  unfoldable pub extending_server_fail : Exec (Process A) (Unit {0})
  extending_server_fail = updates (λ s. record s {
    extending_chain = false;
    finish_sending_hist = false;
    sent_list = [];
    istail = true;
  })

  unfoldable pub create_account : AccountInfo A → Exec (Process A) (Unit {0})
  unfolding ◌>>=◌
  create_account info = do
    inserted ← asks (λ s.
        insert info.account_id (record { accountid = info.account_id; balance = info.balance })
          (accounts s))
    updates (λ s. with_accounts s inserted.0)
    require inserted.1

  -- `if (seq > bank_update_seq_) bank_update_seq_ = seq;`
  abbrev pub raise_seq : ℕ → ChainServer A → ChainServer A
  raise_seq n s = if ltb s.bank_update_seq n then record s { bank_update_seq = n } else s

module _ {A : Type 0} ⦃f : FloatOps A⦄ where
  unfoldable pub receive_sent : Request A → Exec (Process A) (Unit {0})
  unfolding ◌>>=◌
  receive_sent request = do
    updates (raise_seq request.bank_update_seq)
    req ← replies request
    if is_newreq req.check_result then updates (insert_processed_list req) else done

  unfoldable pub receive_fin : Exec (Process A) (Unit {0})
  unfolding ◌>>=◌
  receive_fin = do
    updates (λ s. record s { istail = true })
    notice ← asks (λ s. record { bank_id = s.bank_id; server_addr = s.local_addr })
    master_addr ← gets (λ p. p.master_addr)
    on_wire (send_msg_tcp master_addr MessageType.extend_finish (extend_finish_sub notice))
    done

  unfoldable pub receive_extend_msg : ExtendMsg A → Exec (Process A) (Unit {0})
  unfolding ◌>>=◌
  receive_extend_msg msg = elim msg.type [
    | start ↦ updates (λ s. record s {
      processed_map = [];
      bank = record s.bank { account_map = [] };
      bank_update_seq = 0;
      pre_server_addr = msg.server_addr;
    })
    | account ↦ (do info ← expect msg.account; create_account info)
    | history ↦ (do
      request ← expect msg.request
      updates (raise_seq request.bank_update_seq)
      updates (insert_processed_list request))
    | sent ↦ (do request ← expect msg.request; receive_sent request)
    | fin ↦ receive_fin
  ]
