-- ===== src/Server/Validity/Messages/Joining.antt =====
-- `receive_extend_msg` of src-cpp/server/server.cc, and the notices of the master on an extension: what
-- a server takes in while it joins the chain keeps the invariant.
use chain_replication.Base.{
  ◌≡◌, refl, sym, subst, true, false, some, Option, none, [], arith, Bool-cases, inl, inr, is_empty,
}
use chain_replication.Base.Map.{insert}
use chain_replication.Exec.{Exec, expect, done, ◌>>=◌, ◌>>◌}
use chain_replication.Wire.{send_msg_tcp}
use chain_replication.Server.Send.Frame.{Keeps, frame_rules}
use chain_replication.Proto.{
  Address, Request, AccountInfo, ExtendMsg, account, history, sent, fin, start, ExtendFinish,
  extend_finish, extend_finish_sub,
}
use chain_replication.Proto.Float.{FloatOps, SignLaws, zero_float, ◌<f◌}
use chain_replication.Server.State.{Account, Process, on_wire, updates, accounts, with_accounts}
use chain_replication.Server.History.{insert_processed_list, update_request_reply}
use chain_replication.Server.Update.{is_newreq, replies}
use chain_replication.Server.Extend.{
  receive_extend_server, extending_server_fail, create_account, raise_seq, receive_sent,
  receive_fin, receive_extend_msg,
}
use chain_replication.Server.Validity.{IsValid}
use chain_replication.Server.Validity.Messages.{Safe, Safe-updates}
use chain_replication.Server.Validity.Messages.Extension.{
  extending-IsValid, raise_seq-IsValid, recorded-IsValid, created-IsValid, fresh-IsValid,
  tail-IsValid, answered-IsValid,
}

module _ {A : Type 0} ⦃f : FloatOps A⦄ where
  pub extending_server_fail-Safe : Safe {A = A} extending_server_fail
  unfolding extending_server_fail
  extending_server_fail-Safe = Safe-updates _ (λ s v. record {
    ordered = omega arith;
    covered = v.covered;
    accounts_keyed = v.accounts_keyed;
    history_keyed = v.history_keyed;
    tail_waits = λ _ _. tt;
  })

  pub receive_extend_server-Safe : (a : Address) → Safe {A = A} (receive_extend_server a)
  unfolding receive_extend_server ◌>>=◌
  receive_extend_server-Safe a = record {
    at = λ p v. elim (Bool-cases (is_empty p.server.sent_list)) [
      | inl e ↦ rw e (extending-IsValid a p.server v)
      | inr e ↦ rw e v
    ];
  }

  -- What a message of an extension may carry.
  pub record IsFair (m : ExtendMsg A) : Type 0 where
    pub balance :
        (info : AccountInfo A) → m.account ≡ some info → info.balance <f zero_float ≡ false
    pub amount : (x : Request A) → m.request ≡ some x → x.amount <f zero_float ≡ false

  abbrev keep_history : Request A → Exec (Process A) (Unit {0})
  keep_history x = updates (raise_seq x.bank_update_seq) >>= λ _. updates (insert_processed_list x)

  module _ (laws : SignLaws f) (p : Process A) (v : IsValid p.server)
      (e : p.server.sent_list ≡ []) where
    receive_sent-IsValid :
        (x : Request A) → x.amount <f zero_float ≡ false → IsValid (receive_sent x p).1.server
    unfolding receive_sent replies ◌>>=◌
    receive_sent-IsValid x a =
        elim (Bool-cases (
          is_newreq
            (update_request_reply x (raise_seq x.bank_update_seq p.server)).1.check_result)) [
              | inl n ↦ rw n (
                  recorded-IsValid _ _
                    (answered-IsValid laws x _ a (raise_seq-IsValid x.bank_update_seq p.server v)))
              | inr n ↦
                  rw n
                    (answered-IsValid laws x _ a (raise_seq-IsValid x.bank_update_seq p.server v))
            ]

    create_account-IsValid :
        (info : AccountInfo A)
        → info.balance <f zero_float ≡ false
        → IsValid (create_account info p).1.server
    unfolding create_account ◌>>=◌
    create_account-IsValid info b = subst IsValid (sym same) (created-IsValid info p.server b v)
      where
        made : Account A
        made = record { accountid = info.account_id; balance = info.balance }

        same :
            (create_account info p).1.server
            ≡ with_accounts p.server (insert info.account_id made (accounts p.server)).0
        same = ground arith

    receive_fin-IsValid : IsValid (receive_fin p).1.server
    unfolding receive_fin ◌>>=◌
    receive_fin-IsValid =
        subst IsValid (sym (announced.at (record p { server = record p.server { istail = true } })))
          (tail-IsValid p.server e v)
      where
        notice : ExtendFinish
        notice = record { bank_id = p.server.bank_id; server_addr = p.server.local_addr }

        announced :
            Keeps {A = A} (
              on_wire (send_msg_tcp p.master_addr extend_finish (extend_finish_sub notice)) >> done)
        announced = search frame_rules

    expected_account :
        (o : Option (AccountInfo A))
        → ((info : AccountInfo A) → o ≡ some info → info.balance <f zero_float ≡ false)
        → IsValid ((expect o >>= create_account) p).1.server
    unfolding ◌>>=◌
    expected_account none h = v
    expected_account (some info) h = create_account-IsValid info (h info refl)

    expected_request : (o : Option (Request A)) → IsValid ((expect o >>= keep_history) p).1.server
    unfolding ◌>>=◌
    expected_request none = v
    expected_request (some x) =
        recorded-IsValid x _ (raise_seq-IsValid x.bank_update_seq p.server v)

    expected_sent :
        (o : Option (Request A))
        → ((x : Request A) → o ≡ some x → x.amount <f zero_float ≡ false)
        → IsValid ((expect o >>= receive_sent) p).1.server
    unfolding ◌>>=◌
    expected_sent none h = v
    expected_sent (some x) h = receive_sent-IsValid x (h x refl)

    -- Every message of an extension.
    pub receive_extend_msg-IsValid :
        (m : ExtendMsg A) → IsFair m → IsValid (receive_extend_msg m p).1.server
    unfolding receive_extend_msg
    receive_extend_msg-IsValid m g =
        elim m.type as (λ t. IsValid (receive_extend_msg (record m { type = t }) p).1.server) [
          | start ↦ fresh-IsValid laws m.server_addr p.server e v
          | account ↦ expected_account m.account g.balance
          | history ↦ expected_request m.request
          | sent ↦ expected_sent m.request g.amount
          | fin ↦ receive_fin-IsValid
        ]
