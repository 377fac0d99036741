-- ===== src/Server/Validity/Messages/Extension.antt =====
-- The changes that an extension of the chain makes to a server of src-cpp/server/server.cc keep the
-- invariant.
use chain_replication.Base.{
  ℕ, ◌≡◌, refl, sym, ap, subst, true, false, [], arith, ltb, eq_iff, Bool-cases, inl, inr,
}
use chain_replication.Base.Map.{find, insert, find-insert}
use chain_replication.Base.Map.Keyed.{insert-IsKeyed}
use chain_replication.Proto.{Address, Request, AccountInfo}
use chain_replication.Proto.Float.{FloatOps, SignLaws, zero_float, ◌<f◌}
use chain_replication.Server.State.{Account, ChainServer, accounts, with_accounts}
use chain_replication.Server.Accounts.Balances.{balance_at}
use chain_replication.Server.History.{insert_processed_list, update_request_reply}
use chain_replication.Server.Update.Effect.{numbered}
use chain_replication.Server.Extend.{raise_seq}
use chain_replication.Server.Validity.{IsValidUpTo, IsValid, Transfers}
use chain_replication.Server.Validity.Sequence.{Between}
use chain_replication.Server.Validity.Ledger.{accountid_of, update_request_reply_frame}
use chain_replication.Server.Validity.Parts.{
  IsValid-widen, insert_processed_list-IsValid, with_accounts-IsValid, update_request_reply-IsValid,
  numbered-IsValid,
}

module _ {A : Type 0} ⦃f : FloatOps A⦄ where
  pub extending-IsValid :
      (a : Address) (s : ChainServer A)
      → IsValid s
      → IsValid
          (record s { extending_chain = true; finish_sending_hist = false; succ_server_addr = a })
  extending-IsValid a s v = record {
    ordered = v.ordered;
    covered = v.covered;
    accounts_keyed = v.accounts_keyed;
    history_keyed = v.history_keyed;
    tail_waits = λ _ e. cc;
  }

  pub raise_seq-IsValid : (n : ℕ) (s : ChainServer A) → IsValid s → IsValid (raise_seq n s)
  raise_seq-IsValid n s v = elim (Bool-cases (ltb s.bank_update_seq n)) [
    | inl e ↦ rw e (
        IsValid-widen s.bank_update_seq n (numbered n s) (ground (arith, e))
          (numbered-IsValid s.bank_update_seq n s v))
    | inr e ↦ rw e v
  ]

  seq_recorded :
      (x : Request A) (s : ChainServer A)
      → (insert_processed_list x s).bank_update_seq ≡ s.bank_update_seq
  unfolding insert_processed_list
  seq_recorded x s = ground arith

  pub recorded-IsValid :
      (x : Request A) (s : ChainServer A) → IsValid s → IsValid (insert_processed_list x s)
  recorded-IsValid x s v =
      subst (λ n. IsValidUpTo n (insert_processed_list x s)) (sym (seq_recorded x s))
        (insert_processed_list-IsValid s.bank_update_seq x s v)

  pub created-IsValid :
      (info : AccountInfo A) (s : ChainServer A)
      → info.balance <f zero_float ≡ false
      → IsValid s
      → IsValid (
          with_accounts s
            (insert info.account_id
              (record { accountid = info.account_id; balance = info.balance })
              (accounts s)).0)
  unfolding balance_at
  created-IsValid info s b v =
      with_accounts-IsValid s.bank_update_seq s _
        (λ j. ground (
          arith,
          v.covered j,
          v.covered info.account_id,
          b,
          find-insert j info.account_id made (accounts s),
          eq_iff info.account_id j,
        ))
        (insert-IsKeyed accountid_of info.account_id made (accounts s) refl v.accounts_keyed) v
    where
      made : Account A
      made = record { accountid = info.account_id; balance = info.balance }

  pub fresh-IsValid :
      (laws : SignLaws f) (a : Address) (s : ChainServer A)
      → s.sent_list ≡ []
      → IsValid s
      → IsValid (record s {
        processed_map = [];
        bank = record s.bank { account_map = [] };
        bank_update_seq = 0;
        pre_server_addr = a;
      })
  unfolding balance_at find
  fresh-IsValid laws a s e v = record {
    ordered = subst (Between 0 0) (sym e) (omega arith);
    covered = λ j. laws.zero_sign;
    accounts_keyed = tt;
    history_keyed = tt;
    tail_waits = v.tail_waits;
  }

  pub tail-IsValid :
      (s : ChainServer A) → s.sent_list ≡ [] → IsValid s → IsValid (record s { istail = true })
  tail-IsValid s e v = record {
    ordered = v.ordered;
    covered = v.covered;
    accounts_keyed = v.accounts_keyed;
    history_keyed = v.history_keyed;
    tail_waits = λ _ _. subst Transfers (sym e) tt;
  }

  pub answered-IsValid :
      (laws : SignLaws f) (x : Request A) (s : ChainServer A)
      → x.amount <f zero_float ≡ false
      → IsValid s
      → IsValid (update_request_reply x s).0
  answered-IsValid laws x s a v =
      subst (λ n. IsValidUpTo n (update_request_reply x s).0) (sym same)
        (update_request_reply-IsValid laws s.bank_update_seq x s a v)
    where
      same : (update_request_reply x s).0.bank_update_seq ≡ s.bank_update_seq
      same = ap (λ (t : ChainServer A). t.bank_update_seq) (update_request_reply_frame x s).0
