-- ===== src/Server/Validity/Parts.antt =====
-- The steps from which the handlers of src-cpp/server/server.cc are made keep the invariant.
use chain_replication.Base.{
  ℕ, String, subst, ◌<◌, ◌≤◌, ◌≡◌, sym, refl, true, false, List, [], ◌∷◌, ◌++◌, arith,
}
use chain_replication.Base.Map.{Map}
use chain_replication.Base.Map.Keyed.{insert-IsKeyed}
use chain_replication.Proto.{Request}
use chain_replication.Proto.Float.{FloatOps, SignLaws, zero_float, ◌<f◌}
use chain_replication.Server.State.{Account, ChainServer, accounts, with_accounts}
use chain_replication.Server.Accounts.{get_balance}
use chain_replication.Server.Accounts.Balances.{balance_at, balance_at-get_balance}
use chain_replication.Server.History.{
  history_key, insert_processed_list, insert_sent_list, update_request_reply,
}
use chain_replication.Server.Update.{is_transfer}
use chain_replication.Server.Update.Effect.{numbered}
use chain_replication.Server.Validity.{IsValidUpTo, Transfers}
use chain_replication.Server.Validity.Sequence.{Between-snoc, Between-widen}
use chain_replication.Server.Validity.Ledger.{
  AccountsKeyed, get_balance-Keyed, update_request_reply_frame, update_request_reply-Keyed,
  update_request_reply-Covered,
}

module _ {A : Type 0} ⦃f : FloatOps A⦄ where
  Transfers-snoc :
      (xs : List (Request A)) (x : Request A)
      → Transfers xs
      → is_transfer x.type ≡ true
      → Transfers (xs ++ x ∷ [])
  Transfers-snoc [] x h e = (e, tt)
  Transfers-snoc (y ∷ xs) x h e = (h.0, Transfers-snoc xs x h.1 e)

  pub IsValid-widen : (n k : ℕ) (s : ChainServer A) → n ≤ k → IsValidUpTo n s → IsValidUpTo k s
  IsValid-widen n k s p v = record {
    ordered = Between-widen 0 k 0 n s.sent_list (omega arith) p v.ordered;
    covered = v.covered;
    accounts_keyed = v.accounts_keyed;
    history_keyed = v.history_keyed;
    tail_waits = v.tail_waits;
  }

  pub insert_processed_list-IsValid :
      (n : ℕ) (req : Request A) (s : ChainServer A)
      → IsValidUpTo n s
      → IsValidUpTo n (insert_processed_list req s)
  unfolding insert_processed_list
  insert_processed_list-IsValid n req s v = record {
    ordered = ground (arith, v.ordered);
    covered = λ j. ground (arith, v.covered j);
    accounts_keyed = ground (arith, v.accounts_keyed);
    history_keyed = ground (
      arith,
      insert-IsKeyed history_key (history_key req) req s.processed_map refl v.history_keyed,
    );
    tail_waits = λ t e. ground (arith, v.tail_waits);
  }

  pub insert_sent_list-IsValid :
      (n : ℕ) (x : Request A) (s : ChainServer A)
      → n < x.bank_update_seq
      → (s.istail ≡ true → s.extending_chain ≡ false → is_transfer x.type ≡ true)
      → IsValidUpTo n s
      → IsValidUpTo x.bank_update_seq (insert_sent_list x s)
  unfolding insert_sent_list
  insert_sent_list-IsValid n x s p waits v = record {
    ordered = Between-snoc 0 n s.sent_list x v.ordered p;
    covered = v.covered;
    accounts_keyed = v.accounts_keyed;
    history_keyed = v.history_keyed;
    tail_waits = λ t e. Transfers-snoc s.sent_list x (v.tail_waits t e) (waits t e);
  }

  pub numbered-IsValid :
      (n k : ℕ) (s : ChainServer A) → IsValidUpTo n s → IsValidUpTo n (numbered k s)
  numbered-IsValid n k s v = record {
    ordered = v.ordered;
    covered = v.covered;
    accounts_keyed = v.accounts_keyed;
    history_keyed = v.history_keyed;
    tail_waits = v.tail_waits;
  }

  pub with_accounts-IsValid :
      (n : ℕ) (s : ChainServer A) (m : Map (Account A))
      → ((j : String) → balance_at j m <f zero_float ≡ false)
      → AccountsKeyed m
      → IsValidUpTo n s
      → IsValidUpTo n (with_accounts s m)
  with_accounts-IsValid n s m c k v = record {
    ordered = v.ordered;
    covered = c;
    accounts_keyed = k;
    history_keyed = v.history_keyed;
    tail_waits = v.tail_waits;
  }

  pub get_balance-IsValid :
      (n : ℕ) (k : String) (s : ChainServer A)
      → IsValidUpTo n s
      → IsValidUpTo n (with_accounts s (get_balance k (accounts s)).0)
  get_balance-IsValid n k s v =
      with_accounts-IsValid n s _ (λ j. rw (balance_at-get_balance j k (accounts s)) (v.covered j))
        (get_balance-Keyed k (accounts s) v.accounts_keyed) v

  pub update_request_reply-IsValid :
      (laws : SignLaws f) (n : ℕ) (req : Request A) (s : ChainServer A)
      → req.amount <f zero_float ≡ false
      → IsValidUpTo n s
      → IsValidUpTo n (update_request_reply req s).0
  update_request_reply-IsValid laws n req s p v =
      subst (IsValidUpTo n) (sym (update_request_reply_frame req s).0) (
        with_accounts-IsValid n s _ (update_request_reply-Covered laws req s p v.covered)
          (update_request_reply-Keyed req s v.accounts_keyed) v)
