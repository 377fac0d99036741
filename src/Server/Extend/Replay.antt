-- ===== src/Server/Extend/Replay.antt =====
-- The history that a tail sends to a server that joins: what `receive_extend_msg` of
-- src-cpp/server/server.cc makes of the messages of `send_req_to_extend_server`.
use chain_replication.Base.{
  ℕ, String, ◌≡◌, refl, sym, ap, subst, ◌∙◌, none, List, [], ◌∷◌, ◌++◌, map, arith, ltb, Bool-cases,
  inl, inr, if◌then◌else◌,
}
use chain_replication.Base.Map.{Map, find}
use chain_replication.Base.Map.Keyed.{IsKeyed}
use chain_replication.Base.Map.Apart.{
  adds, Apart, Apart-next, Apart-first, insert_cons, nothing_yet, find-adds_nil,
}
use chain_replication.Exec.{Result, ok, for_each, ◌>>=◌}
use chain_replication.Proto.{Address, Request, ExtendMsg}
use chain_replication.Proto.Float.{FloatOps}
use chain_replication.Server.State.{Account, ChainServer, Process, accounts, with_accounts}
use chain_replication.Server.History.{history_key, insert_processed_list}
use chain_replication.Server.Extend.{
  copy_accounts, copy_requests, start_message, account_message, history_message, create_account,
  raise_seq, receive_extend_msg,
}
use chain_replication.Server.Update.Effect.{numbered}
use chain_replication.Server.Validity.Ledger.{accountid_of, AccountsKeyed}

abbrev raised : ℕ → ℕ → ℕ
raised n k = if ltb n k then k else n

module _ {A : Type 0} where
  -- The last number of a list of requests and of `n`.
  abbrev pub latest : ℕ → List (Request A) → ℕ
  latest n [] = n
  latest n (x ∷ xs) = latest (if ltb n x.bank_update_seq then x.bank_update_seq else n) xs

  -- What the thread sends of a server's history.
  abbrev pub history_messages : ChainServer A → List (ExtendMsg A)
  history_messages s =
      start_message s.local_addr ∷ map account_message (copy_accounts (accounts s))
      ++ map history_message (copy_requests s.processed_map)

module _ {A : Type 0} ⦃f : FloatOps A⦄ where
  abbrev with_history : ℕ → Map (Request A) → Process A → Process A
  with_history n h p = record p {
    server = record p.server { bank_update_seq = n; processed_map = h };
  }

  account_step :
      (i : String) (a : Account A) (p : Process A)
      → a.accountid ≡ i
      → find i (accounts p.server) ≡ none
      → receive_extend_msg
          (account_message (record { account_id = a.accountid; balance = a.balance }))
          p
        ≡ (ok tt, record p { server = with_accounts p.server ((i, a) ∷ accounts p.server) })
  unfolding receive_extend_msg create_account ◌>>=◌
  account_step i a p e free =
      subst
        (λ j.
          find j (accounts p.server) ≡ none
          → receive_extend_msg
              (account_message (record { account_id = a.accountid; balance = a.balance })) p
            ≡ (ok tt, record p { server = with_accounts p.server ((j, a) ∷ accounts p.server) }))
        e (λ h. rw (insert_cons a.accountid a (accounts p.server) h) refl) free

  raise_seq_lem :
      (k : ℕ) (s : ChainServer A) → raise_seq k s ≡ numbered (raised s.bank_update_seq k) s
  raise_seq_lem k s = elim (Bool-cases (ltb s.bank_update_seq k)) [
    | inl e ↦ rw e refl
    | inr e ↦ rw e refl
  ]

  insert_own :
      (x : Request A) (s : ChainServer A)
      → find (history_key x) s.processed_map ≡ none
      → insert_processed_list x s
        ≡ record s { processed_map = (history_key x, x) ∷ s.processed_map }
  unfolding insert_processed_list
  insert_own x s h = ground (arith, insert_cons (history_key x) x s.processed_map h)

  insert_new :
      (i : String) (x : Request A) (s : ChainServer A)
      → history_key x ≡ i
      → find i s.processed_map ≡ none
      → insert_processed_list x s ≡ record s { processed_map = (i, x) ∷ s.processed_map }
  insert_new i x s e free =
      subst
        (λ j.
          find j s.processed_map ≡ none
          → insert_processed_list x s ≡ record s { processed_map = (j, x) ∷ s.processed_map })
        e (insert_own x s) free

  history_step :
      (i : String) (x : Request A) (p : Process A)
      → history_key x ≡ i
      → find i p.server.processed_map ≡ none
      → receive_extend_msg (history_message x) p ≡ (
        ok tt,
        with_history
            (raised p.server.bank_update_seq x.bank_update_seq)
            ((i, x) ∷ p.server.processed_map)
            p,
      )
  unfolding receive_extend_msg ◌>>=◌
  history_step i x p e free = rw (raise_seq_lem x.bank_update_seq p.server) (
      ap (λ (s : ChainServer A). (ok tt, record p { server = s }))
        (insert_new i x (numbered (raised p.server.bank_update_seq x.bank_update_seq) p.server) e
          free))

  accounts_replayed :
      (m : Map (Account A)) (rest : List (ExtendMsg A)) (p : Process A)
      → AccountsKeyed m
      → Apart m (accounts p.server)
      → for_each (map account_message (copy_accounts m) ++ rest) receive_extend_msg p
        ≡ for_each rest receive_extend_msg
            (record p { server = with_accounts p.server (adds m (accounts p.server)) })
  unfolding for_each copy_accounts adds ◌>>=◌
  accounts_replayed [] rest p k h = refl
  accounts_replayed ((i, a) ∷ m) rest p k h =
      rw (account_step i a p k.0 (Apart-first i a m (accounts p.server) h)) (
        accounts_replayed m rest
          (record p { server = with_accounts p.server ((i, a) ∷ accounts p.server) }) k.2
          (Apart-next i a m (accounts p.server) k.1 h))

  history_replayed :
      (m : Map (Request A)) (p : Process A)
      → IsKeyed history_key m
      → Apart m p.server.processed_map
      → for_each (map history_message (copy_requests m)) receive_extend_msg p ≡ (
        ok tt,
        with_history
            (latest p.server.bank_update_seq (copy_requests m))
            (adds m p.server.processed_map)
            p,
      )
  unfolding for_each copy_requests adds ◌>>=◌
  history_replayed [] p k h = refl
  history_replayed ((i, x) ∷ m) p k h =
      rw (history_step i x p k.0 (Apart-first i x m p.server.processed_map h)) (
        history_replayed m
          (with_history (raised p.server.bank_update_seq x.bank_update_seq)
            ((i, x) ∷ p.server.processed_map) p)
          k.2 (Apart-next i x m p.server.processed_map k.1 h))

  -- `START` clears what a server had.
  abbrev cleared : Address → Process A → Process A
  cleared addr p = record p {
    server = record p.server {
      processed_map = [];
      bank = record p.server.bank { account_map = [] };
      bank_update_seq = 0;
      pre_server_addr = addr;
    };
  }

  all_replayed :
      (s : ChainServer A) (p : Process A)
      → AccountsKeyed (accounts s)
      → IsKeyed history_key s.processed_map
      → for_each (history_messages s) receive_extend_msg p ≡ (
        ok tt,
        with_history
            (latest 0 (copy_requests s.processed_map))
            (adds s.processed_map [])
            (record p {
              server = with_accounts (cleared s.local_addr p).server (adds (accounts s) []);
            }),
      )
  unfolding for_each receive_extend_msg ◌>>=◌
  all_replayed s p a h =
      accounts_replayed (accounts s) (map history_message (copy_requests s.processed_map))
        (cleared s.local_addr p) a (nothing_yet (accounts s))
      ∙ history_replayed s.processed_map
          (record p {
            server = with_accounts (cleared s.local_addr p).server (adds (accounts s) []);
          })
          h (nothing_yet s.processed_map)

  -- A server that joins gets the messages that a tail sends of its accounts and its processed
  -- requests, each under its own key and once. Then it takes all of them and no assertion fails,
  -- whatever it had before is gone, it finds the same account and the same request under every key
  -- as the tail, its last number is the highest of the requests, the tail is its predecessor, and
  -- nothing is sent.
  pub receive_extend_msg_lem :
      (s : ChainServer A) (p : Process A)
      → AccountsKeyed (accounts s)
      → IsKeyed history_key s.processed_map
      → let r = for_each (history_messages s) receive_extend_msg p in
        let t = r.1.server in
        (r.0 ≡ ok tt)
        × ((k : String) → find k (accounts t) ≡ find k (accounts s))
        × ((k : String) → find k t.processed_map ≡ find k s.processed_map)
        × (t.bank_update_seq ≡ latest 0 (copy_requests s.processed_map))
        × (t.pre_server_addr ≡ s.local_addr)
        × (r.1.wire ≡ p.wire)
  receive_extend_msg_lem s p a h = subst Replayed (sym (all_replayed s p a h)) (
    refl,
    find-adds_nil accountid_of (accounts s) a,
    find-adds_nil history_key s.processed_map h,
    refl,
    refl,
    refl,
  )
    where
      Replayed : Result (Unit {0}) × Process A → Type 0
      Replayed r =
          let t = r.1.server in
          (r.0 ≡ ok tt)
          × ((k : String) → find k (accounts t) ≡ find k (accounts s))
          × ((k : String) → find k t.processed_map ≡ find k s.processed_map)
          × (t.bank_update_seq ≡ latest 0 (copy_requests s.processed_map))
          × (t.pre_server_addr ≡ s.local_addr)
          × (r.1.wire ≡ p.wire)
