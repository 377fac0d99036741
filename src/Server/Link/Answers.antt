-- ===== src/Server/Link/Answers.antt =====
-- `update_request_reply` of src-cpp/server/server.cc answers alike at replicas, and the answer of a
-- server upstream that comes with the request makes no difference.
use chain_replication.Base.{◌≡◌, refl, sym, ap, subst, ◌∙◌, List, [], ◌∷◌, arith}
use chain_replication.Base.Map.{Map}
use chain_replication.Proto.{Request, Reply, CheckRequest}
use chain_replication.Proto.Float.{FloatOps}
use chain_replication.Server.State.{Account, ChainServer, accounts}
use chain_replication.Server.Accounts.{get_or_create_account, update_balance}
use chain_replication.Server.History.{
  history_key, req_consistent, check_sent, check_history, check_update_request, settle,
  update_request_reply, new_reply,
}

module _ {A : Type 0} ⦃f : FloatOps A⦄ where
  -- The data that decide an answer.
  with_data : Map (Account A) → Map (Request A) → List (Request A) → ChainServer A → ChainServer A
  with_data m h l t = record t {
    bank = record t.bank { account_map = m };
    processed_map = h;
    sent_list = l;
  }

  answer_alike :
      (m : Map (Account A)) (h : Map (Request A)) (l : List (Request A)) (req : Request A)
      (t u : ChainServer A)
      → ((update_request_reply req (with_data m h l t)).1
          ≡ (update_request_reply req (with_data m h l u)).1)
        × (accounts (update_request_reply req (with_data m h l t)).0
            ≡ accounts (update_request_reply req (with_data m h l u)).0)
  unfolding with_data update_request_reply check_update_request check_history settle
  answer_alike m h l req t u = (ground arith, ground arith)

  -- The reply and the verdict that come with a request are overwritten.
  abbrev stamped : CheckRequest → Reply A → Request A → Request A
  stamped c y req = record req { check_result = c; reply = y }

  check_sent_again :
      (c : CheckRequest) (y : Reply A) (req : Request A) (reply : Reply A) (l : List (Request A))
      → check_sent (stamped c y req) reply l ≡ check_sent req reply l
  unfolding check_sent req_consistent
  check_sent_again c y req reply [] = refl
  check_sent_again c y req reply (x ∷ xs) = ground (arith, check_sent_again c y req reply xs)

  check_again :
      (c : CheckRequest) (y : Reply A) (req : Request A) (reply : Reply A) (s : ChainServer A)
      → check_update_request (stamped c y req) reply s ≡ check_update_request req reply s
  unfolding check_update_request get_or_create_account check_history history_key req_consistent
  check_again c y req reply s = ground (arith, check_sent_again c y req reply s.sent_list)

  settle_again :
      (c d : CheckRequest) (y : Reply A) (req : Request A) (reply : Reply A) (s : ChainServer A)
      → settle d (stamped c y req) reply s ≡ settle d req reply s
  unfolding settle update_balance get_or_create_account
  settle_again c CheckRequest.inconsistent y req reply s = refl
  settle_again c CheckRequest.processed y req reply s = refl
  settle_again c CheckRequest.newreq y req reply s = refl

  -- What follows the check.
  finished : Request A → ChainServer A × CheckRequest × Reply A → ChainServer A × Request A
  finished req (s, d, reply) =
      let (s', reply') = settle d req reply s in
      (s', record req { check_result = d; reply = reply' })

  pub answer_again :
      (req : Request A) (c : CheckRequest) (y : Reply A) (s : ChainServer A)
      → update_request_reply (stamped c y req) s ≡ update_request_reply req s
  unfolding update_request_reply finished
  answer_again req c y s =
      ap (finished (stamped c y req)) (check_again c y req (new_reply req) s)
      ∙ ap (λ (r : ChainServer A × Reply A). (r.0, record req { check_result = tr.1; reply = r.1 }))
          (settle_again c tr.1 y req tr.2 tr.0)
    where
      tr : ChainServer A × CheckRequest × Reply A
      tr = check_update_request req (new_reply req) s

  -- Replicas answer alike, and their accounts are alike afterwards.
  pub answers_alike :
      (req : Request A) (s t : ChainServer A)
      → accounts t ≡ accounts s
      → t.processed_map ≡ s.processed_map
      → t.sent_list ≡ s.sent_list
      → ((update_request_reply req t).1 ≡ (update_request_reply req s).1)
        × (accounts (update_request_reply req t).0 ≡ accounts (update_request_reply req s).0)
  unfolding with_data
  answers_alike req s t a h l =
      subst
        (λ v.
          ((update_request_reply req v).1 ≡ (update_request_reply req s).1)
          × (accounts (update_request_reply req v).0 ≡ accounts (update_request_reply req s).0))
        (sym same) (answer_alike (accounts s) s.processed_map s.sent_list req t s)
    where
      same : t ≡ with_data (accounts s) s.processed_map s.sent_list t
      same = λ i. with_data (a i) (h i) (l i) t
