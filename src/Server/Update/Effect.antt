-- ===== src/Server/Update/Effect.antt =====
-- What `receive_request` of src-cpp/server/server.cc does to `*cs`, as a function of the object and of
-- the request.
use chain_replication.Base.{ℕ, ◌≡◌, refl, leb, ◌==◌, u32_inc, u32_dec, arith, if◌then◌else◌}
use chain_replication.Exec.{◌>>=◌}
use chain_replication.Proto.{Request, query}
use chain_replication.Proto.Float.{FloatOps}
use chain_replication.Server.State.{ChainServer, Process, accounts, with_accounts}
use chain_replication.Server.Accounts.{get_balance}
use chain_replication.Server.History.{insert_sent_list, update_request_reply}
use chain_replication.Server.Send.Frame.{reply_to_client-Keeps}
use chain_replication.Server.Update.{
  replies, reads_balance, handle_query, head_handle_update, single_handle_update,
  tail_handle_update, internal_handle_update, number_request, follow_request, receive_at,
  receive_update, receive_request,
}
use chain_replication.Server.Update.Local.{
  Effect, Effect-then, forward_request-at, local_effect, handle_local, handle_local-Effect,
  acknowledge_idle, acknowledge_idle-Keeps,
}

module _ {A : Type 0} ⦃f : FloatOps A⦄ where
  -- An update at a server with a successor, and at one without.
  unfoldable pub forward_effect : Request A → ChainServer A → ChainServer A
  forward_effect req s = let (s', req') = update_request_reply req s in insert_sent_list req' s'

  unfoldable pub final_effect : Request A → ChainServer A → ChainServer A
  final_effect req s = let (s', req') = update_request_reply req s in local_effect req' s'

  head_handle_update-Effect :
      (req : Request A) → Effect (forward_effect req) (head_handle_update req)
  unfolding head_handle_update ◌>>=◌ replies forward_effect
  head_handle_update-Effect req = record { at = λ p. forward_request-at _ _ }

  internal_handle_update-Effect :
      (req : Request A) → Effect (forward_effect req) (internal_handle_update req)
  unfolding internal_handle_update ◌>>=◌ replies forward_effect
  internal_handle_update-Effect req = record { at = λ p. forward_request-at _ _ }

  single_handle_update-Effect :
      (req : Request A) → Effect (final_effect req) (single_handle_update req)
  unfolding single_handle_update ◌>>=◌ replies final_effect
  single_handle_update-Effect req = record {
    at = λ p. (handle_local-Effect (update_request_reply req p.server).1).at _;
  }

  tail_handle_update-Effect : (req : Request A) → Effect (final_effect req) (tail_handle_update req)
  unfolding tail_handle_update ◌>>=◌ replies final_effect
  tail_handle_update-Effect req = record {
    at = λ p.
        let (s, req') = update_request_reply req p.server in
        (Effect-then (local_effect req') (handle_local req') (λ _. acknowledge_idle req')
            (handle_local-Effect req') (λ _. acknowledge_idle-Keeps req')).at
          (record p { server = s });
  }

  reads_balance-Effect :
      (req : Request A)
      → Effect
          (λ s. with_accounts s (get_balance req.account_id (accounts s)).0)
          (reads_balance req)
  unfolding reads_balance
  reads_balance-Effect req = record { at = λ p. refl }

  unfoldable pub query_effect : Request A → ChainServer A → ChainServer A
  query_effect req s = with_accounts s (get_balance req.account_id (accounts s)).0

  pub handle_query-Effect : (req : Request A) → Effect (query_effect req) (handle_query req)
  unfolding handle_query query_effect
  handle_query-Effect req =
      Effect-then (query_effect req) (reads_balance req) _ (reads_balance-Effect req)
        (λ b. reply_to_client-Keeps _)

  abbrev pub numbered : ℕ → ChainServer A → ChainServer A
  numbered n s = record s { bank_update_seq = n }

  -- `receive_request` on an update, by the server's place in the chain.
  unfoldable pub update_effect : Request A → ChainServer A → ChainServer A
  update_effect req s =
      let next = u32_inc s.bank_update_seq in
      let req' = record req { bank_update_seq = next } in
      if s.ishead
      then (if s.istail
          then final_effect req' (numbered next s)
          else forward_effect req' (numbered next s))
      else if leb req.bank_update_seq s.bank_update_seq
      then s
      else if s.bank_update_seq == u32_dec req.bank_update_seq
      then (if s.istail
          then final_effect req (numbered req.bank_update_seq s)
          else forward_effect req (numbered req.bank_update_seq s))
      else s

  pub receive_update-Effect : (req : Request A) → Effect (update_effect req) (receive_update req)
  unfolding receive_update receive_at follow_request number_request update_effect
  receive_update-Effect req = record {
    at = λ p.
        let next = u32_inc p.server.bank_update_seq in
        let q = record p { server = numbered next p.server } in
        let q' = record p { server = numbered req.bank_update_seq p.server } in
        let req' = record req { bank_update_seq = next } in
        ground (
          arith,
          (single_handle_update-Effect req').at q,
          (head_handle_update-Effect req').at q,
          (tail_handle_update-Effect req).at q',
          (internal_handle_update-Effect req).at q',
        );
  }

  -- `receive_request`, on every kind of request.
  unfoldable pub request_effect : Request A → ChainServer A → ChainServer A
  request_effect req s = elim req.type [
    | query ↦ if s.istail then query_effect req s else s
    | _ ↦ update_effect req s
  ]

  -- What a request does to the server depends on the request and the server alone: no outcome of a
  -- send, no crash after one and no failing assertion leaves another state.
  pub receive_request-Effect :
      (req : Request A) (p : Process A)
      → (receive_request req p).1.server ≡ request_effect req p.server
  unfolding receive_request request_effect ◌>>=◌
  receive_request-Effect req p =
      ground (arith, (receive_update-Effect req).at p, (handle_query-Effect req).at p)
