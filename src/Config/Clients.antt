-- ===== src/Config/Clients.antt =====
-- read_config_client of src-cpp/client/client.cc: the clients with the ends of the chains and their
-- requests, from the file or at random (Config/Seeds).
pub mod Draws
pub mod Start
pub mod Requests
pub mod Ends
pub mod Random
use chain_replication.Base.{
  ℕ, zero, suc, ◌+◌, ◌-◌, ◌%◌, ◌^◌, ℤ, pos, negsuc, String, str_eq, not, Option, none, some, List,
  [], ◌∷◌, ◌++◌, length, ltb, if◌then◌else◌,
}
use chain_replication.Base.Map.{Map, insert}
use chain_replication.Exec.{Exec, pure, exit, expect, modify, require, ◌>>=◌, ◌>>◌}
use chain_replication.Proto.{Address, Request, RequestType, query, deposit, withdraw, transfer}
use chain_replication.Proto.Float.{FloatOps}
use chain_replication.Client.State.{Client}
use chain_replication.Config.{
  Json, call, string_at, int_at, bool_at, double_at, address_at, fold_each, load,
}
use chain_replication.Config.Decimal.{to_string, atoi}
use chain_replication.Config.Keys
use chain_replication.Config.Seeds.{
  Setup, blank_request, amount_for, joined, draw, read_random_requests,
}

unfoldable pub type_of : String → Option RequestType
type_of word =
    if str_eq word Keys.query
    then some query
    else if str_eq word Keys.deposit
    then some deposit
    else if str_eq word Keys.withdraw
    then some withdraw
    else if str_eq word Keys.transfer
    then some transfer
    else none

-- `rand() % (n - 2) + 2` on `size_t`, as an `int`: the divisor wraps around below two requests, and
-- two requests make it 0.
unfoldable pub to_int : ℕ → ℤ
to_int n = let low = n % 2 ^ 32 in if ltb low (2 ^ 31) then pos low else negsuc (2 ^ 32 - low - 1)

unfoldable pub drop_divisor : ℕ → ℕ
drop_divisor n = (n + 2 ^ 64 - 2) % 2 ^ 64

unfoldable pub drop_interval_from : ℕ → ℕ → Option ℤ
unfolding drop_divisor to_int
drop_interval_from random n = elim (drop_divisor n) [
  | zero ↦ none
  | suc m ↦ some (to_int ((random % suc m + 2) % 2 ^ 64))
]

module _ {A : Type 0} ⦃f : FloatOps A⦄ (json : Json A) where
  -- A round of the loop over the banks. `operator[]` makes the first element of an empty list, so
  -- that the last one is there too.
  unfoldable pub read_bank_ends :
      {S : Type 0} → json.Value → Map Address × Map Address → Exec S (Map Address × Map Address)
  unfolding ◌>>=◌
  read_bank_ends bank_json (head_list, tail_list) = do
    server_list_json ← call (json.get Keys.servers bank_json)
    first ← call (json.at 0 server_list_json)
    head_addr ← address_at json first
    last ← call (json.at (json.size server_list_json - 1) server_list_json)
    tail_addr ← address_at json last
    bankid ← call (string_at json Keys.bankid bank_json)
    let it_head = insert bankid head_addr head_list
    require it_head.1
    let it_tail = insert bankid tail_addr tail_list
    require it_tail.1
    pure (it_head.0, it_tail.0)

  -- The part of a request that a transfer has besides.
  unfoldable pub read_destination :
      {S : Type 0} → RequestType → json.Value → Request A → Exec S (Request A)
  unfolding ◌>>=◌
  read_destination transfer request_json req = do
    dest_bank_id ← call (string_at json Keys.dest_bankid request_json)
    dest_account_id ← call (string_at json Keys.dest_accountid request_json)
    pure (record req { dest_bank_id = dest_bank_id; dest_account_id = dest_account_id })
  read_destination _ request_json req = pure req

  -- The chain of `if`s over the type: an unknown one ends the process.
  unfoldable pub read_typed :
      {S : Type 0} → Option RequestType → json.Value → Request A → Exec S (Request A)
  unfolding read_destination
  read_typed none request_json req = exit
  read_typed (some type) request_json req =
      read_destination type request_json
        (record req { amount = amount_for type req.amount; type = type })

  -- A round of the loop over the requests of the file.
  unfoldable pub read_request : {S : Type 0} → String → json.Value → Exec S (Request A)
  unfolding ◌>>=◌
  read_request clientid request_json = do
    bank_id ← call (string_at json Keys.bankid request_json)
    account_id ← call (string_at json Keys.accountid request_json)
    seq ← call (int_at json Keys.seq request_json)
    amount ← call (double_at json Keys.amount request_json)
    word ← call (string_at json Keys.type request_json)
    read_typed (type_of word) request_json (record blank_request {
      bank_id = bank_id;
      account_id = account_id;
      req_id = joined bank_id clientid (to_string seq);
      amount = amount;
    })

  -- `request_vector.push_back(req)`
  unfoldable pub push_request :
      {S : Type 0} → String → json.Value → List (Request A) → Exec S (List (Request A))
  unfolding ◌>>=◌
  push_request clientid request_json requests = do
    req ← read_request clientid request_json
    pure (requests ++ req ∷ [])

  module _ (rand : ℕ → ℕ) (from_int : ℕ → A) where
    unfoldable pub read_requests :
        String → json.Value → json.Value → Exec (Setup A) (List (Request A))
    unfolding ◌>>=◌
    read_requests clientid bank_list_json client_json = do
      seeded ← call (json.is_member Keys.reqseed client_json)
      if not seeded
          then (do
            request_json_list ← call (json.get Keys.requests client_json)
            fold_each json request_json_list (push_request clientid) [])
          else (do
            req_seed ← call (json.get Keys.reqseed client_json)
            read_random_requests rand from_int json clientid bank_list_json req_seed)

    unfoldable pub read_drop_interval : json.Value → ℕ → Exec (Setup A) ℤ
    unfolding ◌>>=◌
    read_drop_interval root requests = do
      config_json ← call (json.get Keys.config root)
      drop_interval ← call (string_at json Keys.udp_drop_interval config_json)
      if str_eq drop_interval Keys.random
          then (do random ← draw rand; expect (drop_interval_from random requests))
          else pure (atoi drop_interval)

    -- A round of the loop over the clients.
    unfoldable pub read_client : json.Value → json.Value → Exec (Setup A) (Client A)
    unfolding ◌>>=◌
    read_client root client_json = do
      clientid ← call (string_at json Keys.clientid client_json)
      addr ← address_at json client_json
      wait_timeout ← call (int_at json Keys.wait_timeout client_json)
      resend_num ← call (int_at json Keys.resend_num client_json)
      resend_newhead ← call (bool_at json Keys.resend_newhead client_json)
      bank_list_json ← call (json.get Keys.banks root)
      ends ← fold_each json bank_list_json read_bank_ends ([], [])
      requests ← read_requests clientid bank_list_json client_json
      drop_interval ← read_drop_interval root (length requests)
      pure (record {
        ip = addr.ip;
        port = addr.port;
        clientid = clientid;
        wait_timeout = wait_timeout;
        resend_num = resend_num;
        resend_newhead = resend_newhead;
        drop_interval = drop_interval;
        recv_count = 0;
        bank_head_list = ends.0;
        bank_tail_list = ends.1;
        request_vector = requests;
      })

    -- `client_vector.push_back(client)`
    unfoldable pub push_client : json.Value → json.Value → Exec (Setup A) (Unit {0})
    unfolding ◌>>=◌
    push_client root client_json = do
      client ← read_client root client_json
      modify (λ s. record s { client_vector = s.client_vector ++ client ∷ [] })

    -- The result is the one that `main` gets: 1 is a file that does not open or does not parse.
    unfoldable pub read_config_client : String → Exec (Setup A) ℕ
    unfolding ◌>>=◌
    read_config_client dir = elim (load json dir) [
      | none ↦ pure 1
      | some root ↦ (do
        client_list_json ← call (json.get Keys.clients root)
        fold_each json client_list_json (λ client_json _. push_client root client_json) tt
        pure 0)
    ]
