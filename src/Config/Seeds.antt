-- ===== src/Config/Seeds.antt =====
-- The random requests of src-cpp/client/client.cc's read_config_client: `rand()`, the ordered map
-- from which the type of a request is drawn, and a request. What `rand()` gives at each of its
-- calls is a parameter of the model.
use Prim.Native.String.{◌++◌ as ◌<>◌}
use chain_replication.Base.{
  ℕ, zero, suc, ◌+◌, ◌%◌, ℤ, pos, negsuc, int_eq, int_lt, ◌+ℤ◌, succ, String, Option, none, some,
  List, [], ◌∷◌, if◌then◌else◌,
}
use chain_replication.Exec.{Exec, pure, abort, modify, gets, expect, ◌>>=◌, ◌>>◌}
use chain_replication.Proto.{
  Request, RequestType, query, deposit, withdraw, transfer, transfer_to, ReplyOutcome, CheckRequest,
  default_address,
}
use chain_replication.Proto.Float.{FloatOps, zero_float}
use chain_replication.Client.State.{Client}
use chain_replication.Config.{Json, call, string_at, int_at}
use chain_replication.Config.Decimal.{to_string}
use chain_replication.Config.Keys

-- `std::map<int, RequestType>`, by rising keys: `m[k] = v`, and `m.upper_bound(n)`, the entry of the
-- first key above `n`.
unfoldable pub put : {V : Type 0} → ℤ → V → List (ℤ × V) → List (ℤ × V)
put k v [] = (k, v) ∷ []
put k v ((j, w) ∷ m) =
    if int_eq j k
    then (j, v) ∷ m
    else if int_lt k j
    then (k, v) ∷ (j, w) ∷ m
    else (j, w) ∷ put k v m

unfoldable pub upper_bound : {V : Type 0} → ℤ → List (ℤ × V) → Option V
upper_bound n [] = none
upper_bound n ((j, w) ∷ m) = if int_lt n j then some w else upper_bound n m

unfoldable pub genreq_map : ℤ → ℤ → ℤ → List (ℤ × RequestType)
unfolding put
genreq_map prob_query prob_deposit prob_withdraw =
    put (prob_query +ℤ prob_deposit +ℤ prob_withdraw) withdraw
      (put (prob_query +ℤ prob_deposit) deposit (put prob_query query []))

-- The state of the reader: the clients read so far, and how often `rand()` was called.
pub record Setup (A : Type 0) : Type 0 where
  pub client_vector : List (Client A)
  pub drawn : ℕ

abbrev pub joined : String → String → String → String
joined a b c = ((a <> ".") <> (b <> ".")) <> c

module _ {A : Type 0} ⦃f : FloatOps A⦄ where
  -- `proto::Request req;`
  abbrev pub blank_request : Request A
  blank_request = record {
    req_id = "";
    type = query;
    client_addr = default_address;
    bank_update_seq = 0;
    account_id = "";
    bank_id = "";
    amount = zero_float;
    dest_bank_id = "";
    dest_account_id = "";
    reply = record {
      req_id = "";
      outcome = ReplyOutcome.processed;
      account_id = "";
      balance = zero_float;
    };
    check_result = CheckRequest.inconsistent;
  }

  -- `if (type == QUERY) req.set_amount(0)`
  abbrev pub amount_for : RequestType → A → A
  amount_for query amount = zero_float
  amount_for deposit amount = amount
  amount_for withdraw amount = amount
  amount_for transfer amount = amount
  amount_for transfer_to amount = amount

module _ {A : Type 0} (rand : ℕ → ℕ) where
  unfoldable pub draw : Exec (Setup A) ℕ
  unfolding ◌>>=◌
  draw = do n ← gets (λ s. rand s.drawn); modify (λ s. record s { drawn = s.drawn + 1 }); pure n

  -- `rand() % n`: the sign of the divisor has no part in it, and a division by zero ends the
  -- process.
  unfoldable pub draw_below : ℤ → Exec (Setup A) ℕ
  unfolding ◌>>=◌ draw
  draw_below (pos zero) = do n ← draw; abort
  draw_below (pos (suc m)) = do n ← draw; pure (n % suc m)
  draw_below (negsuc m) = do n ← draw; pure (n % suc m)

  module _ ⦃f : FloatOps A⦄ (from_int : ℕ → A) (json : Json A) where
    -- A round of the loop.
    unfoldable pub random_request :
        String → json.Value → ℤ → ℤ → ℤ → ℤ → ℤ → ℕ → Exec (Setup A) (Request A)
    unfolding ◌>>=◌
    random_request clientid bank_list_json account_num max_amount prob_query prob_deposit
          prob_withdraw i =
        do
          bank_seq ← draw_below (pos (json.size bank_list_json))
          bank_json ← call (json.at bank_seq bank_list_json)
          bankid ← call (string_at json Keys.bankid bank_json)
          account_seq ← draw_below account_num
          amount ← draw_below (succ max_amount)
          req_tmp ← draw_below (prob_query +ℤ prob_deposit +ℤ prob_withdraw)
          type ←
              expect (upper_bound (pos req_tmp) (genreq_map prob_query prob_deposit prob_withdraw))
          pure (record blank_request {
            bank_id = bankid;
            account_id = "account" <> to_string (pos (account_seq + 1));
            req_id = joined bankid clientid (to_string (pos (i + 1)));
            amount = amount_for type (from_int amount);
            type = type;
          })

    -- The rounds left, and `i`.
    unfoldable pub random_requests :
        ℕ → ℕ → String → json.Value → ℤ → ℤ → ℤ → ℤ → ℤ → Exec (Setup A) (List (Request A))
    unfolding ◌>>=◌
    random_requests zero i clientid bank_list_json account_num max_amount pq pd pw = pure []
    random_requests (suc n) i clientid bank_list_json account_num max_amount pq pd pw = do
      req ← random_request clientid bank_list_json account_num max_amount pq pd pw i
      rest ← random_requests n (suc i) clientid bank_list_json account_num max_amount pq pd pw
      pure (req ∷ rest)

    abbrev rounds : ℤ → ℕ
    rounds (pos n) = n
    rounds (negsuc n) = 0

    unfoldable pub read_random_requests :
        String → json.Value → json.Value → Exec (Setup A) (List (Request A))
    unfolding ◌>>=◌
    read_random_requests clientid bank_list_json req_seed = do
      req_num ← call (int_at json Keys.reqnum req_seed)
      account_num ← call (int_at json Keys.accountnum req_seed)
      max_amount ← call (int_at json Keys.max_amount req_seed)
      prob_query ← call (int_at json Keys.prob_query req_seed)
      prob_deposit ← call (int_at json Keys.prob_deposit req_seed)
      prob_withdraw ← call (int_at json Keys.prob_withdraw req_seed)
      random_requests (rounds req_num) 0 clientid bank_list_json account_num max_amount prob_query
          prob_deposit prob_withdraw
