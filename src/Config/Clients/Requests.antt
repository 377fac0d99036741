-- ===== src/Config/Clients/Requests.antt =====
-- The requests that read_config_client of src-cpp/client/client.cc reads from the file.
use chain_replication.Base.{ℤ, String, ◌≡◌, refl, sym, ap, ◌∙◌, some, List, [], ◌∷◌, ◌++◌}
use mathlib.Core.List.{append-nil, append_assoc}
use chain_replication.Exec.{ok, ◌>>=◌}
use chain_replication.Proto.{Request, RequestType, query, deposit, withdraw, transfer, transfer_to}
use chain_replication.Proto.Float.{FloatOps}
use chain_replication.Config.{Json, string_at, int_at, double_at, fold_each}
use chain_replication.Config.Keys
use chain_replication.Config.Arrays.{IsArray, fold_list, fold_each_lem}
use chain_replication.Config.Decimal.{to_string}
use chain_replication.Config.Seeds.{blank_request, amount_for, joined}
use chain_replication.Config.Clients.{
  type_of, read_destination, read_typed, read_request, push_request,
}

-- What the file says of a request. Only a transfer has a destination.
pub record RequestEntry (A : Type 0) : Type 0 where
  pub bank_id : String
  pub account_id : String
  pub seq : ℤ
  pub amount : A
  pub type : RequestType
  pub dest_bank_id : String
  pub dest_account_id : String

abbrev dest : RequestType → String → String
dest transfer s = s
dest query s = ""
dest deposit s = ""
dest withdraw s = ""
dest transfer_to s = ""

module _ {A : Type 0} ⦃f : FloatOps A⦄ where
  -- A request before its type is known, and as one of a type.
  abbrev untyped : String → RequestEntry A → Request A
  untyped clientid e = record blank_request {
    bank_id = e.bank_id;
    account_id = e.account_id;
    req_id = joined e.bank_id clientid (to_string e.seq);
    amount = e.amount;
  }

  abbrev typed : RequestType → String → RequestEntry A → Request A
  typed t clientid e = record (untyped clientid e) {
    amount = amount_for t e.amount;
    type = t;
    dest_bank_id = dest t e.dest_bank_id;
    dest_account_id = dest t e.dest_account_id;
  }

  -- The request that a client makes of it.
  abbrev pub request_of : String → RequestEntry A → Request A
  request_of clientid e = typed e.type clientid e

  abbrev pub requests_of : String → List (RequestEntry A) → List (Request A)
  requests_of clientid [] = []
  requests_of clientid (e ∷ es) = request_of clientid e ∷ requests_of clientid es

  module _ (json : Json A) where
    pub record IsRequest (v : json.Value) (e : RequestEntry A) : Type 0 where
      pub bank_id : string_at json Keys.bankid v ≡ ok e.bank_id
      pub account_id : string_at json Keys.accountid v ≡ ok e.account_id
      pub seq : int_at json Keys.seq v ≡ ok e.seq
      pub amount : double_at json Keys.amount v ≡ ok e.amount
      pub word : String
      pub word_here : string_at json Keys.type v ≡ ok word
      pub type : type_of word ≡ some e.type
      pub dest_bank_id : string_at json Keys.dest_bankid v ≡ ok e.dest_bank_id
      pub dest_account_id : string_at json Keys.dest_accountid v ≡ ok e.dest_account_id

    abbrev pub AreRequests : List json.Value → List (RequestEntry A) → Type 0
    AreRequests [] [] = Unit
    AreRequests (v ∷ vs) (e ∷ es) = IsRequest v e × AreRequests vs es
    AreRequests _ _ = ⊥

    module _ {S : Type 0} (clientid : String) where
      typed_lem :
          (t : RequestType) (v : json.Value) (e : RequestEntry A) (s : S)
          → IsRequest v e
          → read_typed json (some t) v (untyped clientid e) s ≡ (ok (typed t clientid e), s)
      unfolding read_typed read_destination ◌>>=◌
      typed_lem transfer v e s h = rw (h.dest_bank_id, h.dest_account_id)
      typed_lem query v e s h = refl
      typed_lem deposit v e s h = refl
      typed_lem withdraw v e s h = refl
      typed_lem transfer_to v e s h = refl

      pub read_request_lem :
          (v : json.Value) (e : RequestEntry A) (s : S)
          → IsRequest v e
          → read_request json clientid v s ≡ (ok (request_of clientid e), s)
      unfolding read_request ◌>>=◌
      read_request_lem v e s h =
          rw (h.bank_id, h.account_id, h.seq, h.amount, h.word_here)
            (rw h.type (typed_lem e.type v e s h))

      requests_lem :
          (vs : List json.Value) (es : List (RequestEntry A)) (before : List (Request A)) (s : S)
          → AreRequests vs es
          → fold_list vs (push_request json clientid) before s
            ≡ (ok (before ++ requests_of clientid es), s)
      unfolding fold_list push_request ◌>>=◌
      requests_lem [] [] before s h = ap (λ l. (ok l, s)) (sym (append-nil before))
      requests_lem [] (e ∷ es) before s h = absurd h
      requests_lem (v ∷ vs) [] before s h = absurd h
      requests_lem (v ∷ vs) (e ∷ es) before s h = rw (read_request_lem v e s h.0) (
          requests_lem vs es (before ++ request_of clientid e ∷ []) s h.1
          ∙ ap (λ l. (ok l, s))
              (append_assoc before (request_of clientid e ∷ []) (requests_of clientid es)))

      pub each_request_lem :
          {list : json.Value} (vs : List json.Value) (es : List (RequestEntry A)) (s : S)
          → IsArray json list vs
          → AreRequests vs es
          → fold_each json list (push_request json clientid) [] s
            ≡ (ok (requests_of clientid es), s)
      each_request_lem {list} vs es s arr h =
          ap (λ k. k s) (fold_each_lem json (push_request json clientid) list vs [] arr)
          ∙ requests_lem vs es [] s h
