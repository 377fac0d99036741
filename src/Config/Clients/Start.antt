-- ===== src/Config/Clients/Start.antt =====
-- The clients that read_config_client of src-cpp/client/client.cc makes of a described
-- configuration, whose requests stand in the file.
use mathlib.Core.List.{append-nil, append_assoc}
use chain_replication.Base.{
  ℕ, ℤ, String, str_eq, Bool, ◌≡◌, sym, ap, ◌∙◌, false, some, List, [], ◌∷◌, ◌++◌, length,
}
use chain_replication.Base.Map.Apart.{adds, Once}
use chain_replication.Exec.{ok, ◌>>=◌}
use chain_replication.Proto.{Address}
use chain_replication.Proto.Float.{FloatOps}
use chain_replication.Client.State.{Client}
use chain_replication.Config.{Json, load, string_at, int_at, bool_at}
use chain_replication.Config.Keys
use chain_replication.Config.Arrays.{IsArray, fold_list, fold_each_lem}
use chain_replication.Config.Decimal.{atoi}
use chain_replication.Config.Described.{BankEntry, IsAddress, chains, Setting, Describes}
use chain_replication.Config.Chains.Reading.{address_at_lem}
use chain_replication.Config.Servers.Heads.{heads}
use chain_replication.Config.Seeds.{Setup}
use chain_replication.Config.Clients.{
  read_requests, read_drop_interval, read_client, push_client, read_config_client,
}
use chain_replication.Config.Clients.Ends.{tails, each_ends_lem}
use chain_replication.Config.Clients.Requests.{
  RequestEntry, requests_of, AreRequests, each_request_lem,
}

pub record ClientEntry (A : Type 0) : Type 0 where
  pub clientid : String
  pub addr : Address
  pub wait_timeout : ℤ
  pub resend_num : ℤ
  pub resend_newhead : Bool
  pub requests : List (RequestEntry A)

module _ {A : Type 0} ⦃f : FloatOps A⦄ where
  -- The client with its setting: `word` is what the file says of the replies to drop.
  abbrev pub client_of : List BankEntry → String → ClientEntry A → Client A
  client_of es word c = record {
    ip = c.addr.ip;
    port = c.addr.port;
    clientid = c.clientid;
    wait_timeout = c.wait_timeout;
    resend_num = c.resend_num;
    resend_newhead = c.resend_newhead;
    drop_interval = atoi word;
    recv_count = 0;
    bank_head_list = adds (heads es) [];
    bank_tail_list = adds (tails es) [];
    request_vector = requests_of c.clientid c.requests;
  }

  abbrev pub clients_of : List BankEntry → String → List (ClientEntry A) → List (Client A)
  clients_of es word [] = []
  clients_of es word (c ∷ cs) = client_of es word c ∷ clients_of es word cs

  module _ (json : Json A) where
    pub record IsClient (v : json.Value) (c : ClientEntry A) : Type 0 where
      pub clientid : string_at json Keys.clientid v ≡ ok c.clientid
      pub addr : IsAddress json v c.addr
      pub wait_timeout : int_at json Keys.wait_timeout v ≡ ok c.wait_timeout
      pub resend_num : int_at json Keys.resend_num v ≡ ok c.resend_num
      pub resend_newhead : bool_at json Keys.resend_newhead v ≡ ok c.resend_newhead
      pub not_seeded : json.is_member Keys.reqseed v ≡ ok false
      pub list : json.Value
      pub values : List json.Value
      pub list_here : json.get Keys.requests v ≡ ok list
      pub array : IsArray json list values
      pub requests : AreRequests json values c.requests

    abbrev pub AreClientEntries : List json.Value → List (ClientEntry A) → Type 0
    AreClientEntries [] [] = Unit
    AreClientEntries (v ∷ vs) (c ∷ cs) = IsClient v c × AreClientEntries vs cs
    AreClientEntries _ _ = ⊥

    -- The word for the replies to drop, which is not `random`.
    pub record DropsBy (root : json.Value) (word : String) : Type 0 where
      pub config : json.Value
      pub config_here : json.get Keys.config root ≡ ok config
      pub word_here : string_at json Keys.udp_drop_interval config ≡ ok word
      pub number : str_eq word Keys.random ≡ false

    module _ (rand : ℕ → ℕ) (from_int : ℕ → A) {root : json.Value} {s : Setting}
        (d : Describes json root s) (once : Once (chains s.banks)) {word : String}
        (w : DropsBy root word) where
      requests_lem :
          {v : json.Value} (c : ClientEntry A) (h : IsClient v c) (bank_list : json.Value)
          (t : Setup A)
          → read_requests json rand from_int c.clientid bank_list v t
            ≡ (ok (requests_of c.clientid c.requests), t)
      unfolding read_requests ◌>>=◌
      requests_lem c h bank_list t =
          rw (h.not_seeded, h.list_here)
            (each_request_lem json c.clientid h.values c.requests t h.array h.requests)

      drop_interval_lem :
          (n : ℕ) (t : Setup A)
          → read_drop_interval json rand from_int root n t ≡ (ok (atoi word), t)
      unfolding read_drop_interval ◌>>=◌
      drop_interval_lem n t = rw (w.config_here, w.word_here, w.number)

      read_client_lem :
          (v : json.Value) (c : ClientEntry A) (t : Setup A)
          → IsClient v c
          → read_client json rand from_int root v t ≡ (ok (client_of s.banks word c), t)
      unfolding read_client ◌>>=◌
      read_client_lem v c t h =
          rw
            (
              h.clientid,
              address_at_lem json v c.addr t h.addr,
              h.wait_timeout,
              h.resend_num,
              h.resend_newhead,
              d.banks_here,
            )
            (rw (each_ends_lem json d.bank_values s.banks t d.bank_array d.banks once) (
              rw (requests_lem c h d.bank_list t)
                (rw (drop_interval_lem (length (requests_of c.clientid c.requests)) t))))

      read_clients_lem :
          (vs : List json.Value) (cs : List (ClientEntry A)) (t : Setup A)
          → AreClientEntries vs cs
          → fold_list vs (λ v _. push_client json rand from_int root v) tt t
            ≡ (ok tt, record t { client_vector = t.client_vector ++ clients_of s.banks word cs })
      unfolding fold_list push_client ◌>>=◌
      read_clients_lem [] [] t h =
          ap (λ l. (ok tt, record t { client_vector = l })) (sym (append-nil t.client_vector))
      read_clients_lem [] (c ∷ cs) t h = absurd h
      read_clients_lem (v ∷ vs) [] t h = absurd h
      read_clients_lem (v ∷ vs) (c ∷ cs) t h = rw (read_client_lem v c t h.0) (
          read_clients_lem vs cs _ h.1
          ∙ ap (λ l. (ok tt, record t { client_vector = l }))
              (append_assoc t.client_vector (client_of s.banks word c ∷ [])
                (clients_of s.banks word cs)))

      pub read_config_client_lem :
          (dir : String) (list : json.Value) (vs : List json.Value) (cs : List (ClientEntry A))
          (t : Setup A)
          → load json dir ≡ some root
          → json.get Keys.clients root ≡ ok list
          → IsArray json list vs
          → AreClientEntries vs cs
          → read_config_client json rand from_int dir t
            ≡ (ok 0, record t { client_vector = t.client_vector ++ clients_of s.banks word cs })
      unfolding read_config_client ◌>>=◌
      read_config_client_lem dir list vs cs t here clients arr h =
          rw (here, read_config_client, clients)
            (rw (
              ap (λ k. k t)
                (fold_each_lem json (λ v _. push_client json rand from_int root v) list vs tt arr)
              ∙ read_clients_lem vs cs t h))
