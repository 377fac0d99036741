-- ===== src/Config/Described.antt =====
-- What a configuration says, apart from its spelling as JSON: the banks with their servers in the
-- order of their numbers, the clients, the master and the intervals.
use chain_replication.Base.{ℕ, suc, ℤ, pos, String, ◌≡◌, false, List, [], ◌∷◌, map}
use chain_replication.Base.Map.{Map}
use chain_replication.Exec.{ok}
use chain_replication.Proto.{Address, default_address}
use chain_replication.Master.Chain.{BankServerChain, new_node}
use chain_replication.Master.Chain.View.{member, last_or, Distinct}
use chain_replication.Config.{Json, string_at, int_at}
use chain_replication.Config.Keys
use chain_replication.Config.Arrays.{IsArray}

-- A bank with the addresses of its servers 1, 2, and so on.
pub record BankEntry : Type 0 where
  pub bank_id : String
  pub first : Address
  pub others : List Address

pub record Setting : Type 0 where
  pub report_interval : ℤ
  pub fail_timeout : ℤ
  pub master_addr : Address
  pub banks : List BankEntry
  pub clients : Map Address

abbrev pub servers : BankEntry → List Address
servers e = e.first ∷ e.others

-- The servers of a bank are told apart, and the address that stands for nobody is not among them.
abbrev pub IsNamed : BankEntry → Type 0
IsNamed e = Distinct (servers e) × (member default_address (servers e) ≡ false)

-- The chain of the servers in order, with nobody joining.
abbrev pub chain_of : BankEntry → BankServerChain
chain_of e = record {
  bank_id = e.bank_id;
  head = e.first;
  tail = last_or e.first e.others;
  extending = default_address;
  server_chain = map new_node (servers e);
}

abbrev pub chains : List BankEntry → Map BankServerChain
chains [] = []
chains (e ∷ es) = (e.bank_id, chain_of e) ∷ chains es

module _ {A : Type 0} (json : Json A) where
  pub record IsAddress (v : json.Value) (a : Address) : Type 0 where
    pub ip : string_at json Keys.ip v ≡ ok a.ip
    pub port : int_at json Keys.port v ≡ ok a.port

  -- The servers `vs` have the addresses `more` and the numbers from `n` on.
  abbrev pub NumberedFrom : ℕ → List json.Value → List Address → Type 0
  NumberedFrom n [] [] = Unit
  NumberedFrom n (v ∷ vs) (a ∷ more) =
      IsAddress v a × (int_at json Keys.chainno v ≡ ok (pos n)) × NumberedFrom (suc n) vs more
  NumberedFrom n _ _ = ⊥

  pub record IsBank (v : json.Value) (e : BankEntry) : Type 0 where
    pub list : json.Value
    pub values : List json.Value
    pub bank_id : string_at json Keys.bankid v ≡ ok e.bank_id
    pub list_here : json.get Keys.servers v ≡ ok list
    pub array : IsArray json list values
    pub numbered : NumberedFrom 1 values (servers e)

  abbrev pub AreBanks : List json.Value → List BankEntry → Type 0
  AreBanks [] [] = Unit
  AreBanks (v ∷ vs) (e ∷ es) = IsBank v e × AreBanks vs es
  AreBanks _ _ = ⊥

  abbrev pub AreClients : List json.Value → Map Address → Type 0
  AreClients [] [] = Unit
  AreClients (v ∷ vs) ((k, a) ∷ m) =
      IsAddress v a × (string_at json Keys.clientid v ≡ ok k) × AreClients vs m
  AreClients _ _ = ⊥

  -- What the master finds under the keys of the root.
  pub record Describes (root : json.Value) (s : Setting) : Type 0 where
    pub config : json.Value
    pub config_here : json.get Keys.config root ≡ ok config
    pub report_interval : int_at json Keys.server_report_interval config ≡ ok s.report_interval
    pub fail_timeout : int_at json Keys.server_fail_timeout config ≡ ok s.fail_timeout
    pub master : json.Value
    pub master_here : json.get Keys.master root ≡ ok master
    pub master_addr : IsAddress master s.master_addr
    pub bank_list : json.Value
    pub bank_values : List json.Value
    pub banks_here : json.get Keys.banks root ≡ ok bank_list
    pub bank_array : IsArray json bank_list bank_values
    pub banks : AreBanks bank_values s.banks
    pub client_list : json.Value
    pub client_values : List json.Value
    pub clients_here : json.get Keys.clients root ≡ ok client_list
    pub client_array : IsArray json client_list client_values
    pub clients : AreClients client_values s.clients
