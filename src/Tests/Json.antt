-- ===== src/Tests/Json.antt =====
-- JSON values for the tests, with the calls of jsoncpp on them, and a small configuration: a bank of
-- three servers, another of one, and a client.
use chain_replication.Base.{
  ℕ, zero, suc, ℤ, pos, String, str_eq, Bool, true, false, Option, none, some, [], ◌∷◌,
  if◌then◌else◌,
}
use chain_replication.Exec.{Result, ok, threw}
use chain_replication.Config.{Json}
use chain_replication.Config.Described.{BankEntry, Setting}
use chain_replication.Tests.Data.{local}

mutual
  pub data Value : Type 0 where
    null : Value
    flag : Bool → Value
    number : ℤ → Value
    text : String → Value
    array : Items → Value
    object : Fields → Value

  pub data Items : Type 0 where
    nil : Items
    cons : Value → Items → Items

  pub data Fields : Type 0 where
    end : Fields
    field : String → Value → Fields → Fields

abbrev pub lookup : String → Fields → Option Value
lookup k end = none
lookup k (field j v fs) = if str_eq j k then some v else lookup k fs

abbrev pub count : Items → ℕ
count nil = 0
count (cons v vs) = suc (count vs)

-- Behind the last element stands null.
abbrev pub item : ℕ → Items → Value
item i nil = null
item zero (cons v vs) = v
item (suc i) (cons v vs) = item i vs

abbrev or_null : Option Value → Value
or_null none = null
or_null (some v) = v

abbrev is_there : Option Value → Bool
is_there none = false
is_there (some v) = true

abbrev get : String → Value → Result Value
get k (object fs) = ok (or_null (lookup k fs))
get k null = ok null
get k v = threw

abbrev is_member : String → Value → Result Bool
is_member k (object fs) = ok (is_there (lookup k fs))
is_member k null = ok false
is_member k v = threw

abbrev size : Value → ℕ
size (array vs) = count vs
size v = 0

abbrev at : ℕ → Value → Result Value
at i (array vs) = ok (item i vs)
at i null = ok null
at i v = threw

abbrev as_string : Value → Result String
as_string (text s) = ok s
as_string null = ok ""
as_string v = threw

abbrev as_int : Value → Result ℤ
as_int (number z) = ok z
as_int null = ok (pos 0)
as_int v = threw

abbrev as_bool : Value → Result Bool
as_bool (flag b) = ok b
as_bool null = ok false
as_bool v = threw

abbrev as_double : Value → Result ℕ
as_double (number (pos n)) = ok n
as_double null = ok 0
as_double v = threw

-- The only file is "config.json", and its text stands for the value `root`.
abbrev pub json_of : Value → Json ℕ
json_of root = record {
  Value = Value;
  contents = λ dir. if str_eq dir "config.json" then some "{}" else none;
  parse = λ s. some root;
  get = get;
  is_member = is_member;
  size = size;
  at = at;
  as_string = as_string;
  as_int = as_int;
  as_bool = as_bool;
  as_double = as_double;
}

abbrev pub place : ℕ → Fields → Value
place port fs = object (field "ip" (text "127.0.0.1") (field "port" (number (pos port)) fs))

abbrev pub server_json : ℕ → ℕ → Value
server_json port chainno = place port (
    field "chainno" (number (pos chainno))
      (field "startdelay" (number (pos 0)) (field "failscenario" (text "none") end)))

abbrev pub bank_json : String → Value → Value
bank_json id servers = object (field "bankid" (text id) (field "servers" servers end))

abbrev pub client_json : Fields → Value
client_json fs = place 60001 (field "clientid" (text "client1") fs)

abbrev pub config_json : Value
config_json = object (
    field "server_report_interval" (number (pos 5))
      (field "server_fail_timeout" (number (pos 10)) (field "udp_drop_interval" (text "3") end)))

abbrev pub list_1 : Value
list_1 =
    array (cons (server_json 50001 1) (cons (server_json 50002 2) (cons (server_json 50003 3) nil)))

abbrev pub list_2 : Value
list_2 = array (cons (server_json 50011 1) nil)

abbrev pub bank_list : Value
bank_list = array (cons (bank_json "bank1" list_1) (cons (bank_json "bank2" list_2) nil))

abbrev pub root_with : Fields → Value
root_with fs = object (
    field "config" config_json (
      field "master" (place 50000 end)
        (field "banks" bank_list (field "clients" (array (cons (client_json fs) nil)) end))))

abbrev pub bank_1 : BankEntry
bank_1 = record { bank_id = "bank1"; first = local 50001; others = local 50002 ∷ local 50003 ∷ [] }

abbrev pub bank_2 : BankEntry
bank_2 = record { bank_id = "bank2"; first = local 50011; others = [] }

abbrev pub small : Setting
small = record {
  report_interval = pos 5;
  fail_timeout = pos 10;
  master_addr = local 50000;
  banks = bank_1 ∷ bank_2 ∷ [];
  clients = ("client1", local 60001) ∷ [];
}
