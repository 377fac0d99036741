-- ===== src/Master/State.antt =====
-- The master process: the object `master` of src-cpp/master/master.h, with the globals of master.cc
-- and the sockets.
use chain_replication.Base.{ℕ, ℤ, String}
use chain_replication.Base.Map.{Map, find, insert, assign}
use chain_replication.Exec.{Exec, gets, modify, expect, require, ◌>>=◌, ◌>>◌}
use chain_replication.Proto.{Address}
use chain_replication.Wire.{Wire}
use chain_replication.Master.Chain.{BankServerChain}

pub record Master : Type 0 where
  pub addr : Address
  pub bank_server_chain : Map BankServerChain
  pub client_list : Map Address

pub record MasterProcess (A : Type 0) : Type 0 where
  pub master : Master
  pub wire : Wire A
  -- In seconds.
  pub check_alive_interval : ℤ
  pub crash_timeout : ℤ
  -- What `steady_clock::now()` reads.
  pub now : ℕ

module _ {A : Type 0} where
  abbrev pub on_wire : {R : Type 0} → Exec (Wire A) R → Exec (MasterProcess A) R
  on_wire m p = let (r, w) = m p.wire in (r, record p { wire = w })

  abbrev pub asks : {R : Type 0} → (Master → R) → Exec (MasterProcess A) R
  asks f = gets (λ p. f p.master)

  -- `get_bank_server_chain_by_id`, with its `assert`.
  unfoldable pub get_bank_server_chain_by_id : String → Exec (MasterProcess A) BankServerChain
  unfolding ◌>>=◌
  get_bank_server_chain_by_id bank_id = do
    found ← asks (λ m. find bank_id m.bank_server_chain)
    expect found

  -- What an assignment through the reference that it returns changes.
  abbrev pub put_chain : String → BankServerChain → Exec (MasterProcess A) (Unit {0})
  put_chain bank_id b = modify (λ p. record p {
    master = record p.master { bank_server_chain = assign bank_id b p.master.bank_server_chain };
  })

  -- `add_bank` and `add_client`: an id that is there already fails the `assert`.
  unfoldable pub add_bank : String → BankServerChain → Exec (MasterProcess A) (Unit {0})
  unfolding ◌>>=◌
  add_bank bank_id b = do
    inserted ← asks (λ m. insert bank_id b m.bank_server_chain)
    modify (λ p. record p { master = record p.master { bank_server_chain = inserted.0 } })
    require inserted.1

  unfoldable pub add_client : String → Address → Exec (MasterProcess A) (Unit {0})
  unfolding ◌>>=◌
  add_client client_id client_addr = do
    inserted ← asks (λ m. insert client_id client_addr m.client_list)
    modify (λ p. record p { master = record p.master { client_list = inserted.0 } })
    require inserted.1
