-- ===== src/Client/State.antt =====
-- The object of a client in src-cpp/client/client.h, its handlers of notices, and `drop_reply`.
use chain_replication.Base.{ℕ, zero, suc, ◌%◌, ℤ, pos, negsuc, String, Bool, false, List, ◌==◌}
use chain_replication.Base.Map.{Map, find, assign}
use chain_replication.Exec.{Exec, done, gets, modify, expect, ◌>>=◌, ◌>>◌}
use chain_replication.Proto.{Address, Request, Notify, Message, new_head, new_tail}
use chain_replication.Wire.{Wire}

pub record Client (A : Type 0) : Type 0 where
  pub ip : String
  pub port : ℤ
  pub clientid : String
  pub wait_timeout : ℤ
  pub resend_num : ℤ
  pub resend_newhead : Bool
  pub drop_interval : ℤ
  -- It counts up from 0. The overflow of `int` is not modelled.
  pub recv_count : ℕ
  pub bank_head_list : Map Address
  pub bank_tail_list : Map Address
  pub request_vector : List (Request A)

-- The thread of a client, with its socket.
pub record ClientProcess (A : Type 0) : Type 0 where
  pub client : Client A
  pub wire : Wire A

-- `recv_count_ % drop_interval_ == 0`, unless the interval is 0. The sign of the divisor has no
-- part in it.
unfoldable pub drop_reply : ℤ → ℕ → Bool
drop_reply (pos zero) recv_count = false
drop_reply (pos (suc n)) recv_count = (recv_count % suc n) == 0
drop_reply (negsuc n) recv_count = (recv_count % suc n) == 0

module _ {A : Type 0} where
  abbrev pub on_wire : {R : Type 0} → Exec (Wire A) R → Exec (ClientProcess A) R
  on_wire m p = let (r, w) = m p.wire in (r, record p { wire = w })

  abbrev pub asks : {R : Type 0} → (Client A → R) → Exec (ClientProcess A) R
  asks f = gets (λ p. f p.client)

  abbrev pub updates : (Client A → Client A) → Exec (ClientProcess A) (Unit {0})
  updates f = modify (λ p. record p { client = f p.client })

  unfoldable pub get_bank_head : String → Exec (ClientProcess A) Address
  unfolding ◌>>=◌
  get_bank_head bankid = do head ← asks (λ c. find bankid c.bank_head_list); expect head

  unfoldable pub get_bank_tail : String → Exec (ClientProcess A) Address
  unfolding ◌>>=◌
  get_bank_tail bankid = do tail ← asks (λ c. find bankid c.bank_tail_list); expect tail

  unfoldable pub handle_new_head : Notify → Exec (ClientProcess A) (Unit {0})
  unfolding ◌>>=◌
  handle_new_head notify = do
    known ← asks (λ c. find notify.bank_id c.bank_head_list)
    expect known
    updates (λ c. record c {
      bank_head_list = assign notify.bank_id notify.server_addr c.bank_head_list;
    })

  unfoldable pub handle_new_tail : Notify → Exec (ClientProcess A) (Unit {0})
  unfolding ◌>>=◌
  handle_new_tail notify = do
    known ← asks (λ c. find notify.bank_id c.bank_tail_list)
    expect known
    updates (λ c. record c {
      bank_tail_list = assign notify.bank_id notify.server_addr c.bank_tail_list;
    })

  unfoldable pub handle_msg : Message A → Exec (ClientProcess A) (Unit {0})
  unfolding ◌>>=◌
  handle_msg msg = elim msg.type [
    | new_head ↦ (do notify ← expect msg.notify; handle_new_head notify)
    | new_tail ↦ (do notify ← expect msg.notify; handle_new_tail notify)
    | _ ↦ done
  ]
