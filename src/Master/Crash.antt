-- ===== src/Master/Crash.antt =====
-- A crashed server: `notify_crash` and `check_alive` of src-cpp/master/master.cc.
use chain_replication.Base.{
  ℕ, ℤ, String, not, ◌&&◌, Option, none, some, List, [], ◌∷◌, if◌then◌else◌,
}
use chain_replication.Exec.{Exec, done, gets, expect, require, for_each, ◌>>=◌, ◌>>◌}
use chain_replication.Proto.{
  Address, default_address, addr_eq, Notify, SubMessage, MessageType, to_be_head, to_be_tail,
  new_head, new_tail, new_pre_server, extend_server, extend_fail, notify_sub, address_sub,
  message_sub,
}
use chain_replication.Wire.{send_msg_tcp, send_msg_udp}
use chain_replication.Master.Chain.{
  Node, BankServerChain, remove_node, succ_server_addr, pre_server_addr, set_node, expired,
  become_crashed,
}
use chain_replication.Master.State.{
  MasterProcess, on_wire, asks, get_bank_server_chain_by_id, put_chain,
}

-- The node at which the inner loop of `check_alive` stops.
unfoldable pub first_expired : ℕ → ℤ → List Node → Option Node
first_expired now crash_timeout [] = none
first_expired now crash_timeout (x ∷ xs) =
    if not x.crashed && expired now crash_timeout x
    then some x
    else first_expired now crash_timeout xs

module _ {A : Type 0} where
  abbrev pub send : Address → MessageType → SubMessage A → Exec (MasterProcess A) (Unit {0})
  send target t sub = do on_wire (send_msg_tcp target t sub); done

  -- `for(const auto& it : master->client_list()) send_msg_udp(…)`
  unfoldable pub notify_clients : MessageType → Notify → Exec (MasterProcess A) (Unit {0})
  unfolding ◌>>=◌
  notify_clients t notify = do
    addr ← asks (λ m. m.addr)
    clients ← asks (λ m. m.client_list)
    for_each clients (λ c. do on_wire (send_msg_udp addr c.1 t (notify_sub notify)); done)

  -- The body of the loops over all servers but the ones that are joining.
  unfoldable pub notify_chain :
      Notify → String × BankServerChain → Exec (MasterProcess A) (Unit {0})
  unfolding ◌>>=◌
  notify_chain notify entry = for_each entry.1.server_chain (λ tmp_node.
      if not (addr_eq tmp_node.addr entry.1.extending)
      then send tmp_node.addr new_head (notify_sub notify)
      else done)

  unfoldable pub head_crashed :
      String → BankServerChain → Address → Exec (MasterProcess A) (Unit {0})
  unfolding ◌>>=◌
  head_crashed key bsc node = do
    new_head_addr ← expect (succ_server_addr node bsc)
    send new_head_addr to_be_head message_sub
    bsc' ← expect (remove_node node (record bsc { head = new_head_addr }))
    put_chain key bsc'
    let notify : Notify = record { bank_id = bsc.bank_id; server_addr = new_head_addr }
    notify_clients new_head notify
    chains ← asks (λ m. m.bank_server_chain)
    for_each chains (notify_chain notify)

  unfoldable pub tail_crashed :
      String → BankServerChain → Address → Exec (MasterProcess A) (Unit {0})
  unfolding ◌>>=◌
  tail_crashed key bsc node = do
    new_tail_addr ← expect (pre_server_addr node bsc)
    send new_tail_addr to_be_tail message_sub
    bsc' ← expect (remove_node node (record bsc { tail = new_tail_addr }))
    put_chain key bsc'
    notify_clients new_tail (record { bank_id = bsc.bank_id; server_addr = new_tail_addr })
    if not (addr_eq default_address bsc'.extending)
        then send bsc'.tail extend_server (address_sub bsc'.extending)
        else done

  unfoldable pub internal_crashed :
      String → BankServerChain → Address → Exec (MasterProcess A) (Unit {0})
  unfolding ◌>>=◌
  internal_crashed key bsc node = do
    succ_addr ← expect (succ_server_addr node bsc)
    pre_addr ← expect (pre_server_addr node bsc)
    send succ_addr new_pre_server (address_sub pre_addr)
    bsc' ← expect (remove_node node bsc)
    put_chain key bsc'

  unfoldable pub extending_crashed :
      String → BankServerChain → Address → Exec (MasterProcess A) (Unit {0})
  unfolding ◌>>=◌
  extending_crashed key bsc node = do
    require (addr_eq node bsc.extending)
    pre_addr ← expect (pre_server_addr node bsc)
    send pre_addr extend_fail message_sub
    bsc' ← expect (remove_node node bsc)
    put_chain key (record bsc' { extending = default_address })

  unfoldable pub notify_crash :
      String → BankServerChain → Address → Exec (MasterProcess A) (Unit {0})
  notify_crash key bsc node =
      if addr_eq node bsc.head && not (addr_eq node bsc.tail)
      then head_crashed key bsc node
      else if not (addr_eq node bsc.head) && addr_eq node bsc.tail
      then tail_crashed key bsc node
      else if not (addr_eq node bsc.head)
          && not (addr_eq node bsc.tail)
          && not (addr_eq node bsc.extending)
      then internal_crashed key bsc node
      else extending_crashed key bsc node

  unfoldable pub crash_found :
      String → BankServerChain → Option Node → Exec (MasterProcess A) (Unit {0})
  unfolding ◌>>=◌
  crash_found key bsc none = done
  crash_found key bsc (some node) = do
    now ← gets (λ p. p.now)
    crash_timeout ← gets (λ p. p.crash_timeout)
    let bsc' = record bsc {
      server_chain = set_node node.addr (become_crashed now crash_timeout node) bsc.server_chain;
    }
    put_chain key bsc'
    notify_crash key bsc' node.addr

  unfoldable pub check_chain : String → Exec (MasterProcess A) (Unit {0})
  unfolding ◌>>=◌
  check_chain key = do
    bsc ← get_bank_server_chain_by_id key
    now ← gets (λ p. p.now)
    crash_timeout ← gets (λ p. p.crash_timeout)
    crash_found key bsc (first_expired now crash_timeout bsc.server_chain)

  -- One round of the endless loop of `check_alive`.
  unfoldable pub check_alive : Exec (MasterProcess A) (Unit {0})
  unfolding ◌>>=◌
  check_alive = do
    chains ← asks (λ m. m.bank_server_chain)
    for_each chains (λ entry. check_chain entry.0)
