-- ===== src/Master/Refinement/Crashes.antt =====
-- `notify_crash` of src-cpp/master/master.cc takes the crashed server out of the chain, whichever it
-- was, and makes the next one or the one before it the new end.
use chain_replication.Base.{String, ◌≡◌, refl, sym, subst, true, not, Option, some, if◌then◌else◌}
use chain_replication.Base.Map.{assign}
use chain_replication.Exec.{Result, ok, Exec, done, expect, for_each, ◌>>=◌, ◌>>◌}
use chain_replication.Proto.{
  Address, default_address, addr_eq, Notify, MessageType, to_be_head, to_be_tail, new_head,
  new_tail, new_pre_server, extend_server, extend_fail, notify_sub, address_sub, message_sub,
}
use chain_replication.Proto.Prepare.{prepare_msg}
use chain_replication.Wire.Sends.{Fits}
use chain_replication.Master.Chain.{BankServerChain, remove_node, succ_server_addr, pre_server_addr}
use chain_replication.Master.Chain.View.{addrs, member}
use chain_replication.Master.State.{MasterProcess, asks, put_chain}
use chain_replication.Master.Quiet.{
  IsHealthy, Quiet, Quiet-done, Quiet-if, Quiet-send, Quiet-send_udp, Quiet-then, Quiet-for_each,
  Quiet-asks, then_runs, still-IsHealthy,
}
use chain_replication.Master.Crash.{
  send, notify_clients, notify_chain, head_crashed, tail_crashed, internal_crashed,
  extending_crashed,
}
use chain_replication.Master.Refinement.Removal.{removed, remove_node_found}

module _ {A : Type 0} where
  pub notify_clients-Quiet :
      (t : MessageType) (n : Notify)
      → Fits {A = A} default_address t (notify_sub n)
      → Quiet {A = A} (notify_clients t n)
  unfolding notify_clients
  notify_clients-Quiet t n fits =
      Quiet-asks (λ m. m.addr) _
        λ addr.
          Quiet-asks (λ m. m.client_list) _
            λ clients. Quiet-for_each clients _ λ c. Quiet-send_udp addr c.1 t (notify_sub n) fits

  notify_chain-Quiet :
      (n : Notify) (entry : String × BankServerChain) → Quiet (notify_chain {A = A} n entry)
  unfolding notify_chain prepare_msg
  notify_chain-Quiet n entry = Quiet-for_each entry.1.server_chain _ λ node.
      Quiet-if (not (addr_eq node.addr entry.1.extending)) _ done
        (Quiet-send node.addr new_head (notify_sub n) refl) Quiet-done

  -- The code has ended, and has changed one chain.
  abbrev pub Ends :
      String → BankServerChain → MasterProcess A → Result (Unit {0}) × MasterProcess A → Type 0
  Ends key b p r =
      (r.0 ≡ ok tt)
      × (r.1.master
          ≡ record p.master { bank_server_chain = assign key b p.master.bank_server_chain })

  -- What all branches do once the neighbours are known.
  changes :
      String
      → Option BankServerChain
      → (BankServerChain → BankServerChain)
      → (BankServerChain → Exec (MasterProcess A) (Unit {0}))
      → Exec (MasterProcess A) (Unit {0})
  changes key o u n = do b ← expect o; put_chain key (u b); n b

  changes_lem :
      (key : String) (o : Option BankServerChain) (u : BankServerChain → BankServerChain)
      (n : BankServerChain → Exec (MasterProcess A) (Unit {0})) (b : BankServerChain)
      (p : MasterProcess A)
      → o ≡ some b
      → Quiet (n b)
      → IsHealthy p.wire.net
      → Ends key (u b) p (changes key o u n p)
  unfolding changes ◌>>=◌
  changes_lem key o u n b p e qn h =
      subst (λ o. Ends key (u b) p (changes key o u n p)) (sym e)
        (qn.returns changed h, (qn.unchanged changed).same_master)
    where
      changed : MasterProcess A
      changed = record p {
        master = record p.master {
          bank_server_chain = assign key (u b) p.master.bank_server_chain;
        };
      }

  removes_lem :
      (key : String) (m : Exec (MasterProcess A) (Unit {0})) (o : Option BankServerChain)
      (u : BankServerChain → BankServerChain)
      (n : BankServerChain → Exec (MasterProcess A) (Unit {0})) (b : BankServerChain)
      (p : MasterProcess A)
      → o ≡ some b
      → Quiet m
      → Quiet (n b)
      → IsHealthy p.wire.net
      → Ends key (u b) p ((m >> changes key o u n) p)
  removes_lem key m o u n b p e qm qn h =
      subst (Ends key (u b) p) (sym (then_runs m (changes key o u n) p qm h)) (
        subst
          (λ master.
            Ends key (u b) (record (m p).1 { master = master }) (changes key o u n (m p).1))
          (qm.unchanged p).same_master
          (changes_lem key o u n b (m p).1 e qn (still-IsHealthy p (m p).1 (qm.unchanged p) h)))

module _ {A : Type 0} (key : String) (a : Address) (b : BankServerChain) (p : MasterProcess A)
    (h : IsHealthy p.wire.net) (m : member a (addrs b.server_chain) ≡ true) where
  pub head_crashed_lem :
      (s : Address)
      → succ_server_addr a b ≡ some s
      → Ends key (record (removed a b) { head = s }) p (head_crashed key b a p)
  unfolding head_crashed ◌>>=◌ prepare_msg changes
  head_crashed_lem s e = rw e (
      removes_lem key (send s to_be_head message_sub) (remove_node a (record b { head = s }))
        (λ c. c) (λ _. tells) (record (removed a b) { head = s }) p
        (remove_node_found a (record b { head = s }) m) (Quiet-send s to_be_head message_sub refl)
        tells-Quiet h)
    where
      notify : Notify
      notify = record { bank_id = b.bank_id; server_addr = s }

      tells : Exec (MasterProcess A) (Unit {0})
      tells =
          notify_clients new_head notify
          >> (do chains ← asks (λ m. m.bank_server_chain); for_each chains (notify_chain notify))

      tells-Quiet : Quiet {A = A} tells
      tells-Quiet = Quiet-then _ _ (notify_clients-Quiet new_head notify refl) (
          Quiet-asks (λ m. m.bank_server_chain) _
            λ chains. Quiet-for_each chains _ λ c. notify_chain-Quiet notify c)

  pub tail_crashed_lem :
      (s : Address)
      → pre_server_addr a b ≡ some s
      → Ends key (record (removed a b) { tail = s }) p (tail_crashed key b a p)
  unfolding tail_crashed ◌>>=◌ prepare_msg changes
  tail_crashed_lem s e = rw e (
      removes_lem key (send s to_be_tail message_sub) (remove_node a (record b { tail = s }))
        (λ c. c) tells (record (removed a b) { tail = s }) p
        (remove_node_found a (record b { tail = s }) m) (Quiet-send s to_be_tail message_sub refl)
        tells-Quiet h)
    where
      notify : Notify
      notify = record { bank_id = b.bank_id; server_addr = s }

      tells : BankServerChain → Exec (MasterProcess A) (Unit {0})
      tells c =
          notify_clients new_tail notify
          >> (if not (addr_eq default_address c.extending)
              then send c.tail extend_server (address_sub c.extending)
              else done)

      tells-Quiet : Quiet {A = A} (tells (record (removed a b) { tail = s }))
      tells-Quiet = Quiet-then _ _ (notify_clients-Quiet new_tail notify refl) (
          Quiet-if (not (addr_eq default_address b.extending)) _ done
            (Quiet-send s extend_server (address_sub b.extending) refl) Quiet-done)

  pub internal_crashed_lem :
      (s t : Address)
      → succ_server_addr a b ≡ some s
      → pre_server_addr a b ≡ some t
      → Ends key (removed a b) p (internal_crashed key b a p)
  unfolding internal_crashed ◌>>=◌ prepare_msg changes
  internal_crashed_lem s t e f =
      rw (e, f, remove_node_found a b m)
        (removes_lem key (send s new_pre_server (address_sub t)) (some (removed a b)) (λ c. c)
          (λ _. done) (removed a b) p refl (Quiet-send s new_pre_server (address_sub t) refl)
          Quiet-done h)

  pub extending_crashed_lem :
      (s : Address)
      → addr_eq a b.extending ≡ true
      → pre_server_addr a b ≡ some s
      → Ends key
          (record (removed a b) { extending = default_address })
          p
          (extending_crashed key b a p)
  unfolding extending_crashed ◌>>=◌ prepare_msg changes
  extending_crashed_lem s x e =
      rw (x, e, remove_node_found a b m)
        (removes_lem key (send s extend_fail message_sub) (some (removed a b))
          (λ c. record c { extending = default_address }) (λ _. done) (removed a b) p refl
          (Quiet-send s extend_fail message_sub refl) Quiet-done h)
