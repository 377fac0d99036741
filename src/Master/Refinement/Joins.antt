-- ===== src/Master/Refinement/Joins.antt =====
-- `handle_join` and `handle_extend_finish` of src-cpp/master/master.cc: a server that joins a chain
-- waits behind the tail until it reports that it is ready, and is then the tail.
use chain_replication.Base.{
  ◌≡◌, refl, sym, ap, subst, ◌∙◌, inl, inr, false, none, some, List, [], ◌∷◌, ◌++◌, arith,
}
use chain_replication.Base.Map.{find, assign, assign_again}
use chain_replication.Exec.{ok, ◌>>=◌}
use chain_replication.Proto.{
  Address, default_address, addr_eq, Join, ExtendFinish, extend_server, address_sub, new_tail,
}
use chain_replication.Proto.Prepare.{prepare_msg}
use chain_replication.Wire.{send_msg_tcp}
use chain_replication.Wire.Sends.{send_msg_tcp_returns}
use chain_replication.Master.Chain.{BankServerChain, new_node, append_node, pre_server_addr}
use chain_replication.Master.Chain.View.{
  addrs-append, member, last_or, Distinct, previous, previous_of_lem, addr_eq_comm, member-append,
}
use chain_replication.Master.Chain.Neighbours.{or_last, previous-append}
use chain_replication.Master.State.{MasterProcess, get_bank_server_chain_by_id}
use chain_replication.Master.Quiet.{IsHealthy, Quiet}
use chain_replication.Master.Crash.{notify_clients}
use chain_replication.Master.Dispatch.{handle_join, handle_extend_finish}
use chain_replication.Master.Refinement.{IsChain}
use chain_replication.Master.Refinement.Crashes.{Ends, notify_clients-Quiet}

append_nil : (xs : List Address) → xs ++ [] ≡ xs
append_nil [] = refl
append_nil (x ∷ xs) = ap (◌∷◌ x) (append_nil xs)

append_assoc : (xs : List Address) (y : Address) → (xs ++ y ∷ []) ++ [] ≡ xs ++ y ∷ []
append_assoc xs y = append_nil (xs ++ y ∷ [])

last_or-append : (x y : Address) (xs : List Address) → last_or x (xs ++ y ∷ []) ≡ y
last_or-append x y [] = refl
last_or-append x y (z ∷ zs) = last_or-append z y zs

Distinct-snoc :
    (a : Address) (xs : List Address) → member a xs ≡ false → Distinct xs → Distinct (xs ++ a ∷ [])
Distinct-snoc a [] m d = (refl, tt)
Distinct-snoc a (x ∷ xs) m d = (
  ground (arith, d.0, member-append x xs (a ∷ []), addr_eq_comm x a),
  Distinct-snoc a xs (ground arith) d.1,
)

-- The chain with `e` waiting behind the tail.
abbrev pub joined : Address → BankServerChain → BankServerChain
joined e b = record b { server_chain = b.server_chain ++ new_node e ∷ []; extending = e }

joined-IsChain :
    (e x : Address) (xs : List Address) (b : BankServerChain)
    → IsChain b x xs []
    → member e (x ∷ xs) ≡ false
    → addr_eq e default_address ≡ false
    → IsChain (joined e b) x xs (e ∷ [])
joined-IsChain e x xs b c n d = record {
  servers =
      addrs-append b.server_chain (new_node e ∷ [])
      ∙ ap (λ l. l ++ e ∷ []) (c.servers ∙ append_nil (x ∷ xs));
  head_first = c.head_first;
  tail_last = c.tail_last;
  extension = inr refl;
  distinct = Distinct-snoc e (x ∷ xs) n (subst Distinct (append_nil (x ∷ xs)) c.distinct);
  named = ground (
    arith,
    member-append default_address (x ∷ xs) (e ∷ []),
    subst (λ l. member default_address l ≡ false) (append_nil (x ∷ xs)) c.named,
    d,
  );
}

finished-IsChain :
    (e x : Address) (xs : List Address) (b : BankServerChain)
    → IsChain b x xs (e ∷ [])
    → IsChain (record b { tail = e; extending = default_address }) x (xs ++ e ∷ []) []
finished-IsChain e x xs b c = record {
  servers = c.servers ∙ same;
  head_first = c.head_first;
  tail_last = sym (last_or-append x e xs);
  extension = inl (refl, refl);
  distinct = subst Distinct same c.distinct;
  named = subst (λ l. member default_address l ≡ false) same c.named;
}
  where
    same : (x ∷ xs) ++ e ∷ [] ≡ (x ∷ xs ++ e ∷ []) ++ []
    same = sym (append_assoc (x ∷ xs) e)

-- The server before the one that was appended is the tail.
before_joined :
    (e x : Address) (xs : List Address) (b : BankServerChain)
    → IsChain b x xs []
    → member e (x ∷ xs) ≡ false
    → pre_server_addr e (append_node e b) ≡ some (last_or x xs)
unfolding pre_server_addr append_node or_last
before_joined e x xs b c n = rw apart (
    previous_of_lem none e (b.server_chain ++ new_node e ∷ [])
    ∙ ap (previous none e) (
        addrs-append b.server_chain (new_node e ∷ [])
        ∙ ap (λ l. l ++ e ∷ []) (c.servers ∙ append_nil (x ∷ xs)))
    ∙ previous-append none e (x ∷ xs) [] n)
  where
    apart : addr_eq e b.head ≡ false
    apart = ground (arith, c.head_first, addr_eq_comm e x, n)

module _ {A : Type 0} where
  join_runs :
      (msg : Join) (x : Address) (xs : List Address) (b : BankServerChain) (p : MasterProcess A)
      → find msg.bank_id p.master.bank_server_chain ≡ some b
      → IsChain b x xs []
      → member msg.server_addr (x ∷ xs) ≡ false
      → IsHealthy p.wire.net
      → handle_join msg p ≡ (
        ok tt,
        record p {
          master = record p.master {
            bank_server_chain =
                assign msg.bank_id (joined msg.server_addr b) p.master.bank_server_chain;
          };
          wire = (send_msg_tcp (last_or x xs) extend_server (address_sub msg.server_addr) p.wire).1;
        },
      )
  unfolding handle_join get_bank_server_chain_by_id append_node ◌>>=◌ prepare_msg
  join_runs msg x xs b p f c n h =
      rw (f, before_joined msg.server_addr x xs b c n)
        (ground (
          arith,
          send_msg_tcp_returns (last_or x xs) extend_server (address_sub msg.server_addr) p.wire
              (h.addresses (last_or x xs).ip) (h.closing p.wire.attempts) refl,
          assign_again msg.bank_id (joined msg.server_addr b) (append_node msg.server_addr b)
              p.master.bank_server_chain,
        ))

  -- On a network on which the sends return, a server that is not of the chain asks to join a chain
  -- that no other is joining. Then the request ends, the server waits behind the tail, which keeps
  -- its place, and the only thing sent is the request to the tail to extend the chain to it.
  pub handle_join_lem :
      (msg : Join) (x : Address) (xs : List Address) (b : BankServerChain) (p : MasterProcess A)
      → find msg.bank_id p.master.bank_server_chain ≡ some b
      → IsChain b x xs []
      → member msg.server_addr (x ∷ xs) ≡ false
      → addr_eq msg.server_addr default_address ≡ false
      → IsHealthy p.wire.net
      → IsChain (joined msg.server_addr b) x xs (msg.server_addr ∷ [])
        × Ends msg.bank_id (joined msg.server_addr b) p (handle_join msg p)
        × ((handle_join msg p).1.wire
            ≡ (send_msg_tcp (last_or x xs) extend_server (address_sub msg.server_addr) p.wire).1)
  handle_join_lem msg x xs b p f c n d h = (
    joined-IsChain msg.server_addr x xs b c n d,
    (
      ap (λ r. r.0) (join_runs msg x xs b p f c n h),
      ap (λ r. r.1.master) (join_runs msg x xs b p f c n h),
    ),
    ap (λ r. r.1.wire) (join_runs msg x xs b p f c n h),
  )

  -- The server that a chain waits for reports that it is ready. Then the report is handled to its
  -- end, and the server is the last of the active ones, and the tail.
  pub handle_extend_finish_lem :
      (msg : ExtendFinish) (x : Address) (xs : List Address) (b : BankServerChain)
      (p : MasterProcess A)
      → find msg.bank_id p.master.bank_server_chain ≡ some b
      → IsChain b x xs (msg.server_addr ∷ [])
      → IsHealthy p.wire.net
      → IsChain
          (record b { tail = msg.server_addr; extending = default_address })
          x
          (xs ++ msg.server_addr ∷ [])
          []
        × Ends msg.bank_id
            (record b { tail = msg.server_addr; extending = default_address })
            p
            (handle_extend_finish msg p)
  unfolding handle_extend_finish get_bank_server_chain_by_id ◌>>=◌ prepare_msg
  handle_extend_finish_lem msg x xs b p f c h = (
    finished-IsChain msg.server_addr x xs b c,
    rw f (tells.returns changed h, (tells.unchanged changed).same_master),
  )
    where
      changed : MasterProcess A
      changed = record p {
        master = record p.master {
          bank_server_chain =
              assign msg.bank_id (record b { tail = msg.server_addr; extending = default_address })
                p.master.bank_server_chain;
        };
      }

      tells :
          Quiet {A = A} (
            notify_clients new_tail (record { bank_id = b.bank_id; server_addr = msg.server_addr }))
      tells =
          notify_clients-Quiet new_tail
            (record { bank_id = b.bank_id; server_addr = msg.server_addr }) refl
