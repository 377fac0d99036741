-- ===== src/Master/Quiet.antt =====
-- What the master sends leaves its own data as they are. On a network where addresses parse, UDP
-- sends go out, packets are small and TCP sockets close, every send also returns: a TCP send may
-- still fail.
use chain_replication.Base.{
  ℕ, sym, ap, subst, ◌+◌, ◌<◌, String, ◌≡◌, refl, ◌∙◌, Bool, true, false, List, [], ◌∷◌, arith,
  if◌then◌else◌,
}
use chain_replication.Exec.{ok, Exec, done, for_each, ◌>>=◌, ◌>>◌}
use chain_replication.Proto.{Address, MessageType, Message, SubMessage}
use chain_replication.Wire.{Net, Delivery, closes, send_msg_tcp, send_msg_udp}
use chain_replication.Wire.Sends.{
  Fits, net-send_msg_tcp, send_msg_tcp_returns, net-send_msg_udp, send_msg_udp_returns,
}
use chain_replication.Exec.Rules.{IsOrder, Moves-bind}
use chain_replication.Master.State.{Master, MasterProcess, on_wire, asks}

module _ {A : Type 0} where
  pub record IsHealthy (net : Net A) : Type 0 where
    pub addresses : (ip : String) → net.is_address ip ≡ true
    pub datagrams : (n : ℕ) → net.udp n ≡ Delivery.written
    pub closing : (n : ℕ) → closes (net.tcp n) ≡ true
    pub small : (m : Message A) → net.byte_size m + 4 < 512

  -- The data are as before, and the network is still the same.
  pub record Unchanged (p q : MasterProcess A) : Type 0 where
    pub same_master : q.master ≡ p.master
    pub same_net : q.wire.net ≡ p.wire.net

  Unchanged-order : IsOrder Unchanged
  Unchanged-order = record {
    here = λ p. record { same_master = refl; same_net = refl };
    next = λ p q r u v. record {
      same_master = v.same_master ∙ u.same_master;
      same_net = v.same_net ∙ u.same_net;
    };
  }

  pub record Quiet (m : Exec (MasterProcess A) (Unit {0})) : Type 0 where
    pub returns : (p : MasterProcess A) → IsHealthy p.wire.net → (m p).0 ≡ ok tt
    pub unchanged : (p : MasterProcess A) → Unchanged p (m p).1

  pub Quiet-done : Quiet done
  Quiet-done = record {
    returns = λ p h. refl;
    unchanged = λ p. record { same_master = refl; same_net = refl };
  }

  pub Quiet-if :
      (b : Bool) (m n : Exec (MasterProcess A) (Unit {0}))
      → Quiet m
      → Quiet n
      → Quiet (if b then m else n)
  Quiet-if true m n h k = h
  Quiet-if false m n h k = k

  pub Quiet-send :
      (target : Address) (t : MessageType) (sub : SubMessage A)
      → Fits target t sub
      → Quiet (do on_wire (send_msg_tcp target t sub); done)
  unfolding ◌>>=◌
  Quiet-send target t sub fits = record {
    returns = λ p h. ground (
      arith,
      send_msg_tcp_returns target t sub p.wire (h.addresses target.ip) (h.closing p.wire.attempts)
          fits,
    );
    unchanged = λ p. record {
      same_master = ground arith;
      same_net = ground (arith, net-send_msg_tcp target t sub p.wire);
    };
  }

  pub Quiet-send_udp :
      (local target : Address) (t : MessageType) (sub : SubMessage A)
      → Fits target t sub
      → Quiet (do on_wire (send_msg_udp local target t sub); done)
  unfolding ◌>>=◌
  Quiet-send_udp local target t sub fits = record {
    returns = λ p h. ground (
      arith,
      send_msg_udp_returns target t sub local p.wire (h.addresses local.ip) (h.addresses target.ip)
          (h.datagrams p.wire.attempts) h.small fits,
    );
    unchanged = λ p. record {
      same_master = ground arith;
      same_net = ground (arith, net-send_msg_udp target t sub local p.wire);
    };
  }

  -- What comes after quiet code runs at the state that it leaves.
  pub then_runs :
      {R : Type 0} (m : Exec (MasterProcess A) (Unit {0})) (n : Exec (MasterProcess A) R)
      (p : MasterProcess A)
      → Quiet m
      → IsHealthy p.wire.net
      → (m >> n) p ≡ n (m p).1
  unfolding ◌>>=◌
  then_runs m n p q h = ground (arith, q.returns p h)

  pub still-IsHealthy :
      (p q : MasterProcess A) → Unchanged p q → IsHealthy p.wire.net → IsHealthy q.wire.net
  still-IsHealthy p q u h = subst IsHealthy (sym u.same_net) h

  pub Quiet-then : (m n : Exec (MasterProcess A) (Unit {0})) → Quiet m → Quiet n → Quiet (m >> n)
  Quiet-then m n qm qn = record {
    returns = λ p h.
        ap (λ r. r.0) (then_runs m n p qm h)
        ∙ qn.returns (m p).1 (still-IsHealthy p (m p).1 (qm.unchanged p) h);
    unchanged =
        (Moves-bind Unchanged-order m (λ _. n) (record { at = qm.unchanged })
          (λ _. record { at = qn.unchanged })).at;
  }

  pub Quiet-for_each :
      {X : Type 0} (xs : List X) (body : X → Exec (MasterProcess A) (Unit {0}))
      → ((x : X) → Quiet (body x))
      → Quiet (for_each xs body)
  unfolding for_each
  Quiet-for_each [] body q = Quiet-done
  Quiet-for_each (x ∷ xs) body q =
      Quiet-then (body x) (for_each xs body) (q x) (Quiet-for_each xs body q)

  pub Quiet-asks :
      {X : Type 0} (g : Master → X) (body : X → Exec (MasterProcess A) (Unit {0}))
      → ((x : X) → Quiet (body x))
      → Quiet (asks g >>= body)
  unfolding ◌>>=◌
  Quiet-asks g body q = record {
    returns = λ p h. (q (g p.master)).returns p h;
    unchanged = λ p. (q (g p.master)).unchanged p;
  }
