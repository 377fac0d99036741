-- ===== src/Client/Retries.antt =====
-- How often `Client::run` of src-cpp/client/client.cc sends a request, and when it takes a reply.
use chain_replication.Base.{
  ℕ, suc, ◌+◌, ◌-◌, ◌≤◌, ℤ, pos, negsuc, ◌≡◌, refl, ◌∙◌, ap, ap₂, subst, Bool, true, false, List,
  [], ◌∷◌, arith, if◌then◌else◌,
}
use chain_replication.Exec.{Result, ok, exited, aborted, threw, continue, Exec, ◌>>=◌, ◌>>◌}
use chain_replication.Proto.{Address, Request, Message}
use chain_replication.Wire.{Wire, send_msg_udp}
use chain_replication.Client.State.{
  ClientProcess, handle_new_head, handle_new_tail, handle_msg, get_bank_head, get_bank_tail,
}
use chain_replication.Client.Run.{
  Event, timeout, malformed, datagram, may_send, local_addr, target_of, send_request, retarget,
  count_reply, receive, await, process_request,
}

pub may_send_le : (n retry : ℕ) (i : ℤ) → i ≡ pos n → may_send retry i ≡ true → retry ≤ n
may_send_le n retry i e h = ground (arith, e, h)

-- How many sends the setting allows.
abbrev pub sends : ℤ → ℕ
sends (pos n) = suc n
sends (negsuc n) = 0

module _ {A : Type 0} where
  -- The setting and the wire are as before.
  abbrev pub Same : ClientProcess A → ClientProcess A → Type 0
  Same p q = (q.client.resend_num ≡ p.client.resend_num) × (q.wire ≡ p.wire)

  pub receive-Same :
      (req : Request A) (msg : Message A) (p : ClientProcess A) → Same p (receive req msg p).1
  unfolding receive count_reply handle_msg handle_new_head handle_new_tail ◌>>=◌
  receive-Same req msg p = (ground arith, ground arith)

  pub retarget-Same :
      (target : Address) (req : Request A) (p : ClientProcess A) → Same p (retarget target req p).1
  unfolding retarget target_of get_bank_head get_bank_tail ◌>>=◌
  retarget-Same target req p = (ground arith, ground arith)

  -- At most one more attempt.
  abbrev pub OneSend : ClientProcess A → ClientProcess A → Type 0
  OneSend p q =
      (q.client.resend_num ≡ p.client.resend_num) × (q.wire.attempts ≤ p.wire.attempts + 1)

  pub send_request-OneSend :
      (target : Address) (req : Request A) (p : ClientProcess A)
      → OneSend p (send_request target req p).1
  unfolding send_request send_msg_udp ◌>>=◌
  send_request-OneSend target req p = (ground arith, ground arith)

  abbrev AtMost : ℕ → ClientProcess A → Type 0
  AtMost k q = q.wire.attempts ≤ k

  AtMost-bind :
      {Q R : Type 0} (m : Exec (ClientProcess A) Q) (g : Q → Exec (ClientProcess A) R)
      (p : ClientProcess A) (k : ℕ)
      → AtMost k (m p).1
      → ((q : Q) → AtMost k (g q (m p).1).1)
      → AtMost k ((m >>= g) p).1
  unfolding ◌>>=◌
  AtMost-bind {Q} m g p k h i = go (m p).0
    where
      go : (r : Result Q) → AtMost k (continue r g (m p).1).1
      go (ok q) = i q
      go exited = h
      go aborted = h
      go threw = h

  AtMost-if :
      {R : Type 0} (b : Bool) (m n : Exec (ClientProcess A) R) (p : ClientProcess A) (k : ℕ)
      → (b ≡ true → AtMost k (m p).1)
      → (b ≡ false → AtMost k (n p).1)
      → AtMost k ((if b then m else n) p).1
  AtMost-if true m n p k h i = h refl
  AtMost-if false m n p k h i = i refl

  -- The client waits for a reply after `retry` resends, with `n` allowed.
  await-AtMost :
      (n retry : ℕ) (target : Address) (req : Request A) (events : List (Event A))
      (p : ClientProcess A)
      → p.client.resend_num ≡ pos n
      → AtMost (p.wire.attempts + (n - retry)) (await target req retry events p).1
  unfolding await
  await-AtMost n retry target req [] p e = omega arith
  await-AtMost n retry target req (malformed ∷ events) p e = omega arith
  await-AtMost n retry target req (datagram msg ∷ events) p e =
      AtMost-bind (receive req msg) _ p k (omega (arith, same)) λ b.
        AtMost-if b _ _ q k (λ _. omega (arith, same))
          (λ _. omega (
            arith,
            same,
            await-AtMost n retry target req events q ((receive-Same req msg p).0 ∙ e),
          ))
    where
      k : ℕ
      k = p.wire.attempts + (n - retry)

      q : ClientProcess A
      q = (receive req msg p).1

      same : q.wire.attempts ≡ p.wire.attempts
      same = ap (λ (w : Wire A). w.attempts) (receive-Same req msg p).1
  await-AtMost n retry target req (timeout ∷ events) p e =
      AtMost-if (may_send (suc retry) p.client.resend_num) _ _ p k
        (λ b.
          let room = may_send_le n (suc retry) p.client.resend_num e b in
          AtMost-bind (retarget target req) _ p k (omega (arith, same)) λ target'.
            AtMost-bind (send_request target' req) _ q k (omega (arith, same, one target', room))
              λ _. omega (
                arith,
                same,
                one target',
                room,
                await-AtMost n (suc retry) target' req events (r target') (set target'),
              ))
        (λ _. omega arith)
    where
      k : ℕ
      k = p.wire.attempts + (n - retry)

      q : ClientProcess A
      q = (retarget target req p).1

      r : Address → ClientProcess A
      r target' = (send_request target' req q).1

      same : q.wire.attempts ≡ p.wire.attempts
      same = ap (λ (w : Wire A). w.attempts) (retarget-Same target req p).1

      one : (target' : Address) → (r target').wire.attempts ≤ q.wire.attempts + 1
      one target' = (send_request-OneSend target' req q).1

      set : (target' : Address) → (r target').client.resend_num ≡ pos n
      set target' = (send_request-OneSend target' req q).0 ∙ (retarget-Same target req p).0 ∙ e

  pub target_of-Same : (req : Request A) (p : ClientProcess A) → Same p (target_of req p).1
  unfolding target_of get_bank_head get_bank_tail ◌>>=◌
  target_of-Same req p = (ground arith, ground arith)

  -- The first send, and what follows it.
  first_send :
      (i : ℤ) (target : Address) (req : Request A) (events : List (Event A)) (p : ClientProcess A)
      → p.client.resend_num ≡ i
      → may_send 0 i ≡ true
      → AtMost
          (p.wire.attempts + sends i)
          ((send_request target req >> await target req 0 events) p).1
  first_send (pos n) target req events p e m =
      AtMost-bind (send_request target req) _ p (p.wire.attempts + suc n) (omega (arith, one.1))
        λ _. omega (
          arith,
          one.1,
          await-AtMost n 0 target req events (send_request target req p).1 (one.0 ∙ e),
        )
    where
      one : OneSend p (send_request target req p).1
      one = send_request-OneSend target req p
  first_send (negsuc n) target req events p e m = cc

  -- Whatever comes, the client sends one request at most once and then once more for each resend that
  -- the setting allows, and not at all if the setting is negative.
  pub process_request_lem :
      (req : Request A) (events : List (Event A)) (p : ClientProcess A)
      → (process_request req events p).1.wire.attempts ≤ p.wire.attempts + sends p.client.resend_num
  unfolding process_request
  process_request_lem req events p =
      AtMost-bind (target_of req') _ p k (omega (arith, same)) λ target.
        AtMost-if (may_send 0 q.client.resend_num) _ _ q k
          (λ b.
            subst
              (λ (j : ℕ). AtMost j ((send_request target req' >> await target req' 0 events) q).1)
              bound (first_send q.client.resend_num target req' events q refl b))
          (λ _. omega (arith, same))
    where
      req' : Request A
      req' = record req { client_addr = local_addr p.client }

      q : ClientProcess A
      q = (target_of req' p).1

      k : ℕ
      k = p.wire.attempts + sends p.client.resend_num

      same : q.wire.attempts ≡ p.wire.attempts
      same = ap (λ (w : Wire A). w.attempts) (target_of-Same req' p).1

      bound : q.wire.attempts + sends q.client.resend_num ≡ k
      bound = ap₂ (λ (a : ℕ) (i : ℤ). a + sends i) same (target_of-Same req' p).0
