-- ===== src/Client/Outcomes.antt =====
-- When `Client::run` of src-cpp/client/client.cc takes a reply, and when it gives up.
use chain_replication.Base.{
  ℕ, suc, ◌-◌, ◌≤◌, ◌<◌, ℤ, pos, ◌≡◌, refl, ◌∙◌, ap, subst, Bool, true, false, ◌&&◌, ◌||◌, List, [],
  ◌∷◌, arith, if◌then◌else◌,
}
use chain_replication.Exec.{Result, ok, exited, aborted, threw, continue, Exec, ◌>>=◌}
use chain_replication.Proto.{Address, Request, Message}
use chain_replication.Client.State.{ClientProcess, handle_new_head, handle_new_tail, handle_msg}
use chain_replication.Client.Run.{
  Event, timeout, malformed, datagram, Verdict, accepted, gave_up, waiting, may_send, local_addr,
  target_of, send_request, retarget, answers, is_reply, count_reply, receive, await,
  process_request,
}
use chain_replication.Client.Retries.{
  target_of-Same, receive-Same, retarget-Same, send_request-OneSend, may_send_le,
}

minus_zero : (n : ℕ) → n - 0 ≡ n
minus_zero n = omega arith

one_less : (n retry : ℕ) → suc retry ≤ n → suc (n - suc retry) ≡ n - retry
one_less n retry h = omega arith

may_send_gt : (n retry : ℕ) (i : ℤ) → i ≡ pos n → may_send retry i ≡ false → n < retry
may_send_gt n retry i e h = ground (arith, e, h)

module _ {A : Type 0} where
  -- A reply to the request is among the events.
  abbrev pub any_answer : Request A → List (Event A) → Bool
  any_answer req [] = false
  any_answer req (datagram msg ∷ events) =
      (is_reply msg && answers msg req) || any_answer req events
  any_answer req (_ ∷ events) = any_answer req events

  abbrev pub timeouts : List (Event A) → ℕ
  timeouts [] = 0
  timeouts (timeout ∷ events) = suc (timeouts events)
  timeouts (_ ∷ events) = timeouts events

  -- What an outcome says of the events, with `k` resends left.
  abbrev pub Outcome : ℕ → Request A → List (Event A) → Result (Verdict × List (Event A)) → Type 0
  Outcome k req events (ok (accepted, rest)) = any_answer req events ≡ true
  Outcome k req events (ok (gave_up, rest)) = k < timeouts events
  Outcome k req events (ok (waiting, rest)) = timeouts events ≤ k
  Outcome k req events _ = Unit

  Outcome-bind :
      {Q : Type 0} (m : Exec (ClientProcess A) Q)
      (g : Q → Exec (ClientProcess A) (Verdict × List (Event A))) (p : ClientProcess A) (k : ℕ)
      (req : Request A) (events : List (Event A))
      → ((q : Q) → (m p).0 ≡ ok q → Outcome k req events (g q (m p).1).0)
      → Outcome k req events ((m >>= g) p).0
  unfolding ◌>>=◌
  Outcome-bind {Q} m g p k req events i = go (m p).0 refl
    where
      go : (r : Result Q) → (m p).0 ≡ r → Outcome k req events (continue r g (m p).1).0
      go (ok q) e = i q e
      go exited e = tt
      go aborted e = tt
      go threw e = tt

  Outcome-if :
      (b : Bool) (m n : Exec (ClientProcess A) (Verdict × List (Event A))) (p : ClientProcess A)
      (k : ℕ) (req : Request A) (events : List (Event A))
      → (b ≡ true → Outcome k req events (m p).0)
      → (b ≡ false → Outcome k req events (n p).0)
      → Outcome k req events ((if b then m else n) p).0
  Outcome-if true m n p k req events h i = h refl
  Outcome-if false m n p k req events h i = i refl

  Outcome-datagram :
      (k : ℕ) (req : Request A) (msg : Message A) (events : List (Event A))
      (r : Result (Verdict × List (Event A)))
      → Outcome k req events r
      → Outcome k req (datagram msg ∷ events) r
  Outcome-datagram k req msg events (ok (accepted, rest)) h = ground arith
  Outcome-datagram k req msg events (ok (gave_up, rest)) h = h
  Outcome-datagram k req msg events (ok (waiting, rest)) h = h
  Outcome-datagram k req msg events exited h = tt
  Outcome-datagram k req msg events aborted h = tt
  Outcome-datagram k req msg events threw h = tt

  Outcome-timeout :
      (k : ℕ) (req : Request A) (events : List (Event A)) (r : Result (Verdict × List (Event A)))
      → Outcome k req events r
      → Outcome (suc k) req (timeout ∷ events) r
  Outcome-timeout k req events (ok (accepted, rest)) h = h
  Outcome-timeout k req events (ok (gave_up, rest)) h = omega arith
  Outcome-timeout k req events (ok (waiting, rest)) h = omega arith
  Outcome-timeout k req events exited h = tt
  Outcome-timeout k req events aborted h = tt
  Outcome-timeout k req events threw h = tt

  receive-true :
      (req : Request A) (msg : Message A) (p : ClientProcess A)
      → (receive req msg p).0 ≡ ok true
      → (is_reply msg && answers msg req) ≡ true
  unfolding receive count_reply handle_msg handle_new_head handle_new_tail ◌>>=◌
  receive-true req msg p e = ground arith

  await-Outcome :
      (n retry : ℕ) (target : Address) (req : Request A) (events : List (Event A))
      (p : ClientProcess A)
      → p.client.resend_num ≡ pos n
      → retry ≤ n
      → Outcome (n - retry) req events (await target req retry events p).0
  unfolding await
  await-Outcome n retry target req [] p e r = omega arith
  await-Outcome n retry target req (malformed ∷ events) p e r = tt
  await-Outcome n retry target req (datagram msg ∷ events) p e r =
      Outcome-bind (receive req msg) _ p k req (datagram msg ∷ events) λ b h.
        Outcome-if b _ _ q k req (datagram msg ∷ events)
          (λ t. ground (arith, receive-true req msg p (h ∙ ap ok t)))
          (λ _.
            Outcome-datagram k req msg events (await target req retry events q).0
              (await-Outcome n retry target req events q ((receive-Same req msg p).0 ∙ e) r))
    where
      k : ℕ
      k = n - retry

      q : ClientProcess A
      q = (receive req msg p).1
  await-Outcome n retry target req (timeout ∷ events) p e r =
      Outcome-if (may_send (suc retry) p.client.resend_num) _ _ p (n - retry) req (timeout ∷ events)
        (λ b.
          let room = may_send_le n (suc retry) p.client.resend_num e b in
          Outcome-bind (retarget target req) _ p (n - retry) req (timeout ∷ events) λ target' _.
            Outcome-bind (send_request target' req) _ q (n - retry) req (timeout ∷ events) λ _ _.
              subst
                (λ k.
                  Outcome k req (timeout ∷ events)
                    (await target' req (suc retry) events (s target')).0)
                (one_less n retry room)
                (Outcome-timeout (n - suc retry) req events
                  (await target' req (suc retry) events (s target')).0
                  (await-Outcome n (suc retry) target' req events (s target') (set target') room)))
        (λ b. omega (arith, may_send_gt n (suc retry) p.client.resend_num e b))
    where
      q : ClientProcess A
      q = (retarget target req p).1

      s : Address → ClientProcess A
      s target' = (send_request target' req q).1

      set : (target' : Address) → (s target').client.resend_num ≡ pos n
      set target' = (send_request-OneSend target' req q).0 ∙ (retarget-Same target req p).0 ∙ e

  await_first :
      (n : ℕ) (target : Address) (req : Request A) (events : List (Event A)) (p : ClientProcess A)
      → p.client.resend_num ≡ pos n
      → Outcome n req events (await target req 0 events p).0
  await_first n target req events p e =
      subst (λ k. Outcome k req events (await target req 0 events p).0) (minus_zero n)
        (await-Outcome n 0 target req events p e (omega arith))

  -- With `n` resends allowed, and for every sequence of events: the client accepts only when a reply
  -- to the request is among them; it gives up only after `n + 1` waits have run out, one for each
  -- send; and it still waits only while no more than `n` have run out.
  pub process_request-Outcome :
      (n : ℕ) (req : Request A) (events : List (Event A)) (p : ClientProcess A)
      → p.client.resend_num ≡ pos n
      → Outcome n req events (process_request req events p).0
  unfolding process_request
  process_request-Outcome n req events p e =
      Outcome-bind (target_of req') _ p n req events λ target _.
        Outcome-if (may_send 0 q.client.resend_num) _ _ q n req events
          (λ _. Outcome-bind (send_request target req') _ q n req events λ _ _.
            await_first n target req' events (send_request target req' q).1
              ((send_request-OneSend target req' q).0 ∙ same))
          (λ b. absurd (ground (arith, may_send_gt n 0 q.client.resend_num same b)))
    where
      req' : Request A
      req' = record req { client_addr = local_addr p.client }

      q : ClientProcess A
      q = (target_of req' p).1

      same : q.client.resend_num ≡ pos n
      same = (target_of-Same req' p).0 ∙ e
