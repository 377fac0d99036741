-- ===== src/Client/Run.antt =====
-- `Client::run` of src-cpp/client/client.cc. What the socket gives is an explicit sequence of events;
-- at its end the client is still waiting.
use chain_replication.Base.{
  ℕ, suc, ◌+◌, ℤ, pos, negsuc, Bool, true, false, none, some, List, [], ◌∷◌, leb, str_eq,
  if◌then◌else◌,
}
use chain_replication.Exec.{Result, Exec, pure, abort, done, ◌>>=◌, ◌>>◌}
use chain_replication.Proto.{
  Address, Request, query, Message, reply_type, request_type, request_sub,
}
use chain_replication.Wire.{send_msg_udp}
use chain_replication.Client.State.{
  Client, ClientProcess, on_wire, asks, updates, drop_reply, get_bank_head, get_bank_tail,
  handle_msg,
}

-- One return of `receiver.receive`: the wait ran out, or a datagram came, which may not decode.
pub data Event (A : Type 0) : Type 0 where
  timeout malformed : Event A
  datagram : Message A → Event A

-- How the loops for one request end, or that they have not ended.
pub data Verdict : Type 0 where
  accepted gave_up waiting : Verdict

abbrev pub is_waiting : Verdict → Bool
is_waiting waiting = true
is_waiting _ = false

-- `retry <= resend_num_`
abbrev pub may_send : ℕ → ℤ → Bool
may_send retry (pos n) = leb retry n
may_send retry (negsuc n) = false

-- An exception ends the loop over the requests, and the thread.
abbrev pub ended : Result (List Verdict) → Result (Unit {0})
ended (Result.ok verdicts) = Result.ok tt
ended Result.threw = Result.ok tt
ended Result.exited = Result.exited
ended Result.aborted = Result.aborted

module _ {A : Type 0} where
  unfoldable pub target_of : Request A → Exec (ClientProcess A) Address
  target_of req = elim req.type [
    | query ↦ get_bank_tail req.bank_id
    | _ ↦ get_bank_head req.bank_id
  ]

  abbrev pub local_addr : Client A → Address
  local_addr c = record { ip = c.ip; port = c.port }

  unfoldable pub send_request : Address → Request A → Exec (ClientProcess A) (Unit {0})
  unfolding ◌>>=◌
  send_request target req = do
    local ← asks local_addr
    on_wire (send_msg_udp local target request_type (request_sub req))
    done

  -- The new target of a resend.
  unfoldable pub retarget : Address → Request A → Exec (ClientProcess A) Address
  unfolding ◌>>=◌
  retarget target req = do
    resend_newhead ← asks (λ c. c.resend_newhead)
    if resend_newhead then target_of req else pure target

  -- `msg.reply().req_id() == req.req_id()`: a reply that is not there reads as the empty one.
  abbrev pub answers : Message A → Request A → Bool
  answers msg req = elim msg.reply [
    | some reply ↦ str_eq reply.req_id req.req_id
    | none ↦ str_eq "" req.req_id
  ]

  abbrev pub is_reply : Message A → Bool
  is_reply msg = elim msg.type [ reply_type ↦ true | _ ↦ false ]

  -- A reply is counted, and may be dropped on purpose.
  unfoldable pub count_reply : Exec (ClientProcess A) Bool
  unfolding ◌>>=◌
  count_reply = do
    updates (λ c. record c { recv_count = c.recv_count + 1 })
    asks (λ c. drop_reply c.drop_interval c.recv_count)

  -- A datagram: whether it ends the wait.
  unfoldable pub receive : Request A → Message A → Exec (ClientProcess A) Bool
  unfolding ◌>>=◌
  receive req msg =
      if is_reply msg
      then (do
        drop_this_reply ← count_reply
        pure (if drop_this_reply then false else answers msg req))
      else (do handle_msg msg; pure false)

  -- The two `while` loops, from the inner one's `receive` on. The first result comes with the events
  -- that are left.
  unfoldable pub await :
      Address → Request A → ℕ → List (Event A) → Exec (ClientProcess A) (Verdict × List (Event A))
  unfolding ◌>>=◌
  await target req retry [] = pure (waiting, [])
  await target req retry (malformed ∷ events) = abort
  await target req retry (datagram msg ∷ events) = do
    accept_flag ← receive req msg
    if accept_flag then pure (accepted, events) else await target req retry events
  await target req retry (timeout ∷ events) = do
    resend_num ← asks (λ c. c.resend_num)
    if may_send (suc retry) resend_num
        then (do
          target' ← retarget target req
          send_request target' req
          await target' req (suc retry) events)
        else pure (gave_up, events)

  -- The body of the loop over the requests.
  unfoldable pub process_request :
      Request A → List (Event A) → Exec (ClientProcess A) (Verdict × List (Event A))
  unfolding ◌>>=◌
  process_request request events = do
    local ← asks local_addr
    let req = record request { client_addr = local }
    target ← target_of req
    resend_num ← asks (λ c. c.resend_num)
    if may_send 0 resend_num
        then (do send_request target req; await target req 0 events)
        else pure (gave_up, events)

  -- A client that is still waiting does not come to the next request.
  unfoldable pub process_all :
      List (Request A) → List (Event A) → Exec (ClientProcess A) (List Verdict)
  unfolding ◌>>=◌
  process_all [] events = pure []
  process_all (req ∷ reqs) events = do
    (verdict, rest) ← process_request req events
    let go_on = process_all reqs rest
    if is_waiting verdict
        then pure (verdict ∷ [])
        else (do verdicts ← go_on; pure (verdict ∷ verdicts))

  -- The socket is bound before the `try`.
  unfoldable pub run : List (Event A) → Exec (ClientProcess A) (Unit {0})
  run events p =
      let (r, p') = process_all p.client.request_vector events p in
      if p.wire.net.is_address p.client.ip then (ended r, p') else (Result.aborted, p)
