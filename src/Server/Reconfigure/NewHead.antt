-- ===== src/Server/Reconfigure/NewHead.antt =====
-- `handle_new_head` of src-cpp/server/server.cc: which transfers a tail sends again to the new head of
-- a downstream bank.
use chain_replication.Base.{
  String, ◌≡◌, sym, refl, subst, Bool, true, false, some, List, [], ◌∷◌, map, arith, keep, str_eq,
  eq_iff, eq_refl, Bool-cases, inl, inr, if◌then◌else◌,
}
use chain_replication.Base.Map.{Map, find, assign, find-assign}
use chain_replication.Exec.{Result, ok, aborted, done, for_each, ◌>>=◌}
use chain_replication.Proto.{Address, Request, Notify}
use chain_replication.Proto.Float.{FloatOps}
use chain_replication.Proto.Prepare.{prepare_msg}
use chain_replication.Wire.{send_msg_tcp}
use chain_replication.Server.State.{Process, no_failure}
use chain_replication.Server.Send.{
  crashes, if_server_crash, transfer_to_request, forward_transfer_to_downstream,
}
use chain_replication.Server.Update.{is_transfer}
use chain_replication.Server.Reconfigure.{forward_to_bank, handle_new_head}
use chain_replication.Server.Reconfigure.Resend.{IsOpen, sent, all_sent}
use chain_replication.Server.Validity.{IsValid, Transfers}

now_known :
    (notify : Notify) (old : Address) (m : Map Address)
    → find notify.bank_id m ≡ some old
    → find notify.bank_id (assign notify.bank_id notify.server_addr m) ≡ some notify.server_addr
now_known notify old m h = ground (
  arith,
  find-assign notify.bank_id notify.bank_id notify.server_addr m,
  eq_refl notify.bank_id,
  h,
)

module _ {A : Type 0} where
  forward_transfer_sent :
      (x : Request A) (head : Address) (p : Process A)
      → IsOpen p.wire.net
      → p.server.fail_scenario ≡ no_failure
      → find x.dest_bank_id p.server.bank_head_list ≡ some head
      → forward_transfer_to_downstream x p
        ≡ (ok tt, record p { wire = sent head (transfer_to_request p.server.local_addr x) p.wire })
  unfolding forward_transfer_to_downstream if_server_crash crashes send_msg_tcp prepare_msg ◌>>=◌
  forward_transfer_sent x head p o f h =
      rw (h, o.addresses head.ip, o.streams p.wire.attempts, f) refl

  abbrev pub for_bank : String → Request A → Bool
  for_bank bank_id x = str_eq x.dest_bank_id bank_id

  resend :
      (bank_id : String) (head : Address) (xs : List (Request A)) (p : Process A)
      → IsOpen p.wire.net
      → p.server.fail_scenario ≡ no_failure
      → find bank_id p.server.bank_head_list ≡ some head
      → Transfers xs
      → for_each xs (forward_to_bank bank_id) p ≡ (
        ok tt,
        record p {
          wire =
              all_sent head
                (map (transfer_to_request p.server.local_addr) (keep (for_bank bank_id) xs))
                p.wire;
        },
      )
  unfolding for_each forward_to_bank ◌>>=◌
  resend bank_id head [] p o f h t = refl
  resend bank_id head (x ∷ xs) p o f h t = elim (Bool-cases (for_bank bank_id x)) [
    | inl e ↦
        rw
          (
            t.0,
            e,
            forward_transfer_sent x head p o f
                (subst (λ k. find k p.server.bank_head_list ≡ some head) (sym (same e)) h),
          )
          (resend bank_id head xs
            (record p { wire = sent head (transfer_to_request p.server.local_addr x) p.wire }) o f h
            t.1)
    | inr e ↦ rw (t.0, e) (resend bank_id head xs p o f h t.1)
  ]
    where
      same : for_bank bank_id x ≡ true → x.dest_bank_id ≡ bank_id
      same e = ground (arith, eq_iff x.dest_bank_id bank_id, e)

  -- The server once it knows the new head.
  abbrev pub told : Notify → Process A → Process A
  told notify p = record p {
    server = record p.server {
      bank_head_list = assign notify.bank_id notify.server_addr p.server.bank_head_list;
    };
  }

  -- The assertion in the loop.
  pub new_head_unexpected :
      (notify : Notify) (old : Address) (x : Request A) (xs : List (Request A)) (p : Process A)
      → p.server.istail ≡ true
      → p.server.sent_list ≡ x ∷ xs
      → is_transfer x.type ≡ false
      → find notify.bank_id p.server.bank_head_list ≡ some old
      → handle_new_head notify p ≡ (aborted, told notify p)
  unfolding handle_new_head for_each forward_to_bank ◌>>=◌
  new_head_unexpected notify old x xs p t e n h = rw (h, t, e, n) refl

module _ {A : Type 0} ⦃f : FloatOps A⦄ where
  -- On a network on which every TCP send goes through, a valid tail that is not extending the chain
  -- and has no injected crash learns of the new head of a bank that it knows. Then no assertion
  -- fails: it sends the new head exactly the waiting transfers to that bank, in their order, each
  -- as the downstream request made of it, and changes nothing but its table of heads.
  pub handle_new_head_lem :
      (notify : Notify) (old : Address) (p : Process A)
      → IsValid p.server
      → p.server.istail ≡ true
      → p.server.extending_chain ≡ false
      → p.server.fail_scenario ≡ no_failure
      → find notify.bank_id p.server.bank_head_list ≡ some old
      → IsOpen p.wire.net
      → handle_new_head notify p ≡ (
        ok tt,
        record (told notify p) {
          wire =
              all_sent notify.server_addr
                (map
                  (transfer_to_request p.server.local_addr)
                  (keep (for_bank notify.bank_id) p.server.sent_list))
                p.wire;
        },
      )
  unfolding handle_new_head ◌>>=◌
  handle_new_head_lem notify old p v t e f h o = rw h (
      subst
        (λ b.
          (if b then for_each p.server.sent_list (forward_to_bank notify.bank_id) else done)
            (told notify p)
          ≡ resent)
        (sym t)
        (resend notify.bank_id notify.server_addr p.server.sent_list (told notify p) o f
          (now_known notify old p.server.bank_head_list h) (v.tail_waits t e)))
    where
      resent : Result (Unit {0}) × Process A
      resent = (
        ok tt,
        record (told notify p) {
          wire =
              all_sent notify.server_addr
                (map (transfer_to_request p.server.local_addr)
                  (keep (for_bank notify.bank_id) p.server.sent_list))
                p.wire;
        },
      )
