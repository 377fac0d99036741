-- ===== src/Master/Refinement/Departure.antt =====
-- A chain that loses the server for which `notify_crash` of src-cpp/master/master.cc is called.
use chain_replication.Base.{
  String, ◌≡◌, refl, sym, ap, subst, ◌∙◌, ◌⊎◌, inl, inr, true, false, none, some, List, [], ◌∷◌,
  ◌++◌, arith, Bool-cases, Option-cases,
}
use chain_replication.Proto.{Address, default_address, addr_eq, addr_eq_iff}
use chain_replication.Master.Chain.{BankServerChain}
use chain_replication.Master.Chain.View.{
  addrs, member, without, last_or, Distinct, next, previous, addr_eq_refl, addr_eq_comm,
  member-last_or, member-append, member_apart, Distinct-append,
}
use chain_replication.Master.Chain.Neighbours.{
  next-is_some, previous-is_some, or_last, previous-last, previous-append, last_or-without,
}
use chain_replication.Master.Chain.Ends.{second_first, first_stays, single_last}
use chain_replication.Master.State.{MasterProcess}
use chain_replication.Master.Quiet.{IsHealthy}
use chain_replication.Master.Crash.{notify_crash}
use chain_replication.Master.Refinement.{IsChain}
use chain_replication.Master.Refinement.Removal.{
  removed, found, IsChain-removed, joining_apart, succ_server_addr_chain, pre_server_addr_chain,
}
use chain_replication.Master.Refinement.Crashes.{
  Ends, head_crashed_lem, tail_crashed_lem, internal_crashed_lem, extending_crashed_lem,
}

module _ {A : Type 0} (key : String) (a x z : Address) (xs zs joining : List Address)
    (b : BankServerChain) (c : IsChain b x xs joining) (p : MasterProcess A)
    (h : IsHealthy p.wire.net) (w : without a (x ∷ xs) ≡ z ∷ zs) where
  abbrev Departs : Type 0
  Departs =
      (b' : BankServerChain) × IsChain b' z zs (without a joining)
      × Ends key b' p (notify_crash key b a p)

  at_head : addr_eq x a ≡ false → addr_eq a b.head ≡ false
  at_head k = subst (λ d. addr_eq a d ≡ false) (sym c.head_first) (addr_eq_comm a x ∙ k)

  at_tail : addr_eq (last_or x xs) a ≡ false → addr_eq a b.tail ≡ false
  at_tail k = subst (λ d. addr_eq a d ≡ false) (sym c.tail_last) (addr_eq_comm a (last_or x xs) ∙ k)

  is_head : addr_eq x a ≡ true → addr_eq a b.head ≡ true
  is_head k = subst (λ d. addr_eq a d ≡ true) (sym c.head_first) (addr_eq_comm a x ∙ k)

  is_tail : addr_eq (last_or x xs) a ≡ true → addr_eq a b.tail ≡ true
  is_tail k = subst (λ d. addr_eq a d ≡ true) (sym c.tail_last) (addr_eq_comm a (last_or x xs) ∙ k)

  active_found : member a (x ∷ xs) ≡ true → member a (addrs b.server_chain) ≡ true
  active_found m = found a x xs joining b c (ground (arith, member-append a (x ∷ xs) joining, m))

  head_departs : Distinct (x ∷ xs) → addr_eq x a ≡ true → Departs
  unfolding notify_crash
  head_departs d k = (
    record (removed a b) { head = z },
    IsChain-removed a x xs joining b c z zs (without a joining) z b.tail b.extending w refl refl
        (c.tail_last ∙ s.1)
        (subst (λ j. ((j ≡ []) × (b.extending ≡ default_address)) ⊎ (j ≡ b.extending ∷ []))
          (sym (joining_apart x xs joining b c a m)) c.extension),
    rw (is_head k, t)
        (head_crashed_lem key a b p h (active_found m) z
          (succ_server_addr_chain a x xs joining b c t ∙ s.0)),
  )
    where
      m : member a (x ∷ xs) ≡ true
      m = rw (k) refl

      t : addr_eq a b.tail ≡ false
      t = at_tail (single_last a x z xs zs d k w)

      s : (next a ((x ∷ xs) ++ joining) ≡ some z) × (last_or x xs ≡ last_or z zs)
      s = second_first a x z xs zs joining k w

  -- What the joining part is when an active server goes.
  still_joining :
      member a (x ∷ xs) ≡ true
      → ((without a joining ≡ []) × (b.extending ≡ default_address))
        ⊎ (without a joining ≡ b.extending ∷ [])
  still_joining m =
      subst (λ j. ((j ≡ []) × (b.extending ≡ default_address)) ⊎ (j ≡ b.extending ∷ []))
        (sym (joining_apart x xs joining b c a m)) c.extension

  kept : addr_eq x a ≡ false → addr_eq (last_or x xs) a ≡ false → last_or x xs ≡ last_or z zs
  kept k l = ground (arith, first_stays a x z xs zs k w, last_or-without a x xs k l)

  before_tail :
      Distinct (x ∷ xs)
      → addr_eq (last_or x xs) a ≡ true
      → previous none a ((x ∷ xs) ++ joining) ≡ some (last_or z zs)
  unfolding or_last
  before_tail d l =
      ground (arith, addr_eq_iff (last_or x xs) a, previous-last none x xs joining d, w)

  tail_departs : Distinct (x ∷ xs) → addr_eq x a ≡ false → addr_eq (last_or x xs) a ≡ true → Departs
  unfolding notify_crash
  tail_departs d k l = (
    record (removed a b) { tail = last_or z zs },
    IsChain-removed a x xs joining b c z zs (without a joining) b.head (last_or z zs) b.extending w
        refl (c.head_first ∙ (first_stays a x z xs zs k w).0) refl (still_joining m),
    rw (at_head k, is_tail l)
        (tail_crashed_lem key a b p h (active_found m) (last_or z zs)
          (pre_server_addr_chain a x xs joining b c (at_head k) ∙ before_tail d l)),
  )
    where
      m : member a (x ∷ xs) ≡ true
      m = ground (arith, addr_eq_iff (last_or x xs) a, member-last_or x xs)

  internal_departs :
      (s t : Address)
      → member a (x ∷ xs) ≡ true
      → addr_eq x a ≡ false
      → addr_eq (last_or x xs) a ≡ false
      → addr_eq a b.extending ≡ false
      → next a ((x ∷ xs) ++ joining) ≡ some s
      → previous none a ((x ∷ xs) ++ joining) ≡ some t
      → Departs
  unfolding notify_crash
  internal_departs s t m k l e ns pt = (
    removed a b,
    IsChain-removed a x xs joining b c z zs (without a joining) b.head b.tail b.extending w refl
        (c.head_first ∙ (first_stays a x z xs zs k w).0) (c.tail_last ∙ kept k l) (still_joining m),
    rw (at_head k, at_tail l, e)
        (internal_crashed_lem key a b p h (active_found m) s t
          (succ_server_addr_chain a x xs joining b c (at_tail l) ∙ ns)
          (pre_server_addr_chain a x xs joining b c (at_head k) ∙ pt)),
  )

  extending_departs :
      addr_eq x a ≡ false
      → addr_eq (last_or x xs) a ≡ false
      → member a (x ∷ xs) ≡ false
      → joining ≡ a ∷ []
      → addr_eq a b.extending ≡ true
      → Departs
  unfolding notify_crash without or_last
  extending_departs k l n j e = (
    record (removed a b) { extending = default_address },
    subst (IsChain _ z zs) (sym gone) (
        IsChain-removed a x xs joining b c z zs [] b.head b.tail default_address w gone
          (c.head_first ∙ (first_stays a x z xs zs k w).0) (c.tail_last ∙ kept k l)
          (inl (refl, refl))),
    rw (at_head k, at_tail l, e)
        (extending_crashed_lem key a b p h (found a x xs joining b c m) (last_or x xs) e (
          pre_server_addr_chain a x xs joining b c (at_head k)
          ∙ subst (λ j. previous none a ((x ∷ xs) ++ j) ≡ some (last_or x xs)) (sym j)
              (previous-append none a (x ∷ xs) [] n))),
  )
    where
      gone : without a joining ≡ []
      gone = rw (j, addr_eq_refl a) refl

      m : member a ((x ∷ xs) ++ joining) ≡ true
      m = ground (arith, member-append a (x ∷ xs) joining, j, addr_eq_refl a)

  has_previous :
      member a (x ∷ xs) ≡ true
      → addr_eq x a ≡ false
      → previous none a ((x ∷ xs) ++ joining) ≡ none
      → ⊥
  unfolding previous
  has_previous m k n = ground (arith, previous-is_some a x xs joining)

  -- Whoever else goes has a neighbour on both sides.
  inner_departs :
      member a (x ∷ xs) ≡ true
      → addr_eq x a ≡ false
      → addr_eq (last_or x xs) a ≡ false
      → addr_eq a b.extending ≡ false
      → Departs
  inner_departs m k l e = elim (Option-cases (next a ((x ∷ xs) ++ joining))) [
    | inl n ↦ absurd (ground (arith, next-is_some a x xs joining m l, n))
    | inr s ↦ elim (Option-cases (previous none a ((x ∷ xs) ++ joining))) [
      | inl n ↦ absurd (has_previous m k n)
      | inr t ↦ internal_departs s.0 t.0 m k l e s.1 t.1
    ]
  ]

  -- An active server goes, or the one that is joining.
  active_departs :
      Distinct (x ∷ xs) → member a (x ∷ xs) ≡ true → addr_eq a b.extending ≡ false → Departs
  active_departs d m e = elim (Bool-cases (addr_eq x a)) [
    | inl k ↦ head_departs d k
    | inr k ↦ elim (Bool-cases (addr_eq (last_or x xs) a)) [
      | inl l ↦ tail_departs d k l
      | inr l ↦ inner_departs m k l e
    ]
  ]

  joining_departs :
      Distinct ((x ∷ xs) ++ joining)
      → joining ≡ b.extending ∷ []
      → member a ((x ∷ xs) ++ joining) ≡ true
      → Departs
  joining_departs d j m = elim (Bool-cases (member a (x ∷ xs))) [
    | inl n ↦
        active_departs (Distinct-append (x ∷ xs) joining d) n
          (ground (arith, addr_eq_comm a b.extending, member_apart a (x ∷ xs) joining d n, j))
    | inr n ↦
        extending_departs (ground arith)
          (ground (arith, addr_eq_iff (last_or x xs) a, member-last_or x xs)) n
          (j ∙ ap (λ e. e ∷ []) (is_joining n)) (ap (addr_eq a) (is_joining n) ∙ addr_eq_refl a)
  ]
    where
      is_joining : member a (x ∷ xs) ≡ false → b.extending ≡ a
      is_joining n = ground (arith, member-append a (x ∷ xs) joining, j, addr_eq_iff b.extending a)

-- On a network on which the sends return, take a chain of active servers, perhaps with one that is
-- joining, and a server of it that is not the only active one. Then the handling of the server's
-- crash ends, fails no assertion, and leaves a chain: the active servers that remain in their order,
-- the first of them the head and the last the tail, and the server that was joining if it is still
-- there.
pub notify_crash_lem :
    {A : Type 0} (key : String) (a x z : Address) (xs zs joining : List Address)
    (b : BankServerChain) (p : MasterProcess A)
    → IsChain b x xs joining
    → member a ((x ∷ xs) ++ joining) ≡ true
    → without a (x ∷ xs) ≡ z ∷ zs
    → IsHealthy p.wire.net
    → (b' : BankServerChain) × IsChain b' z zs (without a joining)
      × Ends key b' p (notify_crash key b a p)
notify_crash_lem key a x z xs zs joining b p c m w h = elim c.extension [
  | inl e ↦
      active_departs key a x z xs zs joining b c p h w (Distinct-append (x ∷ xs) joining c.distinct)
        (ground (arith, member-append a (x ∷ xs) joining, e.0)) (stranger e.1)
  | inr j ↦ joining_departs key a x z xs zs joining b c p h w c.distinct j m
]
  where
    stranger : b.extending ≡ default_address → addr_eq a b.extending ≡ false
    stranger e = ground (arith, e, addr_eq_iff a default_address, c.named, m)
