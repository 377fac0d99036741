-- ===== src/Config/Servers/Place.antt =====
-- Where read_config_server of src-cpp/server/server.cc puts a server of the chain: at its ends or
-- between two others.
use chain_replication.Base.{
  ℕ, zero, suc, ◌<◌, ◌≤◌, pos, int_eq, pred, succ, ◌≡◌, refl, sym, ap, ◌∙◌, subst, Option, none,
  some, List, [], ◌∷◌, length, get_elem?, arith, inl, inr, Option-cases, not, ◌&&◌, Bool, true,
  false, if◌then◌else◌,
}
use chain_replication.Exec.{ok, Exec, done, ◌>>=◌}
use chain_replication.Exec.Rules.{bind_ok}
use chain_replication.Proto.{Address}
use chain_replication.Server.State.{Process, updates}
use chain_replication.Master.Chain.Positions.{predecessor}
use chain_replication.Config.{Json}
use chain_replication.Config.Arrays.{IsArray}
use chain_replication.Config.Described.{BankEntry, servers, IsAddress, NumberedFrom, IsBank}
use chain_replication.Config.Chains.Reading.{address_at_lem, numbered_length}
use chain_replication.Config.Servers.{
  get_alive_server_json_with_chainno, neighbour, read_pre_server, read_succ_server, read_place,
}
use chain_replication.Config.Servers.Search.{
  first_with, numbered, unnumbered-numbered, first_with-numbered, HaveNumbers, get_alive_lem,
}

abbrev pub or_kept : Option Address → Address → Address
or_kept (some a) b = a
or_kept none b = b

get_elem?-lt : (l : List Address) (k : ℕ) (a : Address) → get_elem? l k ≡ some a → k < length l
get_elem?-lt [] k a h = cc
get_elem?-lt (x ∷ l) zero a h = omega arith
get_elem?-lt (x ∷ l) (suc k) a h = omega (arith, get_elem?-lt l k a h)

get_elem?-none : (l : List Address) (k : ℕ) → get_elem? l k ≡ none → length l ≤ k
get_elem?-none [] k h = omega arith
get_elem?-none (x ∷ l) zero h = cc
get_elem?-none (x ∷ l) (suc k) h = omega (arith, get_elem?-none l k h)

get_elem?_before :
    (l : List Address) (k : ℕ) (a : Address)
    → get_elem? l (suc k) ≡ some a
    → (b : Address) × (get_elem? l k ≡ some b)
get_elem?_before [] k a h = absurd (cc)
get_elem?_before (x ∷ l) zero a h = (x, refl)
get_elem?_before (x ∷ l) (suc k) a h = get_elem?_before l k a h

module _ {S Q : Type 0} {b : Bool} (m n : Exec S Q) (s : S) where
  then_branch : b ≡ true → (if b then m else n) s ≡ m s
  then_branch e = ap (λ c. (if c then m else n) s) e

  else_branch : b ≡ false → (if b then m else n) s ≡ n s
  else_branch e = ap (λ c. (if c then m else n) s) e

module _ {A : Type 0} (json : Json A) where
  numbers_of :
      (n : ℕ) (vs : List json.Value) (more : List Address)
      → NumberedFrom json n vs more
      → HaveNumbers json (numbered n vs)
  numbers_of n [] [] h = tt
  numbers_of n [] (a ∷ more) h = absurd h
  numbers_of n (v ∷ vs) [] h = absurd h
  numbers_of n (v ∷ vs) (a ∷ more) h = (h.1, numbers_of (suc n) vs more h.2)

  -- The value that stands for the server at a position.
  pub value_at :
      (n : ℕ) (vs : List json.Value) (more : List Address) (k : ℕ) (a : Address)
      → NumberedFrom json n vs more
      → get_elem? more k ≡ some a
      → (v : json.Value) × (get_elem? vs k ≡ some v) × IsAddress json v a
  value_at n [] [] k a h e = cc
  value_at n [] (b ∷ more) k a h e = absurd h
  value_at n (v ∷ vs) [] k a h e = absurd h
  value_at n (v ∷ vs) (b ∷ more) zero a h e = (v, refl, subst (IsAddress json v) (ground arith) h.0)
  value_at n (v ∷ vs) (b ∷ more) (suc k) a h e = value_at (suc n) vs more k a h.2 e

  module _ {v : json.Value} (e : BankEntry) (h : IsBank json v e) where
    pub search_at :
        {S : Type 0} (k : ℕ) (w : json.Value) (s : S)
        → get_elem? h.values k ≡ some w
        → get_alive_server_json_with_chainno json h.list (pos (suc k)) s ≡ (ok (some w), s)
    search_at k w s at =
        get_alive_lem json (numbered 1 h.values) (pos (suc k)) s
          (subst (IsArray json h.list) (sym (unnumbered-numbered 1 h.values)) h.array)
          (numbers_of 1 h.values (servers e) h.numbered)
        ∙ ap (λ o. (ok o, s))
            (ap (λ n. first_with (pos n) (numbered 1 h.values)) (omega arith)
              ∙ first_with-numbered 1 k h.values
              ∙ at)

    neighbour_lem :
        (k : ℕ) (a : Address) (p : Process A)
        → get_elem? (servers e) k ≡ some a
        → neighbour json h.list (pos (suc k)) p ≡ (ok a, p)
    unfolding neighbour ◌>>=◌
    neighbour_lem k a p at =
        let (w, here, addr) = value_at 1 h.values (servers e) k a h.numbered at in
        rw (search_at k w p here) (address_at_lem json w a p addr)

    size_lem : json.size h.list ≡ length (servers e)
    size_lem = h.array.size ∙ numbered_length json 1 h.values (servers e) h.numbered

    abbrev with_pre : Option Address → Process A → Process A
    with_pre o p = record p {
      server = record p.server { pre_server_addr = or_kept o p.server.pre_server_addr };
    }

    abbrev with_succ : Option Address → Process A → Process A
    with_succ o p = record p {
      server = record p.server { succ_server_addr = or_kept o p.server.succ_server_addr };
    }

    abbrev wants : Bool → Process A → Bool
    wants at_end p = not at_end && int_eq p.server.start_delay (pos 0)

    abbrev set_pre : ℕ → Exec (Process A) (Unit {0})
    set_pre n =
        neighbour json h.list (pos n) >>= λ a. updates (λ s. record s { pre_server_addr = a })

    abbrev set_succ : ℕ → Exec (Process A) (Unit {0})
    set_succ n =
        neighbour json h.list (pos n) >>= λ a. updates (λ s. record s { succ_server_addr = a })

    pre_lem :
        (k : ℕ) (a : Address) (p : Process A)
        → get_elem? (servers e) k ≡ some a
        → p.server.ishead ≡ int_eq (pos (suc k)) (pos 1)
        → p.server.start_delay ≡ pos 0
        → read_pre_server json h.list (pos (suc k)) p
          ≡ (ok tt, with_pre (predecessor none (servers e) k) p)
    unfolding read_pre_server ◌>>=◌ int_eq pred
    pre_lem zero a p at head alive =
        else_branch {b = wants p.server.ishead p} (set_pre 0) done p (ground arith)
    pre_lem (suc k) a p at head alive =
        let (b, before) = get_elem?_before (servers e) k a at in
        then_branch {b = wants p.server.ishead p} (set_pre (suc k)) done p (ground arith)
        ∙ bind_ok (neighbour json h.list (pos (suc k)))
            (λ a. updates (λ s. record s { pre_server_addr = a })) (neighbour_lem k b p before)
        ∙ ap (λ o. (ok tt, with_pre o p)) (sym before)

    succ_lem :
        (k : ℕ) (a : Address) (p : Process A)
        → get_elem? (servers e) k ≡ some a
        → p.server.istail ≡ int_eq (pos (suc k)) (pos (length (servers e)))
        → p.server.start_delay ≡ pos 0
        → read_succ_server json h.list (pos (suc k)) p
          ≡ (ok tt, with_succ (get_elem? (servers e) (suc k)) p)
    unfolding read_succ_server ◌>>=◌ int_eq succ
    succ_lem k a p at tail alive = elim (Option-cases (get_elem? (servers e) (suc k))) [
      | inl last ↦
          else_branch {b = wants p.server.istail p} (set_succ (suc (suc k))) done p
            (ground (arith, get_elem?-lt (servers e) k a, get_elem?-none (servers e) (suc k)))
          ∙ ap (λ o. (ok tt, with_succ o p)) (sym last)
      | inr (b, next) ↦
          then_branch {b = wants p.server.istail p} (set_succ (suc (suc k))) done p
            (ground (arith, get_elem?-lt (servers e) (suc k) b))
          ∙ bind_ok (neighbour json h.list (pos (suc (suc k))))
              (λ a. updates (λ s. record s { succ_server_addr = a }))
              (neighbour_lem (suc k) b p next)
          ∙ ap (λ o. (ok tt, with_succ o p)) (sym next)
    ]

    -- The server at position `k`, which runs from the start.
    abbrev pub placed : ℕ → Address → Process A → Process A
    placed k a p = record p {
      server = record p.server {
        ishead = int_eq (pos (suc k)) (pos 1);
        istail = int_eq (pos (suc k)) (pos (length (servers e)));
        local_addr = a;
        pre_server_addr = or_kept (predecessor none (servers e) k) p.server.pre_server_addr;
        succ_server_addr = or_kept (get_elem? (servers e) (suc k)) p.server.succ_server_addr;
      };
    }

    pub read_place_lem :
        (k : ℕ) (a : Address) (w : json.Value) (p : Process A)
        → get_elem? (servers e) k ≡ some a
        → IsAddress json w a
        → p.server.start_delay ≡ pos 0
        → read_place json h.list w (pos (suc k)) p ≡ (ok tt, placed k a p)
    unfolding read_place ◌>>=◌
    read_place_lem k a w p at here alive =
        rw (size_lem, address_at_lem json w a marked here)
          (rw (pre_lem k a set at refl alive)
            (succ_lem k a (with_pre (predecessor none (servers e) k) set) at refl alive))
      where
        marked : Process A
        marked = record p {
          server = record p.server {
            ishead = int_eq (pos (suc k)) (pos 1);
            istail = int_eq (pos (suc k)) (pos (length (servers e)));
          };
        }

        set : Process A
        set = record marked { server = record marked.server { local_addr = a } }
