-- ===== src/Config/Chains/Initial.antt =====
-- What the loop over the servers of a bank in read_config_master of src-cpp/master/master.cc makes
-- of servers that are numbered in order.
use mathlib.Core.List.{append-nil, append_assoc}
use chain_replication.Base.{
  ℕ, suc, ◌+◌, ◌≡◌, refl, sym, ap, ◌∙◌, List, [], ◌∷◌, ◌++◌, map, length, arith, int_eq, int_eq_iff,
  pos,
}
use chain_replication.Proto.{Address, default_address}
use chain_replication.Master.Chain.{BankServerChain, new_node}
use chain_replication.Master.Chain.View.{last_or}
use chain_replication.Config.Described.{BankEntry, servers, chain_of}
use chain_replication.Config.Chains.{empty_chain, append_server}

-- The loop over the servers, on their addresses: `n` is the first one's number.
abbrev pub appended : ℕ → ℕ → List Address → BankServerChain → BankServerChain
appended size n [] b = b
appended size n (a ∷ more) b = appended size (suc n) more (append_server size a (pos n) b)

append_server-server_chain :
    (size n : ℕ) (a : Address) (b : BankServerChain)
    → (append_server size a (pos n) b).server_chain ≡ b.server_chain ++ new_node a ∷ []
unfolding append_server
append_server-server_chain size n a b = ground arith

appended-server_chain :
    (size n : ℕ) (more : List Address) (b : BankServerChain)
    → (appended size n more b).server_chain ≡ b.server_chain ++ map new_node more
appended-server_chain size n [] b = sym (append-nil b.server_chain)
appended-server_chain size n (a ∷ more) b =
    appended-server_chain size (suc n) more (append_server size a (pos n) b)
    ∙ ap (λ l. l ++ map new_node more) (append_server-server_chain size n a b)
    ∙ append_assoc b.server_chain (new_node a ∷ []) (map new_node more)

appended-bank_id :
    (size n : ℕ) (more : List Address) (b : BankServerChain)
    → (appended size n more b).bank_id ≡ b.bank_id
unfolding append_server
appended-bank_id size n [] b = refl
appended-bank_id size n (a ∷ more) b = appended-bank_id size (suc n) more _ ∙ ground arith

appended-head :
    (size n : ℕ) (more : List Address) (b : BankServerChain)
    → (appended size (suc (suc n)) more b).head ≡ b.head
unfolding append_server
appended-head size n [] b = refl
appended-head size n (a ∷ more) b =
    appended-head size (suc n) more _ ∙ ground (arith, int_eq_iff (pos (suc (suc n))) (pos 1))

appended-tail :
    (size n : ℕ) (a : Address) (more : List Address) (b : BankServerChain)
    → size ≡ n + length more
    → (appended size n (a ∷ more) b).tail ≡ last_or a more
unfolding append_server
appended-tail size n a [] b e = ground (arith, int_eq_iff (pos n) (pos size))
appended-tail size n a (c ∷ more) b e = appended-tail size (suc n) c more _ (omega arith)

first-head :
    (size : ℕ) (a : Address) (b : BankServerChain) → (append_server size a (pos 1) b).head ≡ a
unfolding append_server int_eq
first-head size a b = ground arith

-- The chain of a bank, as the loop leaves it.
abbrev pub read_servers : BankEntry → BankServerChain
read_servers e = appended (length (servers e)) 1 (servers e) (empty_chain e.bank_id)

pub read_servers_lem :
    (e : BankEntry) → record (read_servers e) { extending = default_address } ≡ chain_of e
read_servers_lem e = λ i. record {
  bank_id = appended-bank_id (length (servers e)) 1 (servers e) b i;
  head =
      (appended-head (length (servers e)) 0 e.others
            (append_server (length (servers e)) e.first (pos 1) b)
          ∙ first-head (length (servers e)) e.first b)
        i;
  tail = appended-tail (length (servers e)) 1 e.first e.others b (omega arith) i;
  extending = default_address;
  server_chain = appended-server_chain (length (servers e)) 1 (servers e) b i;
}
  where
    b : BankServerChain
    b = empty_chain e.bank_id
