-- ===== src/Tests/Chains.antt =====
-- The theorems on the master, at a chain of three servers.
use chain_replication.Base.{ℕ, pos, ◌≡◌, refl, int_eq, inl, inr, true, false, some, [], ◌∷◌, arith}
use chain_replication.Base.Map.{find}
use chain_replication.Exec.{aborted}
use chain_replication.Proto.{
  Address, default_address, addr_eq, Join, ExtendFinish, extend_server, address_sub,
}
use chain_replication.Wire.{send_msg_tcp}
use chain_replication.Master.Chain.{BankServerChain, new_node}
use chain_replication.Master.Chain.View.{member, without, last_or}
use chain_replication.Master.State.{MasterProcess}
use chain_replication.Master.Quiet.{IsHealthy}
use chain_replication.Master.Crash.{notify_crash}
use chain_replication.Master.Dispatch.{handle_join, handle_extend_finish}
use chain_replication.Master.Refinement.{IsChain}
use chain_replication.Master.Refinement.Crashes.{Ends}
use chain_replication.Master.Refinement.Departure.{notify_crash_lem}
use chain_replication.Master.Refinement.Alone.{notify_crash_alone}
use chain_replication.Master.Refinement.Joins.{joined, handle_join_lem, handle_extend_finish_lem}
use chain_replication.Tests.Data.{local, open_net, silent_wire}

abbrev a1 : Address
a1 = local 50001

abbrev a2 : Address
a2 = local 50002

abbrev a3 : Address
a3 = local 50003

abbrev a4 : Address
a4 = local 50004

abbrev three : BankServerChain
three = record {
  bank_id = "bank1";
  head = a1;
  tail = a3;
  extending = default_address;
  server_chain = new_node a1 ∷ new_node a2 ∷ new_node a3 ∷ [];
}

abbrev master_of : BankServerChain → MasterProcess ℕ
master_of b = record {
  master = record {
    addr = local 50000;
    bank_server_chain = ("bank1", b) ∷ [];
    client_list = ("client1", local 60001) ∷ [];
  };
  wire = silent_wire;
  check_alive_interval = pos 5;
  crash_timeout = pos 5;
  now = 0;
}

open_net-IsHealthy : IsHealthy open_net
open_net-IsHealthy = record {
  addresses = λ ip. refl;
  datagrams = λ n. refl;
  closing = λ n. refl;
  small = λ m. omega arith;
}

three-IsChain : IsChain three a1 (a2 ∷ a3 ∷ []) []
unfolding addr_eq int_eq
three-IsChain = record {
  servers = refl;
  head_first = refl;
  tail_last = refl;
  extension = inl (refl, refl);
  distinct = (refl, (refl, (refl, tt)));
  named = refl;
}

in_three : member a2 (a1 ∷ a2 ∷ a3 ∷ []) ≡ true
unfolding addr_eq int_eq
in_three = refl

rest_of_three : without a2 (a1 ∷ a2 ∷ a3 ∷ []) ≡ a1 ∷ a3 ∷ []
unfolding without addr_eq int_eq
rest_of_three = refl

notify_crash_lem_example :
    (b' : BankServerChain) × IsChain b' a1 (a3 ∷ []) (without a2 [])
    × Ends "bank1" b' (master_of three) (notify_crash "bank1" three a2 (master_of three))
notify_crash_lem_example =
    notify_crash_lem "bank1" a2 a1 a1 (a2 ∷ a3 ∷ []) (a3 ∷ []) [] three (master_of three)
      three-IsChain in_three rest_of_three open_net-IsHealthy

abbrev one : BankServerChain
one = record {
  bank_id = "bank1";
  head = a1;
  tail = a1;
  extending = default_address;
  server_chain = new_node a1 ∷ [];
}

one-IsChain : IsChain one a1 [] []
unfolding addr_eq int_eq
one-IsChain = record {
  servers = refl;
  head_first = refl;
  tail_last = refl;
  extension = inl (refl, refl);
  distinct = (refl, tt);
  named = refl;
}

notify_crash_alone_example : notify_crash "bank1" one a1 (master_of one) ≡ (aborted, master_of one)
notify_crash_alone_example = notify_crash_alone "bank1" a1 [] one (master_of one) one-IsChain

abbrev joining_4 : Join
joining_4 = record { bank_id = "bank1"; server_addr = a4 }

stranger_4 : member a4 (a1 ∷ a2 ∷ a3 ∷ []) ≡ false
unfolding addr_eq int_eq
stranger_4 = refl

named_4 : addr_eq a4 default_address ≡ false
unfolding addr_eq int_eq
named_4 = refl

chain_found : (b : BankServerChain) → find "bank1" (master_of b).master.bank_server_chain ≡ some b
unfolding find
chain_found b = refl

handle_join_lem_example :
    IsChain (joined a4 three) a1 (a2 ∷ a3 ∷ []) (a4 ∷ [])
    × Ends "bank1" (joined a4 three) (master_of three) (handle_join joining_4 (master_of three))
    × ((handle_join joining_4 (master_of three)).1.wire
        ≡ (send_msg_tcp (last_or a1 (a2 ∷ a3 ∷ [])) extend_server (address_sub a4) silent_wire).1)
handle_join_lem_example =
    handle_join_lem joining_4 a1 (a2 ∷ a3 ∷ []) three (master_of three) (chain_found three)
      three-IsChain stranger_4 named_4 open_net-IsHealthy

abbrev four : BankServerChain
four = joined a4 three

four-IsChain : IsChain four a1 (a2 ∷ a3 ∷ []) (a4 ∷ [])
unfolding addr_eq int_eq
four-IsChain = record {
  servers = refl;
  head_first = refl;
  tail_last = refl;
  extension = inr refl;
  distinct = (refl, (refl, (refl, (refl, tt))));
  named = refl;
}

abbrev finished_4 : ExtendFinish
finished_4 = record { bank_id = "bank1"; server_addr = a4 }

handle_extend_finish_lem_example :
    IsChain (record four { tail = a4; extending = default_address }) a1 (a2 ∷ a3 ∷ a4 ∷ []) []
    × Ends "bank1"
        (record four { tail = a4; extending = default_address })
        (master_of four)
        (handle_extend_finish finished_4 (master_of four))
handle_extend_finish_lem_example =
    handle_extend_finish_lem finished_4 a1 (a2 ∷ a3 ∷ []) four (master_of four) (chain_found four)
      four-IsChain open_net-IsHealthy
