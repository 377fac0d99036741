-- ===== src/Tests/Pairs.antt =====
-- The theorems on a chain of two servers, at a deposit and a withdrawal.
use chain_replication.Proto.Float.{whole}
use chain_replication.Base.{◌≡◌, refl, [], true, false, arith}
use chain_replication.Exec.{ok, for_each}
use chain_replication.Server.Update.{receive_request}
use chain_replication.Server.Link.{Replicas}
use chain_replication.Server.Link.Round.{IsReliable}
use chain_replication.Server.Link.Finish.{IsQuiet}
use chain_replication.Server.Link.AsOne.{round}
use chain_replication.Server.Link.AsOne.Step.{IsPair, IsSingle}
use chain_replication.Server.Link.AsOne.Run.{
  replies_in, answered_to, asked_by, chain_as_one, every_update_answered,
}
use chain_replication.Tests.Data.{open_net, process_at}
use chain_replication.Tests.Links.{two_updates}

open_net-IsReliable : IsReliable open_net
open_net-IsReliable = record {
  streams = record { addresses = λ ip. refl; streams = λ n. refl };
  datagrams = λ n. refl;
  small = λ m. omega arith;
}

head-IsQuiet : IsQuiet (process_at true false)
head-IsQuiet = record {
  reliable = open_net-IsReliable;
  sound = refl;
  settled = refl;
  nothing_sent = refl;
}

tail-IsQuiet : IsQuiet (process_at false true)
tail-IsQuiet = record {
  reliable = open_net-IsReliable;
  sound = refl;
  settled = refl;
  nothing_sent = refl;
}

single-IsQuiet : IsQuiet (process_at true true)
single-IsQuiet = record {
  reliable = open_net-IsReliable;
  sound = refl;
  settled = refl;
  nothing_sent = refl;
}

head_and_tail : IsPair (process_at true false) (process_at false true)
head_and_tail = record {
  head = refl;
  not_tail = refl;
  not_head = refl;
  tail = refl;
  quiet = head-IsQuiet;
  quiet_tail = tail-IsQuiet;
  replicas = record {
    same_accounts = refl;
    same_history = refl;
    same_sent = refl;
    same_seq = refl;
  };
}

lone_server : IsSingle (process_at true false) (process_at true true)
lone_server = record {
  head = refl;
  tail = refl;
  quiet = single-IsQuiet;
  replicas = record {
    same_accounts = refl;
    same_history = refl;
    same_sent = refl;
    same_seq = refl;
  };
}

chain_as_one_example :
    let two = for_each two_updates round (process_at true false, process_at false true) in
    let one = for_each two_updates receive_request (process_at true true) in
    (two.0 ≡ ok tt)
    × (one.0 ≡ ok tt)
    × (replies_in two.1.1.wire.packets ≡ replies_in one.1.wire.packets)
    × (two.1.0.server.sent_list ≡ [])
    × (Replicas two.1.0.server two.1.1.server × Replicas two.1.0.server one.1.server)
chain_as_one_example =
    chain_as_one two_updates (process_at true false) (process_at false true) (process_at true true)
      head_and_tail lone_server (refl, (refl, tt)) (omega arith) refl

every_update_answered_example :
    let two = for_each two_updates round (process_at true false, process_at false true) in
    (two.0 ≡ ok tt)
    × (answered_to two.1.1.wire.packets
        ≡ asked_by two_updates (answered_to (process_at false true).wire.packets))
    × (two.1.0.server.sent_list ≡ [])
every_update_answered_example =
    every_update_answered two_updates (process_at true false) (process_at false true) head_and_tail
      (refl, (refl, tt)) (omega arith)
