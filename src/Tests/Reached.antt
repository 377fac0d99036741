-- ===== src/Tests/Reached.antt =====
-- The theorem on the states that a server reaches, after it reads its configuration, a deposit and a heartbeat.
use chain_replication.Base.{ℕ, pos, refl, some, arith}
use chain_replication.Proto.{Message, request_type}
use chain_replication.Proto.Prepare.{bare}
use chain_replication.Proto.Float.{whole, whole-SignLaws}
use chain_replication.Server.State.{Process}
use chain_replication.Server.Dispatch.{serve_tcp, send_heartbeat}
use chain_replication.Server.Validity.{IsValid}
use chain_replication.Server.Validity.Messages.Serve.{IsAdmissible}
use chain_replication.Server.Validity.Messages.Reach.{
  Reach, here, next, tcp, heartbeat_sent, reached-IsValid,
}
use chain_replication.Config.Servers.{read_config_server}
use chain_replication.Config.Servers.Empty.{IsFresh}
use chain_replication.Config.Servers.Empty.Reading.{read_config_server-IsBare}
use chain_replication.Tests.Json.{json_of}
use chain_replication.Tests.Configurations.{root, new_server}
use chain_replication.Tests.Data.{deposit_1}

abbrev deposit_message : Message ℕ
deposit_message = record (bare request_type) { request = some deposit_1 }

abbrev started : Process ℕ
started = (read_config_server (json_of root) 0 "config.json" "bank1" (pos 2) new_server).1

new_server-IsFresh : IsFresh new_server.server
new_server-IsFresh = (refl, refl, refl, refl)

admissible : IsAdmissible deposit_message started.server
admissible = record {
  amount = λ x e. ground arith;
  room = omega (
    arith,
    ((read_config_server-IsBare (json_of root) 0 "config.json" "bank1" (pos 2)).at new_server
        new_server-IsFresh).3,
  );
  fair = λ m e. cc;
  joining = λ m e. cc;
}

abbrev after_deposit : Process ℕ
after_deposit = (send_heartbeat (serve_tcp deposit_message started).1).1

reached : Reach started after_deposit
reached = next (next here (tcp deposit_message admissible)) heartbeat_sent

reached-IsValid_example : IsValid after_deposit.server
reached-IsValid_example =
    reached-IsValid whole-SignLaws (json_of root) 0 "config.json" "bank1" (pos 2) new_server
      after_deposit new_server-IsFresh reached
