-- ===== src/Tests/Payloads.antt =====
-- The theorem on prepared messages, at the request that carries a deposit.
use chain_replication.Base.{ℕ, ◌≡◌, refl, true, some}
use chain_replication.Proto.{Message, request_type, request_sub}
use chain_replication.Proto.Prepare.{bare, prepare_msg}
use chain_replication.Proto.Prepare.Payload.{has_payload, prepare_msg_lem}
use chain_replication.Tests.Data.{deposit_1}

abbrev deposit_message : Message ℕ
deposit_message = record (bare request_type) { request = some deposit_1 }

prepared : prepare_msg request_type (request_sub deposit_1) ≡ some deposit_message
unfolding prepare_msg
prepared = refl

prepare_msg_lem_example :
    (deposit_message.type ≡ request_type)
    × (has_payload deposit_message.type deposit_message ≡ true)
prepare_msg_lem_example =
    prepare_msg_lem request_type (request_sub deposit_1) deposit_message prepared
