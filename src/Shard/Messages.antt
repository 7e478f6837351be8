-- ===== src/Shard/Messages.antt =====
-- The codes and the texts of the errors of crates/execution/dtg-shard/src/state_machine.rs.
use Prim.Native.String.{String, ◌++◌}
use dtgproxy.Base.Strings.{decimal}
use dtgproxy.Storage.Messages.{code, display}
use dtgproxy.Shard.{
  ShardError, invalid_command, unsupported_command_version, invalid_raft_state,
  snapshot_state_missing, invalid_lifecycle, duplicate_replica, heterogeneous_generation,
  replica_not_found, raft, stale_placement_epoch, stale_backend_generation, write_conflict,
  home_decision_conflict, corrupt_intent_history, binding_mismatch, storage, ApplyRejection,
  invalid, stale_epoch, stale_generation, conflict, closed_timestamp_fenced, home_conflict,
}

-- `ShardError::code`
unfoldable pub shard_code : ShardError → String
shard_code (invalid_command _) = "DTG-SHARD-COMMAND"
shard_code (unsupported_command_version _) = "DTG-SHARD-COMMAND-VERSION"
shard_code (invalid_raft_state _) = "DTG-SHARD-RAFT-STATE"
shard_code (snapshot_state_missing _ _) = "DTG-SHARD-SNAPSHOT-STATE"
shard_code (invalid_lifecycle _) = "DTG-SHARD-LIFECYCLE"
shard_code duplicate_replica = "DTG-SHARD-DUPLICATE-REPLICA"
shard_code heterogeneous_generation = "DTG-SHARD-HETEROGENEOUS-GENERATION"
shard_code replica_not_found = "DTG-SHARD-REPLICA-NOT-FOUND"
shard_code (raft _) = "DTG-SHARD-RAFT"
shard_code (stale_placement_epoch _ _) = "DTG-SHARD-STALE-EPOCH"
shard_code (stale_backend_generation _ _) = "DTG-SHARD-STALE-GENERATION"
shard_code write_conflict = "DTG-SHARD-WRITE-CONFLICT"
shard_code home_decision_conflict = "DTG-SHARD-HOME-DECISION-CONFLICT"
shard_code (corrupt_intent_history _) = "DTG-SHARD-INTENT-HISTORY"
shard_code binding_mismatch = "DTG-SHARD-BINDING"
shard_code (storage error) = code error

-- `Display for ShardError`
unfoldable pub display_shard : ShardError → String
display_shard (invalid_command message) = message
display_shard (unsupported_command_version version) =
    "unsupported Shard command version " ++ decimal version
display_shard (invalid_raft_state message) = message
display_shard (snapshot_state_missing snapshot applied) =
    "snapshot index "
    ++ (decimal snapshot ++ (" is ahead of business-store applied index " ++ decimal applied))
display_shard (invalid_lifecycle message) = message
display_shard duplicate_replica = "replica already exists on this host"
display_shard heterogeneous_generation =
    "replicas in one active Shard generation must share a backend class"
display_shard replica_not_found = "replica is not hosted on this node"
display_shard (raft error) = error
display_shard (stale_placement_epoch expected actual) =
    "stale placement epoch: expected " ++ (decimal expected ++ (", got " ++ decimal actual))
display_shard (stale_backend_generation expected actual) =
    "stale backend generation: expected " ++ (decimal expected ++ (", got " ++ decimal actual))
display_shard write_conflict = "temporal write conflict"
display_shard home_decision_conflict = "Home decision is already durably resolved differently"
display_shard (corrupt_intent_history message) = message
display_shard binding_mismatch = "state store binding does not match replica binding"
display_shard (storage error) = display error

-- `ApplyRejection::code`
unfoldable pub rejection_code : ApplyRejection → String
rejection_code invalid = "DTG-SHARD-REJECTED-COMMAND"
rejection_code stale_epoch = "DTG-SHARD-REJECTED-STALE-EPOCH"
rejection_code stale_generation = "DTG-SHARD-REJECTED-STALE-GENERATION"
rejection_code conflict = "DTG-SHARD-REJECTED-WRITE-CONFLICT"
rejection_code closed_timestamp_fenced = "DTG-SHARD-REJECTED-CLOSED-TIME"
rejection_code home_conflict = "DTG-SHARD-REJECTED-HOME-DECISION"
