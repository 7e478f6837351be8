-- ===== src/Shard.antt =====
-- crates/execution/dtg-shard/src/state_machine.rs: the errors of a shard, and which of them are
-- committed as rejections. A `raft::Error` is the text that it displays.
pub mod Codec
pub mod Online
pub mod Command
pub mod Messages
pub mod Durable
pub mod History
pub mod Machine
mod Examples
use dtgproxy.Base.{ℕ, String, Bool, Option, none, some, Result, ok, err, if◌then◌else◌}
use dtgproxy.Base.Map.{Key}
use dtgproxy.Base.Strings.{text_key}
use dtgproxy.Kernel.{KernelError}
use dtgproxy.Kernel.Messages.{display_kernel}
use dtgproxy.Storage.{StorageError}

pub data ShardError : Type 0 where
  invalid_command : String → ShardError
  unsupported_command_version : ℕ → ShardError
  invalid_raft_state : String → ShardError
  snapshot_state_missing : ℕ → ℕ → ShardError
  invalid_lifecycle : String → ShardError
  duplicate_replica heterogeneous_generation replica_not_found : ShardError
  raft : String → ShardError
  stale_placement_epoch stale_backend_generation : ℕ → ℕ → ShardError
  write_conflict home_decision_conflict : ShardError
  corrupt_intent_history : String → ShardError
  binding_mismatch : ShardError
  storage : StorageError → ShardError

pub data ApplyRejection : Type 0 where
  invalid stale_epoch stale_generation conflict closed_timestamp_fenced home_conflict :
      ApplyRejection

-- `committed_rejection`
unfoldable pub committed_rejection : ShardError → Option ApplyRejection
committed_rejection (invalid_command message) =
    if text_key.same message "closed timestamp is fenced by a pending prepared intent"
    then some closed_timestamp_fenced
    else some invalid
committed_rejection (stale_placement_epoch _ _) = some stale_epoch
committed_rejection (stale_backend_generation _ _) = some stale_generation
committed_rejection write_conflict = some conflict
committed_rejection home_decision_conflict = some home_conflict
committed_rejection (unsupported_command_version _) = none
committed_rejection (invalid_raft_state _) = none
committed_rejection (snapshot_state_missing _ _) = none
committed_rejection (invalid_lifecycle _) = none
committed_rejection duplicate_replica = none
committed_rejection heterogeneous_generation = none
committed_rejection replica_not_found = none
committed_rejection (raft _) = none
committed_rejection (corrupt_intent_history _) = none
committed_rejection binding_mismatch = none
committed_rejection (storage _) = none

-- `?` on a storage error and on a kernel error, by the two `From`.
abbrev pub from_storage : {A : Type 0} → Result StorageError A → Result ShardError A
from_storage (ok a) = ok a
from_storage (err e) = err (storage e)

abbrev pub from_kernel : {A : Type 0} → Result KernelError A → Result ShardError A
from_kernel (ok a) = ok a
from_kernel (err e) = err (invalid_command (display_kernel e))
