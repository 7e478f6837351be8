-- ===== src/Shard/Online.antt =====
-- crates/execution/dtg-shard/src/migration.rs: the commands of a migration.
use dtgproxy.Base.{
  ℕ, Bool, true, false, not, ◌&&◌, ◌||◌, leb, ◌==◌, if◌then◌else◌, Option, none, some, Result, ok,
  ok_or, checked_add, u64_max, ◌>>=◌, ◌>>◌,
}
use dtgproxy.Shard.{ShardError, invalid_command}
use dtgproxy.Shard.Codec.{refuse}

pub record CommandHeader : Type 0 where
  pub command_id : ℕ
  pub placement_epoch : ℕ
  pub backend_generation : ℕ

-- `CommandHeader::new`
unfoldable pub new_header : ℕ → ℕ → ℕ → Result ShardError CommandHeader
new_header command_id epoch generation = do
  refuse (epoch == 0) "placement epoch must be nonzero"
  refuse (generation == 0) "backend generation must be nonzero"
  ok (record { command_id = command_id; placement_epoch = epoch; backend_generation = generation })

abbrev pub same_header : CommandHeader → CommandHeader → Bool
same_header a b =
    a.command_id == b.command_id
    && (a.placement_epoch == b.placement_epoch && a.backend_generation == b.backend_generation)

pub data MigrationPhase : Type 0 where
  prepare activate grace retire complete abort rollback : MigrationPhase

pub record OnlineMigrationContext : Type 0 where
  pub migration_id : ℕ
  pub source_epoch : ℕ
  pub source_generation : ℕ
  pub retained_generation : ℕ
  pub target_generation : ℕ
  pub target_backend_class_digest : ℕ
  pub catalog_version : ℕ
  pub verified_index : ℕ
  pub logical_digest : ℕ

pub record MigrationCommand : Type 0 where
  pub header : CommandHeader
  pub phase : MigrationPhase
  pub online : Option OnlineMigrationContext

-- `MigrationCommand::new`
unfoldable pub new_migration_command :
    ℕ → ℕ → ℕ → MigrationPhase → Result ShardError MigrationCommand
new_migration_command command_id epoch generation phase = do
  header ← new_header command_id epoch generation
  ok (record { header = header; phase = phase; online = none })

abbrev pub is_rollback : MigrationPhase → Bool
is_rollback rollback = true
is_rollback _ = false

abbrev pub uses_target_fence : MigrationPhase → Bool
uses_target_fence prepare = false
uses_target_fence abort = false
uses_target_fence _ = true

-- `MigrationCommand::online`
unfoldable pub new_online :
    ℕ → OnlineMigrationContext → MigrationPhase → Result ShardError MigrationCommand
new_online command_id c phase = do
  refuse (c.source_epoch == 0) "migration source epoch must be nonzero"
  refuse (c.source_generation == 0) "migration source generation must be nonzero"
  refuse (c.retained_generation == 0) "migration retained generation must be nonzero"
  refuse (c.target_generation == 0) "migration target generation must be nonzero"
  next_epoch ←
      ok_or (checked_add u64_max c.source_epoch 1)
        (invalid_command "migration placement epoch overflow")
  expected_generation ←
      ok_or (checked_add u64_max c.source_generation 1)
        (invalid_command "migration backend generation overflow")
  refuse
      (c.migration_id == 0
        || (not (c.target_generation == expected_generation)
            || (c.target_backend_class_digest == 0
                || (c.verified_index == 0
                    || (c.logical_digest == 0
                        || ((is_rollback phase && leb c.source_generation c.retained_generation)
                            || (not (is_rollback phase)
                                && not (c.retained_generation == c.source_generation))))))))
      "online migration context is inconsistent"
  header ←
      new_header command_id (if uses_target_fence phase then next_epoch else c.source_epoch)
        (if uses_target_fence phase then c.target_generation else c.source_generation)
  ok (record { header = header; phase = phase; online = some c })

abbrev pub is_cutover : MigrationPhase → Bool
is_cutover activate = true
is_cutover rollback = true
is_cutover _ = false

-- `checked_add(1).unwrap_or(0)`
abbrev pub next_epoch_or_zero : ℕ → ℕ
next_epoch_or_zero epoch = elim (checked_add u64_max epoch 1) [ none ↦ 0 | some n ↦ n ]

abbrev context_cuts : CommandHeader → ℕ → ℕ → Option OnlineMigrationContext → Bool
context_cuts header epoch generation none = false
context_cuts header epoch generation (some c) =
    c.source_epoch == epoch
    && (c.source_generation == generation
        && (header.placement_epoch == next_epoch_or_zero epoch
            && header.backend_generation == c.target_generation))

-- `MigrationCommand::cuts_over_from`
unfoldable pub cuts_over_from : MigrationCommand → ℕ → ℕ → Bool
cuts_over_from m epoch generation =
    is_cutover m.phase && context_cuts m.header epoch generation m.online

-- `MigrationCommand::decode_online`
unfoldable pub decode_online :
    CommandHeader → OnlineMigrationContext → MigrationPhase → Result ShardError MigrationCommand
decode_online header c phase = do
  command ← new_online header.command_id c phase
  refuse (not (same_header command.header header))
      "migration command header contradicts its context"
  ok command
