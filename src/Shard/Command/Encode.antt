-- ===== src/Shard/Command/Encode.antt =====
-- `ShardCommand::encode_current` of crates/execution/dtg-shard/src/command.rs.
use dtgproxy.Base.{
  ℕ, ◌^◌, ◌-◌, List, [], ◌∷◌, length, ltb, pos, Option, none, some, Result, ok, ◌>>=◌, ◌>>◌,
}
use dtgproxy.Base.Bytes.{Bytes}
use dtgproxy.Shard.{ShardError}
use dtgproxy.Shard.Codec.{refuse}
use dtgproxy.Shard.Codec.Encoder.{
  u8, u32, u64, u128, i64, put_bytes, put_digest, put_mutations, put_record, finish,
}
use dtgproxy.Shard.Online.{
  CommandHeader, MigrationPhase, prepare, activate, grace, retire, complete, abort, rollback,
  OnlineMigrationContext,
}
use dtgproxy.Shard.Command.{
  validate_single_shard_mutations, validate_commit, ParticipantIntent, encode_intent,
  HomeDecisionParticipant, HomeDecisionManifest, ShardCommand, commit_single_shard,
  commit_transaction, prewrite_intent, record_home_decision, finalize_participant,
  advance_closed_timestamp, install_snapshot, migration,
}
use dtgproxy.Shard.Command.Checks.{validate_prewrite, validate_decision, validate_finalize}

abbrev pub command_format_version : ℕ
command_format_version = 3

abbrev pub migration_phase_tag : MigrationPhase → ℕ
migration_phase_tag prepare = 1
migration_phase_tag activate = 2
migration_phase_tag retire = 3
migration_phase_tag grace = 4
migration_phase_tag complete = 5
migration_phase_tag abort = 6
migration_phase_tag rollback = 7

-- `Encoder::header`
abbrev pub put_header : CommandHeader → Bytes → Bytes
put_header h written = u64 h.backend_generation (u64 h.placement_epoch (u128 h.command_id written))

unfoldable pub put_participants : List HomeDecisionParticipant → Bytes → Result ShardError Bytes
put_participants [] written = ok written
put_participants (p ∷ ps) written = do
  after ← put_digest p.intent_digest (
      u64 p.snapshot_applied_index
        (u64 p.backend_generation (u64 p.placement_epoch (u64 p.shard_id written))))
  put_participants ps after

unfoldable pub put_manifest : HomeDecisionManifest → Bytes → Result ShardError Bytes
put_manifest m written = do
  refuse (ltb (2 ^ 32 - 1) (length m.participants)) "too many home decision participants"
  put_participants m.participants
      (u32 (length m.participants) (u64 m.catalog_version (i64 (pos m.start_time) written)))

unfoldable pub put_intent : ParticipantIntent → Bytes → Result ShardError Bytes
put_intent i written = do encoded ← encode_intent i; put_bytes encoded written

abbrev pub put_intent_option : Option ParticipantIntent → Bytes → Result ShardError Bytes
put_intent_option none written = ok (u8 0 written)
put_intent_option (some i) written = put_intent i (u8 1 written)

abbrev pub put_online : Option OnlineMigrationContext → Bytes → Result ShardError Bytes
put_online none written = ok written
put_online (some c) written = do
  classed ← put_digest c.target_backend_class_digest (
      u64 c.target_generation (
        u64 c.retained_generation
          (u64 c.source_generation (u64 c.source_epoch (u128 c.migration_id (u8 1 written))))))
  put_digest c.logical_digest (u64 c.verified_index (u64 c.catalog_version classed))

-- The arms of `ShardCommand::encode_current`.
unfoldable pub put_command : ShardCommand → Bytes → Result ShardError Bytes
put_command (commit_single_shard c) written =
    put_mutations c.mutations (put_header c.header (u8 1 written))
put_command (commit_transaction c) written = do
  requested ← put_digest c.request_digest (
      u64 c.snapshot_applied_index
        (i64 (pos c.start_time) (u128 c.transaction_id (put_header c.header (u8 8 written)))))
  put_mutations c.mutations requested
put_command (prewrite_intent c) written =
    put_intent c.intent (put_record c.prepared_record (put_header c.header (u8 2 written)))
put_command (record_home_decision c) written =
    put_manifest c.manifest (put_record c.decision (put_header c.header (u8 3 written)))
put_command (finalize_participant c) written =
    put_intent_option c.intent (put_record c.terminal (put_header c.header (u8 4 written)))
put_command (advance_closed_timestamp c) written =
    ok (i64 (pos c.closed_timestamp) (put_header c.header (u8 5 written)))
put_command (install_snapshot c) written =
    put_digest c.content_digest (u128 c.snapshot_id (put_header c.header (u8 6 written)))
put_command (migration c) written =
    put_online c.online (u8 (migration_phase_tag c.phase) (put_header c.header (u8 7 written)))

module _ (blake3 : Bytes → ℕ) where
  unfoldable pub check_command : ShardCommand → Result ShardError (Unit {0})
  check_command (commit_single_shard c) = validate_single_shard_mutations c.mutations
  check_command (commit_transaction c) = validate_commit c
  check_command (prewrite_intent c) = validate_prewrite blake3 c
  check_command (record_home_decision c) = validate_decision blake3 c
  check_command (finalize_participant c) = validate_finalize blake3 c
  check_command (advance_closed_timestamp c) = ok tt
  check_command (install_snapshot c) = ok tt
  check_command (migration c) = ok tt

  -- `ShardCommand::encode_current`
  unfoldable pub encode_command : ShardCommand → Result ShardError Bytes
  encode_command c = do
    check_command c
    written ← put_command c (u32 command_format_version [])
    finish written
