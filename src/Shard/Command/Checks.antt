-- ===== src/Shard/Command/Checks.antt =====
-- What the commands of crates/execution/dtg-shard/src/command.rs check of their records, and the
-- mutations that they stand for. `blake3` is the digest of a dependency, as the number that its 32 bytes
-- spell; a hasher that is fed in parts digests their concatenation.
use dtgproxy.Base.{
  ℕ, Bool, true, false, not, ◌||◌, String, List, [], ◌∷◌, ◌++◌, any, flat_map, ltb, leb, ◌==◌,
  if◌then◌else◌, pos, Option, none, some, Result, ok, err, ◌>>=◌, ◌>>◌,
}
use dtgproxy.Base.Bytes.{Bytes, to_be_bytes}
use dtgproxy.Base.Map.{Map, insert}
use dtgproxy.Base.Strings.{text_key}
use dtgproxy.Base.Utf8.{as_bytes}
use dtgproxy.Storage.Mutation.{
  Value, bytes, string, integer, map, TransactionState, prepared, committed, aborted,
  TransactionRecord, ReplicaMetadata, LogicalMutation, put_transaction, put_replica_metadata,
  new_replica_metadata,
}
use dtgproxy.Shard.{ShardError, from_storage}
use dtgproxy.Shard.Codec.{fails, refuse}
use dtgproxy.Shard.Codec.Decoder.{fields_of}
use dtgproxy.Shard.Online.{
  new_header, MigrationCommand, MigrationPhase, prepare, activate, grace, retire, complete, abort,
  rollback, OnlineMigrationContext,
}
use dtgproxy.Shard.Command.{
  closed_timestamp_metadata_name, mutation_transaction_time, same_number,
  validate_single_shard_mutations, validate_commit, ParticipantIntent, encode_intent,
  intent_metadata, PrewriteIntent, HomeDecisionManifest, commit_part, abort_part,
  RecordHomeDecision, FinalizeParticipant, ShardCommand, commit_single_shard, commit_transaction,
  prewrite_intent, record_home_decision, finalize_participant, advance_closed_timestamp,
  install_snapshot, migration,
}

abbrev pub is_prepared : TransactionState → Bool
is_prepared prepared = true
is_prepared _ = false

abbrev pub phase_name : MigrationPhase → String
phase_name prepare = "prepare"
phase_name activate = "activate"
phase_name grace = "grace"
phase_name retire = "retire"
phase_name complete = "complete"
phase_name abort = "abort"
phase_name rollback = "rollback"

abbrev pub context_fields : MigrationPhase → OnlineMigrationContext → Map String Value
context_fields phase c = insert "logical_digest" (bytes (to_be_bytes 32 c.logical_digest)) (
    insert "verified_index" (bytes (to_be_bytes 8 c.verified_index)) (
      insert "catalog_version" (bytes (to_be_bytes 8 c.catalog_version)) (
        insert "target_backend_class_digest" (bytes (to_be_bytes 32 c.target_backend_class_digest))
          (insert "target_generation" (bytes (to_be_bytes 8 c.target_generation)) (
            insert "retained_generation" (bytes (to_be_bytes 8 c.retained_generation)) (
              insert "source_generation" (bytes (to_be_bytes 8 c.source_generation)) (
                insert "source_epoch" (bytes (to_be_bytes 8 c.source_epoch)) (
                  insert "migration_id" (bytes (to_be_bytes 16 c.migration_id))
                    (insert "phase" (string (phase_name phase)) [])))))))))

abbrev pub phase_value : MigrationPhase → Option OnlineMigrationContext → Value
phase_value phase none = string (phase_name phase)
phase_value phase (some c) = map (fields_of (context_fields phase c))

-- `migration_metadata`
unfoldable pub migration_metadata : MigrationCommand → Result ShardError ReplicaMetadata
migration_metadata m =
    from_storage (new_replica_metadata "dtg.migration_phase" (phase_value m.phase m.online))

module _ (blake3 : Bytes → ℕ) where
  -- `ParticipantIntent::digest`; `none` is where the code panics on a payload that cannot be encoded.
  unfoldable pub digest_of : ParticipantIntent → Option ℕ
  digest_of i = elim (encode_intent i) [
    | ok encoded ↦ some (blake3 (as_bytes "dtg-transaction-participant-intent-v3" ++ encoded))
    | err _ ↦ none
  ]

  -- `PrewriteIntent::validate`
  unfoldable pub validate_prewrite : PrewriteIntent → Result ShardError (Unit {0})
  validate_prewrite c = do
    refuse
        (not (is_prepared c.prepared_record.state)
          || (not (c.prepared_record.id == c.intent.transaction_id)
              || (not (c.prepared_record.transaction_time == c.intent.start_time)
                  || not
                      (same_number (some c.prepared_record.record_digest) (digest_of c.intent)))))
        "prewrite intent must bind one prepared record to its participant payload"
    encoded ← encode_intent c.intent
    ok tt

  -- `HomeDecisionManifest::decision_digest`
  unfoldable pub decision_digest :
      HomeDecisionManifest → ℕ → TransactionState → ℕ → Result ShardError ℕ
  decision_digest m transaction_id committed time =
      if ltb m.start_time time
      then ok (
          blake3 (
            as_bytes "dtg-transaction-home-decision-v1"
            ++ (to_be_bytes 16 transaction_id
                ++ (to_be_bytes 8 time ++ flat_map commit_part m.participants))))
      else fails "home decision time does not match its terminal state"
  decision_digest m transaction_id aborted time =
      if time == m.start_time
      then ok (
          blake3 (
            as_bytes "dtg-transaction-home-abort-v1"
            ++ (to_be_bytes 16 transaction_id
                ++ (to_be_bytes 8 m.start_time ++ flat_map abort_part m.participants))))
      else fails "home decision time does not match its terminal state"
  decision_digest m transaction_id prepared time =
      fails "home decision time does not match its terminal state"

  -- `RecordHomeDecision::validate`
  unfoldable pub validate_decision : RecordHomeDecision → Result ShardError (Unit {0})
  validate_decision c =
      if is_prepared c.decision.state
      then fails "home decision must match its durable participant manifest"
      else do
        expected ←
            decision_digest c.manifest c.decision.id c.decision.state c.decision.transaction_time
        refuse (not (c.decision.record_digest == expected))
            "home decision must match its durable participant manifest"

  abbrev commits_intent : TransactionRecord → ParticipantIntent → Result ShardError (Unit {0})
  commits_intent terminal i = do
    refuse
        (not (terminal.id == i.transaction_id)
          || (not (same_number (some terminal.record_digest) (digest_of i))
              || (leb terminal.transaction_time i.start_time
                  || any
                      (λ m. not (
                        same_number (mutation_transaction_time m) (some terminal.transaction_time)))
                      i.mutations)))
        "commit finalization does not match participant intent"
    encoded ← encode_intent i
    ok tt

  abbrev finalizes :
      TransactionState → TransactionRecord → Option ParticipantIntent → Result ShardError (Unit {0})
  finalizes committed terminal (some i) = commits_intent terminal i
  finalizes committed terminal none = fails "commit finalization requires participant intent"
  finalizes aborted terminal none = ok tt
  finalizes aborted terminal (some _) = fails "abort finalization must not carry graph mutations"
  finalizes prepared terminal _ =
      fails "participant finalization requires a terminal transaction record"

  -- `FinalizeParticipant::validate`
  unfoldable pub validate_finalize : FinalizeParticipant → Result ShardError (Unit {0})
  validate_finalize c = finalizes c.terminal.state c.terminal c.intent

  -- `PrewriteIntent::new`
  unfoldable pub new_prewrite :
      ℕ → ℕ → ℕ → TransactionRecord → ParticipantIntent → Result ShardError PrewriteIntent
  new_prewrite command_id epoch generation prepared_record intent = do
    header ← new_header command_id epoch generation
    let command : PrewriteIntent = record {
      header = header;
      prepared_record = prepared_record;
      intent = intent;
    }
    validate_prewrite command
    ok command

  -- `RecordHomeDecision::new`
  unfoldable pub new_decision :
      ℕ → ℕ → ℕ → TransactionRecord → HomeDecisionManifest → Result ShardError RecordHomeDecision
  new_decision command_id epoch generation decision manifest = do
    header ← new_header command_id epoch generation
    let command : RecordHomeDecision = record {
      header = header;
      decision = decision;
      manifest = manifest;
    }
    validate_decision command
    ok command

  -- `FinalizeParticipant::new`
  unfoldable pub new_finalize :
      ℕ
      → ℕ
      → ℕ
      → TransactionRecord
      → Option ParticipantIntent
      → Result ShardError FinalizeParticipant
  new_finalize command_id epoch generation terminal intent = do
    header ← new_header command_id epoch generation
    let command : FinalizeParticipant = record {
      header = header;
      terminal = terminal;
      intent = intent;
    }
    validate_finalize command
    ok command

  abbrev intent_mutations : Option ParticipantIntent → List LogicalMutation
  intent_mutations none = []
  intent_mutations (some i) = i.mutations

  -- `ShardCommand::mutations`
  unfoldable pub command_mutations : ShardCommand → Result ShardError (List LogicalMutation)
  command_mutations (commit_single_shard c) = do
    validate_single_shard_mutations c.mutations
    ok c.mutations
  command_mutations (commit_transaction c) = do validate_commit c; ok c.mutations
  command_mutations (prewrite_intent c) = do
    validate_prewrite c
    metadata ← intent_metadata c.intent
    ok (put_transaction c.prepared_record ∷ put_replica_metadata metadata ∷ [])
  command_mutations (record_home_decision c) = do
    validate_decision c
    ok (put_transaction c.decision ∷ [])
  command_mutations (finalize_participant c) = do
    validate_finalize c
    ok (intent_mutations c.intent ++ put_transaction c.terminal ∷ [])
  command_mutations (advance_closed_timestamp c) = do
    metadata ←
        from_storage
          (new_replica_metadata closed_timestamp_metadata_name (integer (pos c.closed_timestamp)))
    ok (put_replica_metadata metadata ∷ [])
  command_mutations (install_snapshot c) = do
    metadata ← from_storage (
        new_replica_metadata "dtg.installed_snapshot" (
          map (
            fields_of (
              insert "content_digest" (bytes (to_be_bytes 32 c.content_digest))
                (insert "snapshot_id" (bytes (to_be_bytes 16 c.snapshot_id)) [])))))
    ok (put_replica_metadata metadata ∷ [])
  command_mutations (migration c) = do
    metadata ← migration_metadata c
    ok (put_replica_metadata metadata ∷ [])
