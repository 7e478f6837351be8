-- ===== src/Shard/Command/Decode.antt =====
-- `ShardCommand::decode` and `ParticipantIntent::decode_current` of
-- crates/execution/dtg-shard/src/command.rs.
use dtgproxy.Base.{
  ℕ, zero, suc, Bool, false, not, List, [], ◌∷◌, length, is_nil, ltb, ◌==◌, if◌then◌else◌, Option,
  none, some, Result, ok, err,
}
use dtgproxy.Base.Bytes.{Bytes}
use dtgproxy.Kernel.{identifier}
use dtgproxy.Storage.Mutation.{command_id}
use dtgproxy.Shard.{ShardError, from_storage, from_kernel, unsupported_command_version}
use dtgproxy.Shard.Codec.{fails, refuse}
use dtgproxy.Shard.Codec.Decoder.{
  Decoder, Reader, ◌>>=◌, ◌>>◌, give, new_decoder, finished, get_u8, get_u32, get_u64, get_u128,
  get_id, get_time, get_bytes, get_digest, get_record, get_mutations, mutations_with_limit,
  collection_count,
}
use dtgproxy.Shard.Online.{
  CommandHeader, new_header, MigrationCommand, MigrationPhase, prepare, activate, grace, retire,
  complete, abort, rollback, new_migration_command, decode_online,
}
use dtgproxy.Shard.Command.{
  intent_version, max_intent_items, max_intent_bytes, ParticipantIntent, new_intent,
  HomeDecisionParticipant, new_participant, HomeDecisionManifest, new_manifest,
  new_install_snapshot, ShardCommand, commit_single_shard, commit_transaction, prewrite_intent,
  record_home_decision, finalize_participant, advance_closed_timestamp, install_snapshot, migration,
}
use dtgproxy.Shard.Command.Checks.{new_decision, command_mutations}
use dtgproxy.Shard.Command.Encode.{command_format_version}

abbrev pub value_of : {A : Type 0} → Result ShardError (A × Decoder) → Result ShardError A
value_of (ok (a, d)) = ok a
value_of (err e) = err e

-- A reader over all the bytes.
abbrev pub read_all : {A : Type 0} → Reader A → Bytes → Result ShardError A
read_all read content = elim (new_decoder content) [ err e ↦ err e | ok d ↦ value_of (read d) ]

abbrev pub kernel_id : ℕ → Result ShardError ℕ
kernel_id n = from_kernel (identifier n)

abbrev pub get_small_id : Reader ℕ
get_small_id = do n ← get_u64; give (kernel_id n)

unfoldable pub get_intent : Reader ParticipantIntent
get_intent = do
  version ← get_u32
  give (refuse (not (version == intent_version)) "unsupported transaction intent version")
  transaction_id ← get_id kernel_id
  shard_id ← get_small_id
  start_time ← get_time
  index ← get_u64
  mutations ←
      mutations_with_limit max_intent_items
        "transaction intent mutation count is outside the supported bounds"
  finished
  give (
      new_intent (record {
        transaction_id = transaction_id;
        shard_id = shard_id;
        start_time = start_time;
        snapshot_applied_index = index;
        mutations = mutations;
      }))

-- `ParticipantIntent::decode_current`
unfoldable pub decode_intent : Bytes → Result ShardError ParticipantIntent
decode_intent content =
    if ltb max_intent_bytes (length content)
    then fails "transaction intent bytes are oversized"
    else read_all get_intent content

abbrev pub checked_command : ℕ → Result ShardError ℕ
checked_command n = from_storage (command_id n)

-- `Decoder::header`
unfoldable pub get_header : Reader CommandHeader
get_header = do
  id ← get_id checked_command
  epoch ← get_u64
  generation ← get_u64
  give (new_header id epoch generation)

unfoldable pub decode_migration_phase : ℕ → Result ShardError MigrationPhase
decode_migration_phase tag =
    if tag == 1
    then ok prepare
    else if tag == 2
    then ok activate
    else if tag == 3
    then ok retire
    else if tag == 4
    then ok grace
    else if tag == 5
    then ok complete
    else if tag == 6
    then ok abort
    else if tag == 7
    then ok rollback
    else fails "unknown migration phase"

unfoldable pub get_participants : ℕ → Reader (List HomeDecisionParticipant)
get_participants zero = give (ok [])
get_participants (suc count) = do
  shard_id ← get_small_id
  epoch ← get_small_id
  generation ← get_small_id
  index ← get_u64
  digest ← get_digest
  p ← give (
      new_participant (record {
        shard_id = shard_id;
        placement_epoch = epoch;
        backend_generation = generation;
        snapshot_applied_index = index;
        intent_digest = digest;
      }))
  ps ← get_participants count
  give (ok (p ∷ ps))

unfoldable pub get_manifest : Reader HomeDecisionManifest
get_manifest = do
  start_time ← get_time
  catalog_version ← get_u64
  count ← collection_count
  participants ← get_participants count
  give (
      new_manifest (record {
        start_time = start_time;
        catalog_version = catalog_version;
        participants = participants;
      }))

unfoldable pub get_nested_intent : Reader ParticipantIntent
get_nested_intent = do content ← get_bytes; give (decode_intent content)

unfoldable pub get_intent_option : Reader (Option ParticipantIntent)
get_intent_option = do
  tag ← get_u8
  if tag == 0
      then give (ok none)
      else if tag == 1
      then (do i ← get_nested_intent; give (ok (some i)))
      else give (fails "unknown participant intent presence tag")

unfoldable pub get_online : CommandHeader → MigrationPhase → Reader MigrationCommand
get_online header phase = do
  tag ← get_u8
  give (refuse (not (tag == 1)) "unknown migration context presence tag")
  migration_id ← get_u128
  source_epoch ← get_u64
  source_generation ← get_u64
  retained_generation ← get_u64
  target_generation ← get_u64
  class_digest ← get_digest
  catalog_version ← get_u64
  verified_index ← get_u64
  logical_digest ← get_digest
  give (
      decode_online header
        (record {
          migration_id = migration_id;
          source_epoch = source_epoch;
          source_generation = source_generation;
          retained_generation = retained_generation;
          target_generation = target_generation;
          target_backend_class_digest = class_digest;
          catalog_version = catalog_version;
          verified_index = verified_index;
          logical_digest = logical_digest;
        })
        phase)

-- The context is read where bytes are left.
unfoldable pub get_migration : CommandHeader → MigrationPhase → Reader MigrationCommand
get_migration header phase d =
    if is_nil d.left
    then give
        (new_migration_command header.command_id header.placement_epoch header.backend_generation
          phase)
        d
    else get_online header phase d

abbrev pub has_no_mutations : ShardCommand → Bool
has_no_mutations (commit_single_shard c) = is_nil c.mutations
has_no_mutations (commit_transaction c) = is_nil c.mutations
has_no_mutations _ = false

module _ (blake3 : Bytes → ℕ) where
  -- The arms of `ShardCommand::decode`.
  unfoldable pub command_arm : CommandHeader → ℕ → Reader ShardCommand
  command_arm header tag =
      if tag == 1
      then (do
        mutations ← get_mutations
        give (ok (commit_single_shard (record { header = header; mutations = mutations }))))
      else if tag == 8
      then (do
        transaction_id ← get_id kernel_id
        start_time ← get_time
        index ← get_u64
        digest ← get_digest
        mutations ← get_mutations
        give (
            ok (
              commit_transaction (record {
                header = header;
                transaction_id = transaction_id;
                start_time = start_time;
                snapshot_applied_index = index;
                request_digest = digest;
                mutations = mutations;
              }))))
      else if tag == 2
      then (do
        prepared_record ← get_record
        intent ← get_nested_intent
        give (
            ok (
              prewrite_intent
                (record { header = header; prepared_record = prepared_record; intent = intent }))))
      else if tag == 3
      then (do
        decision ← get_record
        manifest ← get_manifest
        c ← give (
            new_decision blake3 header.command_id header.placement_epoch header.backend_generation
              decision manifest)
        give (ok (record_home_decision c)))
      else if tag == 4
      then (do
        terminal ← get_record
        intent ← get_intent_option
        give (
            ok (
              finalize_participant
                (record { header = header; terminal = terminal; intent = intent }))))
      else if tag == 5
      then (do
        time ← get_time
        give (ok (advance_closed_timestamp (record { header = header; closed_timestamp = time }))))
      else if tag == 6
      then (do
        snapshot_id ← get_u128
        digest ← get_digest
        c ← give (
            new_install_snapshot header.command_id header.placement_epoch header.backend_generation
              snapshot_id digest)
        give (ok (install_snapshot c)))
      else if tag == 7
      then (do
        phase_tag ← get_u8
        phase ← give (decode_migration_phase phase_tag)
        c ← get_migration header phase
        give (ok (migration c)))
      else give (fails "unknown command tag")

  unfoldable pub get_command : Reader ShardCommand
  get_command = do
    version ← get_u32
    give (
        if version == command_format_version
        then ok tt
        else err (unsupported_command_version version))
    tag ← get_u8
    header ← get_header
    command ← command_arm header tag
    finished
    give (refuse (has_no_mutations command) "mutation command must not be empty")
    mutations ← give (command_mutations blake3 command)
    give (ok command)

  -- `ShardCommand::decode`
  unfoldable pub decode_command : Bytes → Result ShardError ShardCommand
  decode_command content = read_all get_command content
