-- ===== src/Shard/Command.antt =====
-- The commands of crates/execution/dtg-shard/src/command.rs, what they check and the mutations that they
-- stand for.
pub mod Checks
pub mod Encode
pub mod Decode
pub mod Parts
pub mod Bodies
pub mod RoundTrip
use dtgproxy.Base.{
  ℕ, zero, suc, ◌+◌, ◌*◌, Bool, true, false, not, ◌&&◌, ◌||◌, String, List, [], ◌∷◌, ◌++◌, length,
  drop, any, flat_map, sort_by, is_nil, is_some, ltb, leb, ◌==◌, if◌then◌else◌, pos, Option, none,
  some, Result, ok, err, ok_or, ◌>>=◌, ◌>>◌,
}
use dtgproxy.Base.Bytes.{Bytes, to_be_bytes}
use dtgproxy.Base.Map.{Map, Set, insert, nat_key}
use dtgproxy.Base.Strings.{chars, strip_prefix, text_key}
use dtgproxy.Base.Utf8.{as_bytes}
use dtgproxy.Storage.Mutation.{
  Value, bytes, string, integer, map, Fields, TransactionState, prepared, committed, aborted,
  TransactionRecord, ReplicaMetadata, LogicalMutation, put_vertex, delete_vertex, put_edge,
  delete_edge, put_transaction, put_replica_metadata, new_replica_metadata,
}
use dtgproxy.Shard.{ShardError, invalid_command, from_storage}
use dtgproxy.Shard.Codec.{fails, refuse}
use dtgproxy.Shard.Codec.Encoder.{u32, u64, u128, i64, put_mutations, finish}
use dtgproxy.Shard.Codec.Decoder.{fields_of}
use dtgproxy.Shard.Online.{
  CommandHeader, new_header, MigrationCommand, MigrationPhase, prepare, activate, grace, retire,
  complete, abort, rollback, OnlineMigrationContext,
}

abbrev pub max_intent_items : ℕ
max_intent_items = 4096

abbrev pub max_intent_bytes : ℕ
max_intent_bytes = 4 * 1024 * 1024

abbrev pub intent_version : ℕ
intent_version = 3

abbrev pub intent_metadata_name : String
intent_metadata_name = "dtg.transaction_intent.v3"

abbrev pub closed_timestamp_metadata_name : String
closed_timestamp_metadata_name = "dtg.closed_timestamp"

abbrev pub is_reserved : LogicalMutation → Bool
is_reserved (put_transaction _) = true
is_reserved (put_replica_metadata m) = is_some (strip_prefix (chars "dtg.") (chars m.name))
is_reserved _ = false

unfoldable pub validate_single_shard_mutations : List LogicalMutation → Result ShardError (Unit {0})
validate_single_shard_mutations mutations =
    refuse (any is_reserved mutations)
      "generic single-Shard commits cannot write transactions or reserved dtg metadata"

abbrev pub is_not_graph : LogicalMutation → Bool
is_not_graph (put_transaction _) = true
is_not_graph (put_replica_metadata _) = true
is_not_graph _ = false

-- `none` is where the code panics as unreachable.
abbrev pub mutation_transaction_time : LogicalMutation → Option ℕ
mutation_transaction_time (put_vertex v) = some v.transaction_time
mutation_transaction_time (delete_vertex t) = some t.transaction_time
mutation_transaction_time (put_edge e) = some e.transaction_time
mutation_transaction_time (delete_edge t) = some t.transaction_time
mutation_transaction_time (put_transaction _) = none
mutation_transaction_time (put_replica_metadata _) = none

abbrev pub first_time : List LogicalMutation → Option ℕ
first_time [] = none
first_time (m ∷ _) = mutation_transaction_time m

abbrev pub same_number : Option ℕ → Option ℕ → Bool
same_number (some a) (some b) = a == b
same_number _ _ = false

unfoldable pub validate_intent_mutations : List LogicalMutation → Result ShardError (Unit {0})
validate_intent_mutations mutations = do
  refuse (is_nil mutations || ltb max_intent_items (length mutations))
      "transaction intent mutation count is outside the supported bounds"
  refuse (any is_not_graph mutations) "transaction intent may contain only graph mutations"
  refuse
      (any (λ m. not (same_number (mutation_transaction_time m) (first_time mutations)))
        (drop 1 mutations))
      "transaction intent mutations must share one transaction time"

abbrev pub is_late : Option ℕ → ℕ → Bool
is_late none start = false
is_late (some time) start = ltb start time

unfoldable pub validate_commit_follows_start :
    ℕ → List LogicalMutation → String → Result ShardError (Unit {0})
validate_commit_follows_start start mutations message =
    refuse (not (is_late (first_time mutations) start)) message

pub record CommitSingleShard : Type 0 where
  pub header : CommandHeader
  pub mutations : List LogicalMutation

-- `CommitSingleShard::new`
unfoldable pub new_commit : ℕ → ℕ → ℕ → List LogicalMutation → Result ShardError CommitSingleShard
new_commit command_id epoch generation mutations = do
  refuse (is_nil mutations) "single-Shard commit must contain mutations"
  validate_single_shard_mutations mutations
  header ← new_header command_id epoch generation
  ok (record { header = header; mutations = mutations })

pub record CommitSingleShardTransaction : Type 0 where
  pub header : CommandHeader
  pub transaction_id : ℕ
  pub start_time : ℕ
  pub snapshot_applied_index : ℕ
  pub request_digest : ℕ
  pub mutations : List LogicalMutation

-- `CommitSingleShardTransaction::validate`
unfoldable pub validate_commit : CommitSingleShardTransaction → Result ShardError (Unit {0})
validate_commit c = do
  validate_intent_mutations c.mutations
  validate_commit_follows_start c.start_time c.mutations
      "single-Shard transaction commit time must follow its start time"

-- `CommitSingleShardTransaction::new`
unfoldable pub new_commit_transaction :
    ℕ
    → ℕ
    → ℕ
    → ℕ
    → ℕ
    → ℕ
    → ℕ
    → List LogicalMutation
    → Result ShardError CommitSingleShardTransaction
new_commit_transaction command_id epoch generation transaction_id start_time index digest
      mutations =
    do
      header ← new_header command_id epoch generation
      let command : CommitSingleShardTransaction = record {
        header = header;
        transaction_id = transaction_id;
        start_time = start_time;
        snapshot_applied_index = index;
        request_digest = digest;
        mutations = mutations;
      }
      validate_commit command
      ok command

pub record ParticipantIntent : Type 0 where
  pub transaction_id : ℕ
  pub shard_id : ℕ
  pub start_time : ℕ
  pub snapshot_applied_index : ℕ
  pub mutations : List LogicalMutation

abbrev pub intent_head : ParticipantIntent → Bytes
intent_head i =
    u64 i.snapshot_applied_index
      (i64 (pos i.start_time) (u64 i.shard_id (u128 i.transaction_id (u32 intent_version []))))

-- `ParticipantIntent::encode_current`
unfoldable pub encode_intent : ParticipantIntent → Result ShardError Bytes
encode_intent i = do
  validate_intent_mutations i.mutations
  written ← put_mutations i.mutations (intent_head i)
  encoded ← finish written
  refuse (ltb max_intent_bytes (length encoded)) "transaction intent exceeds maximum encoded size"
  ok encoded

-- `ParticipantIntent::new`
unfoldable pub new_intent : ParticipantIntent → Result ShardError ParticipantIntent
new_intent i = do validate_intent_mutations i.mutations; encoded ← encode_intent i; ok i

-- `ParticipantIntent::metadata`
unfoldable pub intent_metadata : ParticipantIntent → Result ShardError ReplicaMetadata
intent_metadata i = do
  encoded ← encode_intent i
  from_storage (new_replica_metadata intent_metadata_name (bytes encoded))

pub record PrewriteIntent : Type 0 where
  pub header : CommandHeader
  pub prepared_record : TransactionRecord
  pub intent : ParticipantIntent

pub record HomeDecisionParticipant : Type 0 where
  pub shard_id : ℕ
  pub placement_epoch : ℕ
  pub backend_generation : ℕ
  pub snapshot_applied_index : ℕ
  pub intent_digest : ℕ

-- `HomeDecisionParticipant::new`
unfoldable pub new_participant : HomeDecisionParticipant → Result ShardError HomeDecisionParticipant
new_participant p = do
  refuse (p.intent_digest == 0) "home decision participant digest must be nonzero"
  ok p

pub record HomeDecisionManifest : Type 0 where
  pub start_time : ℕ
  pub catalog_version : ℕ
  pub participants : List HomeDecisionParticipant

abbrev shard_before : HomeDecisionParticipant → HomeDecisionParticipant → Bool
shard_before p q = ltb p.shard_id q.shard_id

abbrev shard_ids : List HomeDecisionParticipant → Set ℕ → Set ℕ
shard_ids [] ids = ids
shard_ids (p ∷ ps) ids = shard_ids ps (insert p.shard_id tt ids)

-- `HomeDecisionManifest::new`
unfoldable pub new_manifest : HomeDecisionManifest → Result ShardError HomeDecisionManifest
new_manifest m =
    let participants : List HomeDecisionParticipant = sort_by shard_before m.participants in
    let unique : Set ℕ = shard_ids participants [] in
    do
      refuse
          (m.catalog_version == 0
            || (is_nil participants
                || (ltb max_intent_items (length participants)
                    || not (length unique == length participants))))
          "home decision manifest must contain unique durable participants"
      ok (record m { participants = participants })

abbrev pub commit_part : HomeDecisionParticipant → Bytes
commit_part p = to_be_bytes 8 p.shard_id ++ to_be_bytes 32 p.intent_digest

abbrev pub abort_part : HomeDecisionParticipant → Bytes
abort_part p = to_be_bytes 8 p.shard_id

pub record RecordHomeDecision : Type 0 where
  pub header : CommandHeader
  pub decision : TransactionRecord
  pub manifest : HomeDecisionManifest

pub record FinalizeParticipant : Type 0 where
  pub header : CommandHeader
  pub terminal : TransactionRecord
  pub intent : Option ParticipantIntent

pub record AdvanceClosedTimestamp : Type 0 where
  pub header : CommandHeader
  pub closed_timestamp : ℕ

-- `AdvanceClosedTimestamp::new`
unfoldable pub new_advance : ℕ → ℕ → ℕ → ℕ → Result ShardError AdvanceClosedTimestamp
new_advance command_id epoch generation time = do
  header ← new_header command_id epoch generation
  ok (record { header = header; closed_timestamp = time })

pub record InstallSnapshot : Type 0 where
  pub header : CommandHeader
  pub snapshot_id : ℕ
  pub content_digest : ℕ

-- `InstallSnapshot::new`
unfoldable pub new_install_snapshot : ℕ → ℕ → ℕ → ℕ → ℕ → Result ShardError InstallSnapshot
new_install_snapshot command_id epoch generation snapshot_id digest = do
  refuse (snapshot_id == 0 || digest == 0) "snapshot identity must be complete"
  header ← new_header command_id epoch generation
  ok (record { header = header; snapshot_id = snapshot_id; content_digest = digest })

pub data ShardCommand : Type 0 where
  commit_single_shard : CommitSingleShard → ShardCommand
  commit_transaction : CommitSingleShardTransaction → ShardCommand
  prewrite_intent : PrewriteIntent → ShardCommand
  record_home_decision : RecordHomeDecision → ShardCommand
  finalize_participant : FinalizeParticipant → ShardCommand
  advance_closed_timestamp : AdvanceClosedTimestamp → ShardCommand
  install_snapshot : InstallSnapshot → ShardCommand
  migration : MigrationCommand → ShardCommand

abbrev pub header_of : ShardCommand → CommandHeader
header_of (commit_single_shard c) = c.header
header_of (commit_transaction c) = c.header
header_of (prewrite_intent c) = c.header
header_of (record_home_decision c) = c.header
header_of (finalize_participant c) = c.header
header_of (advance_closed_timestamp c) = c.header
header_of (install_snapshot c) = c.header
header_of (migration c) = c.header
