-- ===== src/Shard/Machine.antt =====
-- `ShardStateMachine` of crates/execution/dtg-shard/src/state_machine.rs: its state, what it checks of a
-- command before it applies it, and which change of its intents the command is. The store is an interface;
-- a step hands on the store that a batch leaves.
pub mod Apply
pub mod Batch
pub mod Group
pub mod Intents
pub mod Safety
mod Examples
use dtgproxy.Base.{
  ℕ, zero, suc, ◌+◌, Bool, true, false, not, ◌&&◌, ◌||◌, String, List, [], ◌∷◌, ◌++◌, length, any,
  is_nil, is_dec, ltb, leb, ◌==◌, if◌then◌else◌, Option, none, some, Result, ok, err, ◌>>=◌, ◌>>◌,
  u64_max, pos, negsuc,
}
use dtgproxy.Base.Map.{Map, get, insert, remove, nat_key}
use dtgproxy.Kernel.{transaction_time}
use dtgproxy.Storage.{StorageError, internal, ReplicaBinding, BindingRole, active}
use dtgproxy.Storage.Mutation.{
  Value, integer, LogicalMutation, ReplicaMetadata, put_transaction, put_replica_metadata,
}
use dtgproxy.Storage.Replica.{ChangeRecord, ReplicaStateStore}
use dtgproxy.Shard.{
  ShardError, ApplyRejection, binding_mismatch, invalid_lifecycle, stale_placement_epoch,
  stale_backend_generation, write_conflict, home_decision_conflict, storage, from_storage,
}
use dtgproxy.Shard.Codec.{refuse, fails}
use dtgproxy.Shard.Online.{CommandHeader, MigrationCommand, cuts_over_from}
use dtgproxy.Shard.Command.{
  max_intent_items, closed_timestamp_metadata_name, ParticipantIntent, CommitSingleShardTransaction,
  PrewriteIntent, FinalizeParticipant, RecordHomeDecision, AdvanceClosedTimestamp, header_of,
  same_number, ShardCommand, commit_single_shard, commit_transaction, prewrite_intent,
  record_home_decision, finalize_participant, advance_closed_timestamp, install_snapshot, migration,
}
use dtgproxy.Shard.Command.Checks.{digest_of, command_mutations}
use dtgproxy.Shard.Durable.{
  corrupt, corrupt_if, active_name, state_name, is_intent, ReplicaMetadata-discrete,
  DurableTransactionState, matches_finalize, decode_active_intents_metadata,
  single_shard_transaction_metadata, decode_single_shard_transaction_metadata,
}
use dtgproxy.Shard.Durable.States.{
  validate_intent_terminal, decode_transaction_state_metadata, home_decision_metadata,
  decode_home_decision_metadata,
}
use dtgproxy.Shard.History.{graph_mutation_time, mutations_conflict, for_each_change}
use dtgproxy.Base.Bytes.{Bytes}

pub record ShardStateMachine (S : Type 0) : Type 0 where
  pub binding : ReplicaBinding
  pub state_store : S
  pub applied_index : ℕ
  pub closed_timestamp : Option ℕ
  pub active_intents : Map ℕ ParticipantIntent
  pub migration_stores : Map ℕ S

pub data IntentTransition : Type 0 where
  no_transition replay_intent : IntentTransition
  prepare_intent : ParticipantIntent → IntentTransition
  finalize_intent : ℕ → ParticipantIntent → IntentTransition

abbrev carried_intent : ShardCommand → Option ParticipantIntent
carried_intent (prewrite_intent c) = some c.intent
carried_intent (finalize_participant c) = c.intent
carried_intent _ = none

abbrev snapshot_of_command : ShardCommand → Option ℕ
snapshot_of_command (commit_transaction c) = some c.snapshot_applied_index
snapshot_of_command (prewrite_intent c) = some c.intent.snapshot_applied_index
snapshot_of_command (finalize_participant c) = elim c.intent [
  | none ↦ none
  | some i ↦ some i.snapshot_applied_index
]
snapshot_of_command _ = none

abbrev pub cuts_over : ReplicaBinding → ShardCommand → Bool
cuts_over b (migration c) = cuts_over_from c b.placement_epoch b.backend_generation
cuts_over b _ = false

abbrev of_other_shard : ℕ → Option ParticipantIntent → Bool
of_other_shard shard none = false
of_other_shard shard (some i) = not (i.shard_id == shard)

abbrev is_ahead : ℕ → Option ℕ → Bool
is_ahead applied none = false
is_ahead applied (some snapshot) = ltb applied snapshot

abbrev pub goes_back : ℕ → Option ℕ → Bool
goes_back proposed none = false
goes_back proposed (some current) = ltb proposed current

abbrev pub is_reached : ℕ → Option ℕ → Bool
is_reached proposed none = false
is_reached proposed (some pending) = leb pending proposed

-- Some mutation of an active intent has a time that the proposed one reaches.
unfoldable pub is_fenced : ℕ → Map ℕ ParticipantIntent → Bool
is_fenced proposed intents =
    any (λ e. any (λ m. is_reached proposed (graph_mutation_time m)) e.1.mutations) intents

unfoldable pub advance_allowed :
    Option ℕ → Map ℕ ParticipantIntent → ShardCommand → Result ShardError (Unit {0})
advance_allowed closed intents (advance_closed_timestamp c) = do
  refuse (goes_back c.closed_timestamp closed) "closed timestamp cannot move backwards"
  refuse (is_fenced c.closed_timestamp intents)
      "closed timestamp is fenced by a pending prepared intent"
advance_allowed closed intents _ = ok tt

-- The conflicts with the active intents of other transactions.
unfoldable pub conflicts_active : ℕ → List LogicalMutation → Map ℕ ParticipantIntent → Bool
conflicts_active id candidate intents =
    any (λ e. not (e.1.transaction_id == id) && mutations_conflict candidate e.1.mutations) intents

abbrev is_newer : ℕ → Option ℕ → Bool
is_newer start none = false
is_newer start (some time) = ltb start time

-- The visit of `validate_write_conflicts`.
abbrev pub visit_change : ℕ → List LogicalMutation → ChangeRecord → Result ShardError (Unit {0})
visit_change start candidate row =
    if is_newer start (graph_mutation_time row.mutation)
      && mutations_conflict candidate (row.mutation ∷ [])
    then err write_conflict
    else ok tt

abbrev time_of_metadata : Option ReplicaMetadata → Result ShardError (Option ℕ)
time_of_metadata none = ok none
time_of_metadata (some m) = elim m.value [
  | integer (pos n) ↦ ok (some n)
  | integer (negsuc n) ↦
      err (storage (internal "closed timestamp metadata is outside the valid range"))
  | _ ↦ err (storage (internal "closed timestamp metadata has an invalid value"))
]

module _ {S View : Type 0} (store : ReplicaStateStore S View) (blake3 : Bytes → ℕ) where
  unfoldable pub load_closed_timestamp : S → Result ShardError (Option ℕ)
  load_closed_timestamp s = do
    found ← from_storage (store.replica_metadata s closed_timestamp_metadata_name)
    time_of_metadata found

  abbrev required : Option ReplicaMetadata → Result ShardError DurableTransactionState
  required none = corrupt "active transaction index references missing durable state"
  required (some m) = decode_transaction_state_metadata blake3 m

  abbrev is_terminal : DurableTransactionState → Bool
  is_terminal s = elim s.terminal [ none ↦ false | some _ ↦ true ]

  -- The loop of `rebuild_active_intents`.
  unfoldable pub rebuild :
      ReplicaBinding
      → S
      → ℕ
      → Map ℕ ℕ
      → Map ℕ ParticipantIntent
      → Result ShardError (Map ℕ ParticipantIntent)
  rebuild binding s applied_index [] found = ok found
  rebuild binding s applied_index ((id, digest) ∷ rest) found = do
    m ← from_storage (store.replica_metadata s (state_name id))
    state ← required m
    corrupt_if
        (is_terminal state
          || (not (state.intent.transaction_id == id)
              || (not (state.intent.shard_id == binding.shard_id)
                  || (ltb applied_index state.intent.snapshot_applied_index
                      || not (same_number (digest_of blake3 state.intent) (some digest))))))
        "active transaction index contradicts its durable Prepared state"
    rebuild binding s applied_index rest (insert id state.intent found)

  abbrev rebuild_from :
      ReplicaBinding → S → ℕ → Option ReplicaMetadata → Result ShardError (Map ℕ ParticipantIntent)
  rebuild_from binding s applied_index none = ok []
  rebuild_from binding s applied_index (some m) = do
    indexed ← decode_active_intents_metadata m
    rebuild binding s applied_index indexed []

  unfoldable pub rebuild_active_intents :
      ReplicaBinding → S → ℕ → Result ShardError (Map ℕ ParticipantIntent)
  rebuild_active_intents binding s applied_index = do
    m ← from_storage (store.replica_metadata s active_name)
    rebuild_from binding s applied_index m

  unfoldable pub validate_command :
      ShardStateMachine S → ShardCommand → Result ShardError (Unit {0})
  validate_command m c = do
    if not (cuts_over m.binding c)
          && not ((header_of c).placement_epoch == m.binding.placement_epoch)
        then err (stale_placement_epoch m.binding.placement_epoch (header_of c).placement_epoch)
        else ok tt
    if not (cuts_over m.binding c)
          && not ((header_of c).backend_generation == m.binding.backend_generation)
        then err
            (stale_backend_generation m.binding.backend_generation (header_of c).backend_generation)
        else ok tt
    refuse (of_other_shard m.binding.shard_id (carried_intent c))
        "transaction intent belongs to a different Shard"
    refuse (is_ahead m.applied_index (snapshot_of_command c))
        "transaction snapshot applied index is ahead of the Shard state machine"
    advance_allowed m.closed_timestamp m.active_intents c
    mutations ← command_mutations blake3 c
    ok tt

  unfoldable pub validate_write_conflicts :
      ShardStateMachine S → ℕ → ℕ → ℕ → List LogicalMutation → Result ShardError (Unit {0})
  validate_write_conflicts m id start index candidate = do
    if conflicts_active id candidate m.active_intents then err write_conflict else ok tt
    for_each_change store (visit_change start candidate) m.binding m.state_store m.applied_index
        (some (record { raft_index = index; mutation_ordinal = u64_max }))

  abbrev receipt_is : ReplicaMetadata → Option ReplicaMetadata → Result ShardError Bool
  receipt_is expected none = ok false
  receipt_is expected (some m) = do
    receipt ← decode_single_shard_transaction_metadata m
    if is_dec (ReplicaMetadata-discrete m expected)
        then ok true
        else corrupt "single-Shard transaction command has contradictory durable receipts"

  unfoldable pub single_shard_transaction_is_durable :
      ShardStateMachine S → CommitSingleShardTransaction → Result ShardError Bool
  single_shard_transaction_is_durable m c = do
    expected ← single_shard_transaction_metadata c
    found ← from_storage (store.replica_metadata m.state_store expected.name)
    receipt_is expected found

  abbrev decode_state : Option ReplicaMetadata → Result ShardError (Option DurableTransactionState)
  decode_state none = ok none
  decode_state (some m) = do s ← decode_transaction_state_metadata blake3 m; ok (some s)

  unfoldable pub durable_transaction_state :
      ShardStateMachine S → ℕ → Result ShardError (Option DurableTransactionState)
  durable_transaction_state m id = do
    found ← from_storage (store.replica_metadata m.state_store (state_name id))
    decode_state found

  abbrev decision_is : ReplicaMetadata → Option ReplicaMetadata → Result ShardError Bool
  decision_is expected none = ok false
  decision_is expected (some m) =
      if is_dec (ReplicaMetadata-discrete m expected)
      then ok true
      else (do other ← decode_home_decision_metadata blake3 m; err home_decision_conflict)

  unfoldable pub home_decision_is_durable :
      ShardStateMachine S → RecordHomeDecision → Result ShardError Bool
  home_decision_is_durable m c = do
    expected ← home_decision_metadata blake3 c
    found ← from_storage (store.replica_metadata m.state_store expected.name)
    decision_is expected found

  abbrev pub is_present : {A : Type 0} → Option A → Bool
  is_present none = false
  is_present (some _) = true

  unfoldable pub may_prewrite :
      ShardStateMachine S → ParticipantIntent → Result ShardError (Unit {0})
  may_prewrite m i = do
    refuse (length m.active_intents == max_intent_items)
        "active transaction intent count exceeds the supported bound"
    state ← durable_transaction_state m i.transaction_id
    corrupt_if (is_present state) "new prewrite contradicts existing durable transaction state"
    validate_write_conflicts m i.transaction_id i.start_time i.snapshot_applied_index i.mutations

  -- A prewrite of a transaction that has no active intent, and one of a transaction that has.
  abbrev pub accept_prewrite :
      ShardStateMachine S
      → ParticipantIntent
      → Option ParticipantIntent
      → Result ShardError IntentTransition
  accept_prewrite m i (some existing) =
      if is_intent (some existing) i
      then ok replay_intent
      else corrupt "one transaction has contradictory active participant intents"
  accept_prewrite m i none = do may_prewrite m i; ok (prepare_intent i)

  abbrev other_intent : Option ParticipantIntent → ParticipantIntent → Bool
  other_intent none i = false
  other_intent (some j) i = not (is_intent (some j) i)

  abbrev pub finalized :
      FinalizeParticipant → Option DurableTransactionState → Result ShardError IntentTransition
  finalized c none = corrupt "participant finalization has no durable Prepared intent"
  finalized c (some s) =
      if matches_finalize s c
      then ok replay_intent
      else corrupt "participant finalization contradicts durable terminal state"

  unfoldable pub may_finalize :
      FinalizeParticipant → ParticipantIntent → Result ShardError (Unit {0})
  may_finalize c i = do
    corrupt_if
        (not (same_number (digest_of blake3 i) (some c.terminal.record_digest))
          || other_intent c.intent i)
        "participant finalization contradicts the active durable intent"
    validate_intent_terminal blake3 i c.terminal

  abbrev pub accept_finalize :
      ShardStateMachine S
      → FinalizeParticipant
      → Option ParticipantIntent
      → Result ShardError IntentTransition
  accept_finalize m c (some i) = do may_finalize c i; ok (finalize_intent c.terminal.id i)
  accept_finalize m c none = do state ← durable_transaction_state m c.terminal.id; finalized c state

  -- `validate_transaction_acceptance`
  unfoldable pub accept : ShardStateMachine S → ShardCommand → Result ShardError IntentTransition
  accept m (commit_transaction c) = do
    durable ← single_shard_transaction_is_durable m c
    if durable then ok replay_intent else (do
      validate_write_conflicts m c.transaction_id c.start_time c.snapshot_applied_index c.mutations
      ok no_transition)
  accept m (commit_single_shard c) = ok no_transition
  accept m (prewrite_intent c) =
      accept_prewrite m c.intent (get c.intent.transaction_id m.active_intents)
  accept m (finalize_participant c) = accept_finalize m c (get c.terminal.id m.active_intents)
  accept m (record_home_decision c) = do
    durable ← home_decision_is_durable m c
    ok (if durable then replay_intent else no_transition)
  accept m (advance_closed_timestamp c) = ok no_transition
  accept m (install_snapshot c) = ok no_transition
  accept m (migration c) = ok no_transition
