-- ===== src/Shard/Machine/Apply.antt =====
-- `apply_committed` of crates/execution/dtg-shard/src/state_machine.rs and what it calls, the construction
-- of the state machine, and the stores that are staged for a migration.
use native.Mathlib.Decide.{ℕ_discrete}
use dtgproxy.Base.{
  ℕ, ◌+◌, ◌*◌, ◌^◌, Bool, true, false, not, ◌&&◌, ◌||◌, List, [], ◌∷◌, ◌++◌, length, take, drop,
  is_some, is_dec, ltb, leb, ◌==◌, if◌then◌else◌, Option, none, some, Result, ok, err, ok_or, ◌>>=◌,
  ◌>>◌,
}
use dtgproxy.Base.Bytes.{Bytes, to_be_bytes}
use dtgproxy.Base.Map.{Map, get, insert, remove, contains_key, nat_key}
use dtgproxy.Base.Strings.{text_key, String-discrete}
use dtgproxy.Storage.{ReplicaBinding, BindingRole, candidate, active, retiring}
use dtgproxy.Storage.Mutation.{
  bytes, string, map, LogicalMutation, put_replica_metadata, ReplicaMetadata, new_replica_metadata,
  command_id,
}
use dtgproxy.Storage.Replica.{new_batch, ApplyReceipt, ReplicaStateStore}
use dtgproxy.Txn.Participants.{LogicalMutation-discrete}
use dtgproxy.Shard.{
  ShardError, ApplyRejection, committed_rejection, invalid_command, binding_mismatch,
  invalid_lifecycle, from_storage,
}
use dtgproxy.Shard.Messages.{rejection_code}
use dtgproxy.Shard.Codec.Decoder.{fields_of}
use dtgproxy.Shard.Online.{MigrationCommand}
use dtgproxy.Shard.Command.{
  ParticipantIntent, header_of, same_number, ShardCommand, commit_transaction, prewrite_intent,
  record_home_decision, finalize_participant, advance_closed_timestamp, migration,
}
use dtgproxy.Shard.Command.Checks.{digest_of, command_mutations}
use dtgproxy.Shard.Durable.{
  corrupt, corrupt_if, is_intent, DurableTransactionState, matches_finalize,
  decode_active_intents_metadata, single_shard_transaction_metadata,
}
use dtgproxy.Shard.Durable.States.{
  transaction_state_metadata, decode_transaction_state_metadata, active_intents_metadata,
  home_decision_metadata,
}
use dtgproxy.Shard.History.{mutations_at_index}
use dtgproxy.Shard.Machine.{
  ShardStateMachine, IntentTransition, no_transition, replay_intent, prepare_intent,
  finalize_intent, cuts_over, rebuild_active_intents, load_closed_timestamp, validate_command,
  accept, durable_transaction_state,
}

pub ReplicaBinding-discrete : Discrete ReplicaBinding
ReplicaBinding-discrete = hlevel (ℕ_discrete, String-discrete)

pub record ApplyOutcome : Type 0 where
  pub digest : ℕ
  pub outcome_index : ℕ
  pub was_replayed : Bool
  pub rejection : Option ApplyRejection
  pub active_binding : ReplicaBinding

abbrev pub outcome : ApplyReceipt → Bool → Option ApplyRejection → ReplicaBinding → ApplyOutcome
outcome receipt replayed rejection binding = record {
  digest = receipt.mutation_digest;
  outcome_index = receipt.raft_index;
  was_replayed = replayed;
  rejection = rejection;
  active_binding = binding;
}

abbrev pub larger : ℕ → ℕ → ℕ
larger a b = if ltb a b then b else a

-- The active intents after a transition.
unfoldable pub after_transition :
    Map ℕ ParticipantIntent → IntentTransition → Map ℕ ParticipantIntent
after_transition intents no_transition = intents
after_transition intents replay_intent = intents
after_transition intents (prepare_intent i) = insert i.transaction_id i intents
after_transition intents (finalize_intent id i) = remove id intents

abbrev pub is_replay : IntentTransition → Bool
is_replay replay_intent = true
is_replay _ = false

abbrev pub next_closed : Option ℕ → ShardCommand → Option ℕ
next_closed closed (advance_closed_timestamp c) = some c.closed_timestamp
next_closed closed _ = closed

abbrev pub replays_old : ShardCommand → Bool
replays_old (prewrite_intent _) = true
replays_old (finalize_participant _) = true
replays_old _ = false

abbrev same_mutations : List LogicalMutation → List LogicalMutation → Bool
same_mutations [] [] = true
same_mutations (m ∷ ms) (k ∷ ks) = is_dec (LogicalMutation-discrete m k) && same_mutations ms ks
same_mutations _ _ = false

abbrev same_binding_but : ReplicaBinding → ReplicaBinding → Bool
same_binding_but a b =
    a.cluster_id == b.cluster_id
    && (a.graph_id == b.graph_id && (a.shard_id == b.shard_id && a.replica_id == b.replica_id))

abbrev is_active : BindingRole → Bool
is_active active = true
is_active candidate = false
is_active retiring = false

module _ {S View : Type 0} (store : ReplicaStateStore S View)
    (digest_mutations : List LogicalMutation → ℕ) (blake3 : Bytes → ℕ) where
  abbrev Stepped : Type 0
  Stepped = Result ShardError (ApplyOutcome × ShardStateMachine S)

  -- `ShardStateMachine::new`
  unfoldable pub new_machine : ReplicaBinding → S → Result ShardError (ShardStateMachine S)
  new_machine binding s = do
    if is_dec (ReplicaBinding-discrete (store.binding_of s) binding)
        then ok tt
        else err binding_mismatch
    applied ← from_storage (store.stored_index s)
    intents ← rebuild_active_intents store blake3 binding s applied
    closed ← load_closed_timestamp store blake3 s
    ok (record {
      binding = binding;
      state_store = s;
      applied_index = applied;
      closed_timestamp = closed;
      active_intents = intents;
      migration_stores = [];
    })

  unfoldable pub may_stage : ShardStateMachine S → S → Result ShardError (Unit {0})
  may_stage m s =
      let b : ReplicaBinding = store.binding_of s in
      do
        if not (is_active b.role)
              || (not (same_binding_but b m.binding)
                  || leb b.backend_generation m.binding.backend_generation)
            then err binding_mismatch
            else ok tt
        applied ← from_storage (store.stored_index s)
        if applied == m.applied_index then ok tt else err binding_mismatch

  -- `stage_migration_state_store`: the store replaces one of its generation before the error.
  unfoldable pub stage_migration_store :
      ShardStateMachine S → S → Result ShardError (Unit {0}) × ShardStateMachine S
  stage_migration_store m s = elim (may_stage m s) [
    | err e ↦ (err e, m)
    | ok _ ↦ (
      if contains_key (store.binding_of s).backend_generation m.migration_stores
          then err (invalid_lifecycle "migration state store generation is already staged")
          else ok tt,
      record m {
        migration_stores = insert (store.binding_of s).backend_generation s m.migration_stores;
      },
    )
  ]

  -- A batch is made and applied to a store.
  unfoldable pub submit :
      S → ReplicaBinding → ℕ → ℕ → ℕ → List LogicalMutation → Result ShardError (ApplyReceipt × S)
  submit s binding term index command mutations = do
    batch ← from_storage (new_batch digest_mutations binding term index command mutations)
    from_storage (store.apply_batch s batch)

  -- What follows a batch that changes no more of the state than its store and its index.
  abbrev settle :
      ShardStateMachine S
      → ApplyReceipt × S
      → Option ApplyRejection
      → ApplyOutcome × ShardStateMachine S
  settle m (receipt, s) rejection = (
    outcome receipt receipt.replayed rejection m.binding,
    record m { state_store = s; applied_index = larger m.applied_index receipt.raft_index },
  )

  unfoldable pub apply_raft_noop : ShardStateMachine S → ℕ → ℕ → Stepped
  apply_raft_noop m term index = do
    command ← from_storage (command_id (term * 2 ^ 64 + index))
    metadata ← from_storage (new_replica_metadata "dtg.raft_noop" (bytes (to_be_bytes 8 index)))
    done ← submit m.state_store m.binding term index command (put_replica_metadata metadata ∷ [])
    ok (settle m done none)

  unfoldable pub rejection_metadata : ℕ → ApplyRejection → Result ShardError ReplicaMetadata
  rejection_metadata command rejection = from_storage (
      new_replica_metadata "dtg.raft_rejection" (
        map (
          fields_of (
            insert "reason" (string (rejection_code rejection))
              (insert "command_id" (bytes (to_be_bytes 16 command)) [])))))

  unfoldable pub apply_rejected : ShardStateMachine S → ℕ → ℕ → ℕ → ApplyRejection → Stepped
  apply_rejected m term index command rejection = do
    metadata ← rejection_metadata command rejection
    done ← submit m.state_store m.binding term index command (put_replica_metadata metadata ∷ [])
    ok (settle m done (some rejection))

  unfoldable pub rejects : ShardStateMachine S → ℕ → ℕ → ℕ → ShardError → Stepped
  rejects m term index command e = elim (committed_rejection e) [
    | some rejection ↦ apply_rejected m term index command rejection
    | none ↦ err e
  ]

  abbrev replayed_state : Option DurableTransactionState → Result ShardError DurableTransactionState
  replayed_state none = corrupt "participant finalization replay lost its durable transaction state"
  replayed_state (some s) = ok s

  -- The mutations that are written beside those of the command.
  unfoldable pub extra_mutations :
      ShardStateMachine S
      → ShardCommand
      → IntentTransition
      → Map ℕ ParticipantIntent
      → Result ShardError (List LogicalMutation)
  extra_mutations m (record_home_decision c) t next = do
    decision ← home_decision_metadata blake3 c
    ok (put_replica_metadata decision ∷ [])
  extra_mutations m (commit_transaction c) t next = do
    receipt ← single_shard_transaction_metadata c
    ok (put_replica_metadata receipt ∷ [])
  extra_mutations m (prewrite_intent c) (prepare_intent i) next = do
    state ← transaction_state_metadata blake3 i none
    index ← active_intents_metadata blake3 next
    ok (put_replica_metadata state ∷ put_replica_metadata index ∷ [])
  extra_mutations m (prewrite_intent c) replay_intent next = do
    state ← transaction_state_metadata blake3 c.intent none
    index ← active_intents_metadata blake3 next
    ok (put_replica_metadata state ∷ put_replica_metadata index ∷ [])
  extra_mutations m (finalize_participant c) (finalize_intent id i) next = do
    state ← transaction_state_metadata blake3 i (some c.terminal)
    index ← active_intents_metadata blake3 next
    ok (put_replica_metadata state ∷ put_replica_metadata index ∷ [])
  extra_mutations m (finalize_participant c) replay_intent next = do
    found ← durable_transaction_state store blake3 m c.terminal.id
    s ← replayed_state found
    state ← transaction_state_metadata blake3 s.intent s.terminal
    index ← active_intents_metadata blake3 next
    ok (put_replica_metadata state ∷ put_replica_metadata index ∷ [])
  extra_mutations m _ t next = ok []

  unfoldable pub own_mutations :
      ShardStateMachine S
      → ℕ
      → ShardCommand
      → IntentTransition
      → Result ShardError (List LogicalMutation)
  own_mutations m index c t =
      if ltb m.applied_index index && is_replay t then ok [] else command_mutations blake3 c

  -- The part of `apply_committed` after a command was accepted.
  unfoldable pub apply_accepted :
      ShardStateMachine S → ℕ → ℕ → ShardCommand → IntentTransition → Stepped
  apply_accepted m term index c t =
      let logical_replay : Bool = ltb m.applied_index index && is_replay t in
      let next_intents : Map ℕ ParticipantIntent = after_transition m.active_intents t in
      do
        mutations ← own_mutations m index c t
        extra ← extra_mutations m c t next_intents
        done ←
            submit m.state_store m.binding term index (header_of c).command_id (mutations ++ extra)
        ok (
          outcome done.0 (done.0.replayed || logical_replay) none m.binding,
          record m {
            state_store = done.1;
            applied_index = larger m.applied_index done.0.raft_index;
            closed_timestamp = next_closed m.closed_timestamp c;
            active_intents = if done.0.replayed then m.active_intents else next_intents;
          },
        )

  abbrev two_metadata : List LogicalMutation → Result ShardError (ReplicaMetadata × ReplicaMetadata)
  two_metadata (put_replica_metadata a ∷ put_replica_metadata b ∷ []) = ok (a, b)
  two_metadata (put_replica_metadata a ∷ _) =
      corrupt "old-index transaction batch lacks the active transaction index"
  two_metadata _ = corrupt "old-index transaction batch lacks durable transaction state"

  abbrev historical : ShardCommand → DurableTransactionState → Map ℕ ℕ → Bool
  historical (prewrite_intent c) s indexed =
      is_intent (some s.intent) c.intent
      && (not (is_some s.terminal)
          && (is_some (get c.intent.transaction_id indexed)
              && same_number (get c.intent.transaction_id indexed) (digest_of blake3 c.intent)))
  historical (finalize_participant c) s indexed =
      matches_finalize s c && not (contains_key c.terminal.id indexed)
  historical _ s indexed = false

  unfoldable pub validate_historical_transaction_batch :
      ShardCommand → List LogicalMutation → Result ShardError (Unit {0})
  validate_historical_transaction_batch c found = do
    mutations ← command_mutations blake3 c
    corrupt_if
        (not (length found == length mutations + 2)
          || not (same_mutations (take (length mutations) found) mutations))
        "old-index transaction batch contradicts the replayed command"
    both ← two_metadata (drop (length mutations) found)
    s ← decode_transaction_state_metadata blake3 both.0
    indexed ← decode_active_intents_metadata both.1
    corrupt_if (not (historical c s indexed))
        "old-index transaction metadata contradicts the replayed command"

  unfoldable pub replay_old_transaction_command :
      ShardStateMachine S → ℕ → ℕ → ShardCommand → Stepped
  replay_old_transaction_command m term index c = do
    found ← mutations_at_index store m.binding m.state_store m.applied_index index
    validate_historical_transaction_batch c found
    done ← submit m.state_store m.binding term index (header_of c).command_id found
    corrupt_if (not done.0.replayed) "old-index transaction replay unexpectedly applied a new batch"
    ok (outcome done.0 true none m.binding, record m { state_store = done.1 })

  unfoldable pub apply_migration_cutover : ShardStateMachine S → ℕ → ℕ → MigrationCommand → Stepped
  apply_migration_cutover m term index c = do
    context ← ok_or c.online (invalid_command "migration cutover lacks a target")
    target ←
        ok_or (get context.target_generation m.migration_stores)
          (invalid_lifecycle "migration cutover target state store is not staged")
    let b : ReplicaBinding = store.binding_of target
    if not (b.placement_epoch == c.header.placement_epoch)
          || (not (b.backend_generation == context.target_generation)
              || (not (b.backend_class_digest == context.target_backend_class_digest)
                  || not (context.verified_index == m.applied_index)))
        then err binding_mismatch
        else ok tt
    mutations ← command_mutations blake3 (migration c)
    done ← submit target b term index c.header.command_id mutations
    intents ← rebuild_active_intents store blake3 b done.1 done.0.raft_index
    ok (
      outcome done.0 done.0.replayed none b,
      record m {
        binding = b;
        state_store = done.1;
        applied_index = done.0.raft_index;
        active_intents = intents;
        migration_stores = remove context.target_generation m.migration_stores;
      },
    )

  abbrev pub cutover_or : ShardStateMachine S → ℕ → ℕ → ShardCommand → Stepped → Stepped
  cutover_or m term index (migration c) other =
      if cuts_over m.binding (migration c) then apply_migration_cutover m term index c else other
  cutover_or m term index _ other = other

  unfoldable pub accepted_or_rejected :
      ShardStateMachine S → ℕ → ℕ → ShardCommand → Result ShardError IntentTransition → Stepped
  accepted_or_rejected m term index c (ok t) = apply_accepted m term index c t
  accepted_or_rejected m term index c (err e) = rejects m term index (header_of c).command_id e

  -- A command that passed `validate_command`.
  unfoldable pub apply_valid : ShardStateMachine S → ℕ → ℕ → ShardCommand → Stepped
  apply_valid m term index c = cutover_or m term index c (
      if ltb index m.applied_index && replays_old c
      then replay_old_transaction_command m term index c
      else accepted_or_rejected m term index c (accept store blake3 m c))

  unfoldable pub apply_committed : ShardStateMachine S → ℕ → ℕ → ShardCommand → Stepped
  apply_committed m term index c = elim (validate_command store blake3 m c) [
    | ok _ ↦ apply_valid m term index c
    | err e ↦ rejects m term index (header_of c).command_id e
  ]
