-- ===== src/Shard/Machine/Examples.antt =====
-- Runs of the state machine of a shard over a store in memory.
use dtgproxy.Shard.Command.{CommitSingleShardTransaction, commit_transaction}
use dtgproxy.Shard.Command.{
  validate_single_shard_mutations, validate_commit, validate_commit_follows_start,
}
use dtgproxy.Shard.Machine.{single_shard_transaction_is_durable}
use dtgproxy.Shard.Durable.{single_shard_transaction_metadata}
use dtgproxy.Shard.Machine.Batch.{Entry, join_batch, may_join, batch_of}
use dtgproxy.Shard.Machine.Group.{indices, batches_conflict, joined_batches}
use dtgproxy.Storage.Mutation.{null}
use dtgproxy.Shard.Durable.{decode_active_intents_metadata}
use dtgproxy.Shard.Durable.States.{digest_number}
use dtgproxy.Shard.Durable.Index.{digests, decode_active_intents_metadata-digests}
use dtgproxy.Shard.History.{graph_mutation_time}
use dtgproxy.Shard.Machine.Safety.{NotAfter, IsBelow}
use dtgproxy.Base.{
  All, Option, any_pair, ℕ, ◌≡◌, ◌⊎◌, refl, inl, inr, arith, true, false, String, List, [], ◌∷◌,
  leb, pos, negsuc, some, none, Result, ok, err, ==_iff, sym, Bool-cases, subst, ◌∙◌,
}
use dtgproxy.Base.Bytes.{Bytes, to_be_bytes}
use dtgproxy.Base.Map.{Map, get, insert, nat_key}
use dtgproxy.Base.Strings.{text_key}
use dtgproxy.Base.Utf8.{as_bytes, utf8_of}
use dtgproxy.Kernel.{overlaps}
use dtgproxy.Storage.{ReplicaBinding, active, fjall}
use dtgproxy.Storage.Mutation.{
  LogicalMutation, put_vertex, put_replica_metadata, ReplicaMetadata, new_replica_metadata,
  prepared,
}
use dtgproxy.Storage.Replica.{
  CommittedShardBatch, ApplyReceipt, ReplicaStateStore, new_batch, new_changes_read, ChangeRecord,
}
use dtgproxy.Txn.Conflict.{extents_overlap}
use dtgproxy.Shard.{ShardError, committed_rejection, stale_epoch, stale_generation}
use dtgproxy.Shard.Messages.{rejection_code}
use dtgproxy.Shard.Codec.{consume}
use dtgproxy.Shard.Codec.Encoder.{
  put_mutations, put_each, put_mutation, put_properties, put_entries, put_value, put_count,
  put_bytes, finish, pattern64,
}
use dtgproxy.Shard.Command.{
  ShardCommand, prewrite_intent, advance_closed_timestamp, ParticipantIntent, encode_intent,
  validate_intent_mutations, intent_metadata,
}
use dtgproxy.Shard.Command.Checks.{validate_prewrite, digest_of, command_mutations}
use dtgproxy.Shard.Durable.{hex}
use dtgproxy.Shard.Durable.States.{transaction_state_metadata, active_intents_metadata}
use dtgproxy.Shard.History.{mutations_conflict, for_each_change, visit_pages, visit_rows}
use dtgproxy.Shard.Machine.{
  ShardStateMachine, validate_command, advance_allowed, is_fenced, conflicts_active,
  validate_write_conflicts, durable_transaction_state, may_prewrite, accept,
}
use dtgproxy.Shard.Machine.Apply.{
  ApplyOutcome, after_transition, submit, rejection_metadata, apply_rejected, rejects,
  extra_mutations, own_mutations, apply_accepted, accepted_or_rejected, apply_valid,
  apply_committed,
}
use dtgproxy.Shard.Machine.Intents.{Kept}
use dtgproxy.Shard.Machine.Safety.{
  IsDisjoint, apply_committed-IsDisjoint, stale_command_fenced, closed_timestamp_advances,
}

record MemoryStore : Type 0 where
  bound : ReplicaBinding
  index : ℕ
  metadata : Map String ReplicaMetadata
  history : List ChangeRecord

abbrev keep_metadata :
    List LogicalMutation → Map String ReplicaMetadata → Map String ReplicaMetadata
keep_metadata [] found = found
keep_metadata (put_replica_metadata m ∷ ms) found = keep_metadata ms (insert m.name m found)
keep_metadata (_ ∷ ms) found = keep_metadata ms found

abbrev take_batch : MemoryStore → CommittedShardBatch → ApplyReceipt × MemoryStore
take_batch s batch = (
  record {
    binding = batch.binding;
    raft_term = batch.raft_term;
    raft_index = batch.raft_index;
    command_id = batch.command_id;
    mutation_digest = batch.mutation_digest;
    replayed = leb batch.raft_index s.index;
  },
  record s { index = batch.raft_index; metadata = keep_metadata batch.mutations s.metadata },
)

abbrev each_batch : List CommittedShardBatch → MemoryStore → List ApplyReceipt × MemoryStore
each_batch [] s = ([], s)
each_batch (batch ∷ rest) s =
    let (receipt, s') = take_batch s batch in
    let (receipts, s'') = each_batch rest s' in (receipt ∷ receipts, s'')

abbrev memory : ReplicaStateStore MemoryStore MemoryStore
memory = record {
  binding_of = λ s. s.bound;
  stored_index = λ s. ok s.index;
  replica_metadata = λ s name. ok (get name s.metadata);
  apply_batch = λ s batch. ok (take_batch s batch);
  supports_atomic_batch_apply = λ s. true;
  apply_batches = λ s batches. ok (each_batch batches s);
  begin_read_view = λ s binding index. ok s;
  changes = λ s request. ok (record { rows = []; next_after = none });
}

abbrev hash : Bytes → ℕ
hash content = 77

abbrev digest : List LogicalMutation → ℕ
digest mutations = 5

abbrev bound : ReplicaBinding
bound = record {
  cluster_id = 1;
  graph_id = 2;
  shard_id = 4;
  placement_epoch = 2;
  replica_id = 6;
  backend_generation = 3;
  backend_class_digest = 7;
  provider_kind = fjall;
  contract_version = 1;
  layout_version = 1;
  capability_digest = 8;
  namespace_id = "n";
  endpoint_profile_ref = "e";
  credential_ref = "c";
  role = active;
}

abbrev vertex_at : ℕ → LogicalMutation
vertex_at id = put_vertex (record {
  id = id;
  version = 2;
  valid_time = record { start = negsuc 3; end = pos 9 };
  transaction_time = 40;
  properties = [];
})

abbrev intent_of : ℕ → ℕ → ParticipantIntent
intent_of transaction_id id = record {
  transaction_id = transaction_id;
  shard_id = 4;
  start_time = 30;
  snapshot_applied_index = 12;
  mutations = vertex_at id ∷ [];
}

abbrev machine : ShardStateMachine MemoryStore
machine = record {
  binding = bound;
  state_store = record { bound = bound; index = 12; metadata = []; history = [] };
  applied_index = 12;
  closed_timestamp = some 10;
  active_intents = (8, intent_of 8 50) ∷ [];
  migration_stores = [];
}

abbrev prewrite : ℕ → ShardCommand
prewrite epoch = prewrite_intent (record {
  header = record { command_id = 1; placement_epoch = epoch; backend_generation = 3 };
  prepared_record = record { id = 9; state = prepared; transaction_time = 30; record_digest = 77 };
  intent = intent_of 9 51;
})

abbrev advance : ShardCommand
advance = advance_closed_timestamp (record {
  header = record { command_id = 1; placement_epoch = 2; backend_generation = 3 };
  closed_timestamp = 25;
})

abbrev run : ShardCommand → Result ShardError (ApplyOutcome × ShardStateMachine MemoryStore)
run c = apply_committed memory digest hash machine 1 13 c

abbrev blank : ApplyOutcome
blank = record {
  digest = 0;
  outcome_index = 0;
  was_replayed = false;
  rejection = none;
  active_binding = bound;
}

abbrev end_of :
    Result ShardError (ApplyOutcome × ShardStateMachine MemoryStore)
    → ApplyOutcome × ShardStateMachine MemoryStore
end_of (ok x) = x
end_of (err _) = (blank, machine)

prewritten : run (prewrite 2) ≡ ok ((end_of (run (prewrite 2))).0, (end_of (run (prewrite 2))).1)
unfolding apply_committed apply_valid accepted_or_rejected accept may_prewrite
    durable_transaction_state validate_write_conflicts conflicts_active mutations_conflict
    for_each_change visit_pages visit_rows new_changes_read apply_accepted own_mutations
    extra_mutations after_transition submit new_batch transaction_state_metadata
    active_intents_metadata new_replica_metadata validate_command advance_allowed is_fenced
    command_mutations validate_prewrite digest_of intent_metadata encode_intent
    validate_intent_mutations put_mutations put_each put_mutation put_properties put_entries
    put_value put_count put_bytes finish pattern64 consume to_be_bytes as_bytes utf8_of hex get
    insert extents_overlap overlaps
prewritten = refl

only :
    (k : ℕ) (i : ParticipantIntent)
    → get k machine.active_intents ≡ some i
    → (8 ≡ k) × (intent_of 8 50 ≡ i)
unfolding get
only k i there = elim (Bool-cases (nat_key.same 8 k)) [
  | inl hit ↦ ((==_iff 8 k).0 hit, ground arith)
  | inr miss ↦ absurd (ground arith)
]

machine-IsDisjoint : IsDisjoint machine.active_intents
machine-IsDisjoint = record {
  keyed = λ k i there. subst (λ x. x.transaction_id ≡ k) (only k i there).1 (only k i there).0;
  apart =
      λ j k a b there other differs. absurd (differs (sym (only j a there).0 ∙ (only k b other).0));
}

IsDisjoint_example : IsDisjoint (end_of (run (prewrite 2))).1.active_intents
IsDisjoint_example =
    apply_committed-IsDisjoint memory digest hash machine 1 13 (prewrite 2)
      (end_of (run (prewrite 2))).0 (end_of (run (prewrite 2))).1 machine-IsDisjoint refl prewritten

refused : run (prewrite 9) ≡ ok ((end_of (run (prewrite 9))).0, (end_of (run (prewrite 9))).1)
unfolding apply_committed rejects apply_rejected rejection_metadata rejection_code
    committed_rejection submit new_batch new_replica_metadata validate_command get insert
    to_be_bytes utf8_of as_bytes
refused = refl

stale_example :
    Kept memory digest hash machine (end_of (run (prewrite 9))).1
    × (((end_of (run (prewrite 9))).0.rejection ≡ some stale_epoch)
        ⊎ ((end_of (run (prewrite 9))).0.rejection ≡ some stale_generation))
stale_example =
    stale_command_fenced memory digest hash machine 1 13 (prewrite 9) (end_of (run (prewrite 9))).0
      (end_of (run (prewrite 9))).1 refl (inl (λ e. omega arith)) refused

advanced : run advance ≡ ok ((end_of (run advance)).0, (end_of (run advance)).1)
unfolding apply_committed apply_valid accepted_or_rejected accept apply_accepted own_mutations
    extra_mutations after_transition submit new_batch new_replica_metadata validate_command
    advance_allowed is_fenced command_mutations get insert
advanced = refl

closed_example :
    ((end_of (run advance)).1.closed_timestamp ≡ some 10)
    ⊎ ((t' : ℕ) × ((end_of (run advance)).1.closed_timestamp ≡ some t')
        × NotAfter (some 10) t'
        × All
            (λ e. All (λ w. IsBelow t' (graph_mutation_time w)) e.1.mutations)
            machine.active_intents)
closed_example =
    closed_timestamp_advances memory digest hash machine 1 13 advance (end_of (run advance)).0
      (end_of (run advance)).1 refl advanced

abbrev commit_of : ℕ → CommitSingleShardTransaction
commit_of id = record {
  header = record { command_id = 1; placement_epoch = 2; backend_generation = 3 };
  transaction_id = id;
  start_time = 30;
  snapshot_applied_index = 12;
  request_digest = 6;
  mutations = vertex_at id ∷ [];
}

abbrev entries : List Entry
entries =
    record { entry_term = 1; entry_index = 13; command = commit_transaction (commit_of 60) }
    ∷ record { entry_term = 1; entry_index = 14; command = commit_transaction (commit_of 61) }
    ∷ []

abbrev batches_of : Result ShardError (Option (List CommittedShardBatch)) → List CommittedShardBatch
batches_of (ok (some batches)) = batches
batches_of _ = []

abbrev together : Result ShardError (Option (List CommittedShardBatch))
together = join_batch memory digest hash machine 13 [] [] entries

two_together : together ≡ ok (some (batches_of together))
unfolding join_batch may_join batch_of validate_command command_mutations validate_commit
    validate_single_shard_mutations validate_commit_follows_start validate_intent_mutations
    advance_allowed accept single_shard_transaction_is_durable single_shard_transaction_metadata
    validate_write_conflicts conflicts_active mutations_conflict for_each_change visit_pages
    visit_rows new_changes_read new_batch new_replica_metadata to_be_bytes as_bytes utf8_of hex get
    insert extents_overlap overlaps
two_together = refl

joined_example :
    (indices (batches_of together) ≡ 13 ∷ 14 ∷ [])
    × (any_pair batches_conflict (batches_of together) ≡ false)
joined_example =
    joined_batches memory digest hash machine entries (batches_of together) (omega arith)
      two_together

own_digest : digest_number hash (intent_of 8 50) ≡ 77
unfolding digest_of encode_intent validate_intent_mutations put_mutations put_each put_mutation
    put_properties put_entries put_value put_count put_bytes finish pattern64 to_be_bytes as_bytes
    utf8_of consume
own_digest = refl

abbrev kept_index : Result ShardError ReplicaMetadata
kept_index = active_intents_metadata hash machine.active_intents

abbrev metadata_of : Result ShardError ReplicaMetadata → ReplicaMetadata
metadata_of (ok m) = m
metadata_of (err _) = record { name = "none"; value = null }

index_kept : kept_index ≡ ok (metadata_of kept_index)
unfolding active_intents_metadata new_replica_metadata
index_kept = refl

index_example :
    decode_active_intents_metadata (metadata_of kept_index)
    ≡ ok (digests hash machine.active_intents)
index_example =
    decode_active_intents_metadata-digests hash machine.active_intents (metadata_of kept_index)
      (omega arith, omega arith, let own = own_digest in omega arith, tt) index_kept
