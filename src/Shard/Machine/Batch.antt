-- ===== src/Shard/Machine/Batch.antt =====
-- `apply_committed_batch` of crates/execution/dtg-shard/src/state_machine.rs and what it calls.
use dtgproxy.Base.{
  ℕ, ◌+◌, Bool, true, false, not, ◌&&◌, ◌||◌, List, [], ◌∷◌, ◌++◌, length, any, ltb, ◌==◌,
  if◌then◌else◌, Option, none, some, Result, ok, err, ◌>>=◌, u64_max,
}
use dtgproxy.Base.Bytes.{Bytes}
use dtgproxy.Storage.Mutation.{LogicalMutation, put_replica_metadata}
use dtgproxy.Storage.Replica.{CommittedShardBatch, new_batch, ApplyReceipt, ReplicaStateStore}
use dtgproxy.Shard.{ShardError, invalid_raft_state, from_storage}
use dtgproxy.Shard.Command.{ShardCommand, CommitSingleShardTransaction, commit_transaction}
use dtgproxy.Shard.Durable.{single_shard_transaction_metadata}
use dtgproxy.Shard.History.{mutations_conflict}
use dtgproxy.Shard.Machine.{
  ShardStateMachine, IntentTransition, no_transition, validate_command, accept,
}
use dtgproxy.Shard.Machine.Apply.{ApplyOutcome, outcome, apply_committed}

-- An entry of the log: its term, its index and its command.
pub record Entry : Type 0 where
  pub entry_term : ℕ
  pub entry_index : ℕ
  pub command : ShardCommand

abbrev pub saturating_next : ℕ → ℕ
saturating_next n = if ltb n u64_max then n + 1 else u64_max

abbrev pub passes : {A : Type 0} → Result ShardError A → Bool
passes (ok _) = true
passes (err _) = false

abbrev pub is_plain : Result ShardError IntentTransition → Bool
is_plain (ok no_transition) = true
is_plain _ = false

abbrev pub transaction_of : ShardCommand → Option CommitSingleShardTransaction
transaction_of (commit_transaction c) = some c
transaction_of _ = none

abbrev last_index : ℕ → List ApplyReceipt → ℕ
last_index applied [] = applied
last_index applied (receipt ∷ receipts) = last_index receipt.raft_index receipts

abbrev outcomes : {S : Type 0} → ShardStateMachine S → List ApplyReceipt → List ApplyOutcome
outcomes m [] = []
outcomes m (receipt ∷ receipts) = outcome receipt false none m.binding ∷ outcomes m receipts

abbrev pub put_first :
    CommittedShardBatch → Option (List CommittedShardBatch) → Option (List CommittedShardBatch)
put_first batch none = none
put_first batch (some batches) = some (batch ∷ batches)

module _ {S View : Type 0} (store : ReplicaStateStore S View)
    (digest_mutations : List LogicalMutation → ℕ) (blake3 : Bytes → ℕ) where
  abbrev Batched : Type 0
  Batched = Result ShardError (List ApplyOutcome) × ShardStateMachine S

  -- Each entry in turn, up to the first error; what was applied before it stays applied.
  unfoldable pub apply_each : ShardStateMachine S → List Entry → Batched
  apply_each m [] = (ok [], m)
  apply_each m (e ∷ es) =
      elim (apply_committed store digest_mutations blake3 m e.entry_term e.entry_index e.command) [
        | err error ↦ (err error, m)
        | ok (o, m') ↦ let (rest, m'') = apply_each m' es in (rest >>= (λ os. ok (o ∷ os)), m'')
      ]

  -- The tests of one entry, after which it may be one of a batch.
  unfoldable pub may_join :
      ShardStateMachine S
      → Entry
      → CommitSingleShardTransaction
      → ℕ
      → List LogicalMutation
      → List ℕ
      → Bool
  may_join m e c expected prior ids =
      e.entry_index == expected
      && (not (e.entry_term == 0)
          && (not (any (λ id. id == c.transaction_id) ids)
              && (passes (validate_command store blake3 m e.command)
                  && (is_plain (accept store blake3 m e.command)
                      && not (mutations_conflict prior c.mutations)))))

  unfoldable pub batch_of :
      ShardStateMachine S
      → Entry
      → CommitSingleShardTransaction
      → Result ShardError CommittedShardBatch
  batch_of m e c = do
    metadata ← single_shard_transaction_metadata c
    from_storage (
        new_batch digest_mutations m.binding e.entry_term e.entry_index c.header.command_id
          (c.mutations ++ (put_replica_metadata metadata ∷ [])))

  -- The loop of `try_apply_single_shard_transaction_batch`.
  unfoldable pub join_batch :
      ShardStateMachine S
      → ℕ
      → List LogicalMutation
      → List ℕ
      → List Entry
      → Result ShardError (Option (List CommittedShardBatch))
  join_batch m expected prior ids [] = ok (some [])
  join_batch m expected prior ids (e ∷ es) = elim (transaction_of e.command) [
    | none ↦ ok none
    | some c ↦
        let rest =
          join_batch m (saturating_next expected) (prior ++ c.mutations) (c.transaction_id ∷ ids)
            es in
        if may_join m e c expected prior ids
        then (do batch ← batch_of m e c; batches ← rest; ok (put_first batch batches))
        else ok none
  ]

  -- The receipts of a batch.
  unfoldable pub take_receipts : ShardStateMachine S → List Entry → List ApplyReceipt × S → Batched
  take_receipts m es (receipts, s) =
      if not (length receipts == length es) || any (λ receipt. receipt.replayed) receipts
      then (
        err (invalid_raft_state "atomic state-store batch returned inconsistent receipts"),
        record m { state_store = s },
      )
      else (
        ok (outcomes m receipts),
        record m { state_store = s; applied_index = last_index m.applied_index receipts },
      )

  abbrev apply_joined : ShardStateMachine S → List Entry → List CommittedShardBatch → Batched
  apply_joined m es batches = elim (from_storage (store.apply_batches m.state_store batches)) [
    | err error ↦ (err error, m)
    | ok done ↦ take_receipts m es done
  ]

  unfoldable pub apply_committed_batch : ShardStateMachine S → List Entry → Batched
  apply_committed_batch m es =
      if ltb (length es) 2 || not (store.supports_atomic_batch_apply m.state_store)
      then apply_each m es
      else elim (join_batch m (saturating_next m.applied_index) [] [] es) [
        | err error ↦ (err error, m)
        | ok none ↦ apply_each m es
        | ok (some batches) ↦ apply_joined m es batches
      ]
