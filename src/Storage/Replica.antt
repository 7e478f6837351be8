-- ===== src/Storage/Replica.antt =====
-- crates/storage/dtg-storage/src: committed batches and receipts of mutation.rs, and of read.rs the pages
-- of changes and the trait `ReplicaStateStore`, as an interface. `digest_mutations` is the digest of the
-- encoding of mutations, which is not modelled.
use dtgproxy.Base.{
  ℕ, Bool, false, ◌&&◌, ◌||◌, String, List, is_nil, ltb, ◌==◌, Option, none, some, Result, ok,
  reject, ◌>>◌,
}
use dtgproxy.Storage.{ReplicaBinding, StorageError, invalid_batch, invalid_mutation}
use dtgproxy.Storage.Mutation.{LogicalMutation, ReplicaMetadata}

pub record CommittedShardBatch : Type 0 where
  pub binding : ReplicaBinding
  pub raft_term : ℕ
  pub raft_index : ℕ
  pub command_id : ℕ
  pub mutation_digest : ℕ
  pub mutations : List LogicalMutation

-- `CommittedShardBatch::new`
unfoldable pub new_batch :
    (List LogicalMutation → ℕ)
    → ReplicaBinding
    → ℕ
    → ℕ
    → ℕ
    → List LogicalMutation
    → Result StorageError CommittedShardBatch
new_batch digest_mutations binding term index command_id mutations = do
  reject (term == 0 || index == 0) (invalid_batch "Raft term and index must be nonzero")
  reject (is_nil mutations) (invalid_batch "committed batch must contain at least one mutation")
  ok (record {
    binding = binding;
    raft_term = term;
    raft_index = index;
    command_id = command_id;
    mutation_digest = digest_mutations mutations;
    mutations = mutations;
  })

pub record ApplyReceipt : Type 0 where
  pub binding : ReplicaBinding
  pub raft_term : ℕ
  pub raft_index : ℕ
  pub command_id : ℕ
  pub mutation_digest : ℕ
  pub replayed : Bool

pub record ChangeCursor : Type 0 where
  pub raft_index : ℕ
  pub mutation_ordinal : ℕ

-- The derived order.
abbrev pub cursor_before : ChangeCursor → ChangeCursor → Bool
cursor_before a b =
    ltb a.raft_index b.raft_index
    || (a.raft_index == b.raft_index && ltb a.mutation_ordinal b.mutation_ordinal)

abbrev pub same_cursor : ChangeCursor → ChangeCursor → Bool
same_cursor a b = a.raft_index == b.raft_index && a.mutation_ordinal == b.mutation_ordinal

pub record ChangeRecord : Type 0 where
  pub cursor : ChangeCursor
  pub mutation : LogicalMutation

pub record ChangePage : Type 0 where
  pub rows : List ChangeRecord
  pub next_after : Option ChangeCursor

pub record ChangesRead : Type 0 where
  pub after : Option ChangeCursor
  pub through_index : ℕ
  pub limit : ℕ

abbrev is_beyond : ℕ → Option ChangeCursor → Bool
is_beyond through none = false
is_beyond through (some c) = ltb through c.raft_index

-- `ChangesRead::new`
unfoldable pub new_changes_read : Option ChangeCursor → ℕ → ℕ → Result StorageError ChangesRead
new_changes_read after through limit = do
  reject (is_beyond through after || limit == 0)
      (invalid_mutation "change bounds must be ordered and nonempty")
  ok (record { after = after; through_index = through; limit = limit })

-- The operations of a store that a shard calls. A batch that is applied gives the store after it.
pub record ReplicaStateStore (S View : Type 0) : Type 0 where
  pub binding_of : S → ReplicaBinding
  pub stored_index : S → Result StorageError ℕ
  pub replica_metadata : S → String → Result StorageError (Option ReplicaMetadata)
  pub apply_batch : S → CommittedShardBatch → Result StorageError (ApplyReceipt × S)
  pub supports_atomic_batch_apply : S → Bool
  pub apply_batches : S → List CommittedShardBatch → Result StorageError (List ApplyReceipt × S)
  pub begin_read_view : S → ReplicaBinding → ℕ → Result StorageError View
  pub changes : View → ChangesRead → Result StorageError ChangePage
