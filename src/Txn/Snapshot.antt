-- ===== src/Txn/Snapshot.antt =====
-- crates/execution/dtg-transaction/src/snapshot.rs
pub mod Fences
use dtgproxy.Base.{
  ℕ, Bool, true, false, not, ◌||◌, List, [], ◌∷◌, any, is_nil, ltb, ◌==◌, Result, ok, err, ◌>>=◌,
  ◌>>◌, reject, ok_or,
}
use dtgproxy.Base.Map.{Map, get, insert, values, contains_key, nat_key}
use dtgproxy.Kernel.{TransactionTime}
use dtgproxy.Txn.{
  TxnError, incomplete_snapshot, inconsistent_snapshot, duplicate_shard_fence,
  stale_placement_epoch, stale_backend_generation, applied_index_unavailable,
  read_time_exceeds_closed_time,
}

pub record ShardSnapshotFence : Type 0 where
  pub placement_epoch : ℕ
  pub backend_generation : ℕ
  pub applied_index : ℕ
  pub closed_time : TransactionTime

pub record SnapshotToken : Type 0 where
  pub transaction_id : ℕ
  pub start_time : TransactionTime
  pub catalog_version : ℕ
  pub shards : Map ℕ ShardSnapshotFence

-- The loop of `SnapshotToken::new`.
unfoldable pub collect_fences :
    TransactionTime
    → Map ℕ ShardSnapshotFence
    → List (ℕ × ShardSnapshotFence)
    → Result TxnError (Map ℕ ShardSnapshotFence)
collect_fences start_time shards [] = ok shards
collect_fences start_time shards ((shard_id, fence) ∷ rest) = do
  reject (ltb fence.closed_time start_time) inconsistent_snapshot
  reject (contains_key shard_id shards) duplicate_shard_fence
  collect_fences start_time (insert shard_id fence shards) rest

-- `SnapshotToken::new`
unfoldable pub snapshot_token :
    ℕ → TransactionTime → ℕ → List (ℕ × ShardSnapshotFence) → Result TxnError SnapshotToken
snapshot_token transaction_id start_time catalog_version shard_fences = do
  reject (catalog_version == 0 || is_nil shard_fences) incomplete_snapshot
  shards ← collect_fences start_time [] shard_fences
  ok (record {
    transaction_id = transaction_id;
    start_time = start_time;
    catalog_version = catalog_version;
    shards = shards;
  })

pub validate_shard : SnapshotToken → ℕ → ℕ → ℕ → ℕ → Result TxnError (Unit {0})
validate_shard token shard_id placement_epoch backend_generation available_applied_index = do
  fence ← ok_or (get shard_id token.shards) incomplete_snapshot
  reject (not (fence.placement_epoch == placement_epoch)) stale_placement_epoch
  reject (not (fence.backend_generation == backend_generation)) stale_backend_generation
  reject (ltb available_applied_index fence.applied_index) applied_index_unavailable

abbrev pub closed_before : TransactionTime → ShardSnapshotFence → Bool
closed_before read_time fence = ltb fence.closed_time read_time

pub validate_read_time : SnapshotToken → TransactionTime → Result TxnError (Unit {0})
validate_read_time token read_time = do
  reject (not (read_time == token.start_time)) inconsistent_snapshot
  reject (any (closed_before read_time) (values token.shards)) read_time_exceeds_closed_time
