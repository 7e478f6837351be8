-- ===== src/Txn.antt =====
-- crates/execution/dtg-transaction/src
pub mod Conflict
pub mod Snapshot
pub mod Overlay
pub mod Participants
pub mod Stamping
pub mod Timestamp
pub mod Codec
pub mod Authority
mod Examples
mod GraphExamples
use dtgproxy.Base.{String}

-- `TxnError` of lib.rs
pub data TxnError : Type 0 where
  write_conflict : TxnError
  incomplete_snapshot : TxnError
  duplicate_shard_fence : TxnError
  inconsistent_snapshot : TxnError
  stale_placement_epoch : TxnError
  stale_backend_generation : TxnError
  applied_index_unavailable : TxnError
  read_time_exceeds_closed_time : TxnError
  referential_integrity : TxnError
  duplicate_identity : TxnError
  invalid_mutation : TxnError
  resource_limit : TxnError
  participants_mismatch : TxnError
  shard : String → TxnError
  storage : String → TxnError
  corrupt_recovery : TxnError
  injected_crash : TxnError
