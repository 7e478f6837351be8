-- ===== src/Shard/Codec.antt =====
-- crates/execution/dtg-shard/src/command.rs: the limits of the bytes of commands.
pub mod Encoder
pub mod Decoder
pub mod Written
pub mod WrittenValues
pub mod RoundTrip
use dtgproxy.Base.{
  ℕ, zero, suc, ◌+◌, ◌-◌, ◌*◌, ◌^◌, Bool, true, false, not, ◌&&◌, ◌||◌, String, List, [], ◌∷◌, ◌++◌,
  length, take, drop, ltb, ◌==◌, if◌then◌else◌, ℤ, pos, negsuc, Option, none, some, Result, ok, err,
  ok_or, reject, is_nil, ◌>>=◌, ◌>>◌,
}
use dtgproxy.Base.Bytes.{Bytes, to_be_bytes, from_be_bytes, signed64}
use dtgproxy.Base.Map.{Map, insert, contains_key}
use dtgproxy.Base.Strings.{text_key}
use dtgproxy.Base.Utf8.{as_bytes, from_utf8}
use dtgproxy.Kernel.{ValidInterval, identifier, transaction_time, valid_interval}
use dtgproxy.Storage.Mutation.{
  Value, null, boolean, integer, float_bits, bytes, string, list, map, Values, no_values, value,
  Fields, no_fields, field, Properties, VertexVersion, EdgeVersion, Tombstone, TransactionState,
  prepared, committed, aborted, TransactionRecord, ReplicaMetadata, LogicalMutation, put_vertex,
  delete_vertex, put_edge, delete_edge, put_transaction, put_replica_metadata, new_vertex, new_edge,
  new_transaction_record, new_replica_metadata, vertex_id, edge_id,
}
use dtgproxy.Shard.{ShardError, invalid_command, from_storage, from_kernel}

abbrev pub max_command_bytes : ℕ
max_command_bytes = 16 * 1024 * 1024

abbrev pub max_collection_items : ℕ
max_collection_items = 1000000

abbrev pub max_allocation_items : ℕ
max_allocation_items = 65536

-- Depths 0 to `MAX_VALUE_DEPTH`.
abbrev pub value_levels : ℕ
value_levels = 65

abbrev pub fails : {A : Type 0} → String → Result ShardError A
fails message = err (invalid_command message)

abbrev pub refuse : Bool → String → Result ShardError (Unit {0})
refuse bad message = reject bad (invalid_command message)

-- `AllocationBudget::consume`
unfoldable pub consume : ℕ → ℕ → Result ShardError ℕ
consume remaining count =
    if ltb remaining count
    then fails "command collection exceeds allocation budget"
    else ok (remaining - count)
