-- ===== src/Shard/Codec/Encoder.antt =====
-- `Encoder` of crates/execution/dtg-shard/src/command.rs. An encoder is the bytes it has written.
use dtgproxy.Base.{
  ℕ, zero, suc, ◌-◌, ◌^◌, String, List, [], ◌∷◌, ◌++◌, length, ltb, if◌then◌else◌, ℤ, pos, negsuc,
  Result, ok, err, ◌>>=◌, ◌>>◌,
}
use dtgproxy.Base.Bytes.{Bytes, to_be_bytes}
use dtgproxy.Base.Utf8.{as_bytes}
use dtgproxy.Kernel.{ValidInterval}
use dtgproxy.Storage.Mutation.{
  Value, null, boolean, integer, float_bits, bytes, string, list, map, Values, no_values, value,
  Fields, no_fields, field, Properties, TransactionState, prepared, committed, aborted,
  TransactionRecord, LogicalMutation, put_vertex, delete_vertex, put_edge, delete_edge,
  put_transaction, put_replica_metadata,
}
use dtgproxy.Shard.{ShardError}
use dtgproxy.Shard.Codec.{
  max_command_bytes, max_collection_items, max_allocation_items, value_levels, fails, refuse,
  consume,
}

unfoldable pub finish : Bytes → Result ShardError Bytes
finish written = do
  refuse (ltb max_command_bytes (length written)) "command exceeds maximum encoded size"
  ok written

abbrev pub u8 : ℕ → Bytes → Bytes
u8 n written = written ++ n ∷ []

abbrev pub u32 : ℕ → Bytes → Bytes
u32 n written = written ++ to_be_bytes 4 n

abbrev pub u64 : ℕ → Bytes → Bytes
u64 n written = written ++ to_be_bytes 8 n

abbrev pub u128 : ℕ → Bytes → Bytes
u128 n written = written ++ to_be_bytes 16 n

-- The bit pattern of an `i64`.
unfoldable pub pattern64 : ℤ → ℕ
pattern64 (pos n) = n
pattern64 (negsuc n) = 2 ^ 64 - 1 - n

abbrev pub i64 : ℤ → Bytes → Bytes
i64 n written = written ++ to_be_bytes 8 (pattern64 n)

unfoldable pub put_bytes : Bytes → Bytes → Result ShardError Bytes
put_bytes content written = do
  refuse (ltb (2 ^ 32 - 1) (length content)) "command field exceeds u32 length"
  let after : Bytes = u32 (length content) written ++ content
  refuse (ltb max_command_bytes (length after)) "command exceeds maximum encoded size"
  ok after

-- The 32 bytes of a digest.
abbrev pub put_digest : ℕ → Bytes → Result ShardError Bytes
put_digest digest written = put_bytes (to_be_bytes 32 digest) written

abbrev pub put_string : String → Bytes → Result ShardError Bytes
put_string text written = put_bytes (as_bytes text) written

abbrev pub state_tag : TransactionState → ℕ
state_tag prepared = 1
state_tag committed = 2
state_tag aborted = 3

-- `Encoder::transaction`
unfoldable pub put_record : TransactionRecord → Bytes → Bytes
put_record r written =
    u32 32 (i64 (pos r.transaction_time) (u8 (state_tag r.state) (u128 r.id written)))
    ++ to_be_bytes 32 r.record_digest

abbrev pub interval : ValidInterval → Bytes → Bytes
interval i written = i64 i.end (i64 i.start written)

abbrev pub Writes : Type 0
Writes = Result ShardError (Bytes × ℕ)

abbrev pub unbudgeted : ℕ → Result ShardError Bytes → Writes
unbudgeted budget (ok written) = ok (written, budget)
unbudgeted budget (err e) = err e

abbrev pub count_values : Values → ℕ
count_values no_values = 0
count_values (value v vs) = suc (count_values vs)

abbrev pub count_fields : Fields → ℕ
count_fields no_fields = 0
count_fields (field k v fs) = suc (count_fields fs)

-- The length of a list or a map, and what it takes of the budget.
unfoldable pub put_count : ℕ → String → ℕ → Bytes → ℕ → Writes
put_count tag message count written budget = do
  refuse (ltb max_collection_items count) message
  rest ← consume budget count
  ok (u32 count (u8 tag written), rest)

-- `Encoder::value`: the levels are those that are left below `MAX_VALUE_DEPTH`.
unfoldable mutual
  pub put_value : Value → ℕ → Bytes → ℕ → Writes
  put_value v zero written budget = fails "command value exceeds nesting depth budget"
  put_value null (suc levels) written budget = ok (u8 0 written, budget)
  put_value (boolean b) (suc levels) written budget =
      ok (u8 (if b then 1 else 0) (u8 1 written), budget)
  put_value (integer n) (suc levels) written budget = ok (i64 n (u8 2 written), budget)
  put_value (float_bits n) (suc levels) written budget = ok (u64 n (u8 3 written), budget)
  put_value (bytes content) (suc levels) written budget =
      unbudgeted budget (put_bytes content (u8 4 written))
  put_value (string text) (suc levels) written budget =
      unbudgeted budget (put_string text (u8 5 written))
  put_value (list vs) (suc levels) written budget = do
    counted ← put_count 6 "value list is too large" (count_values vs) written budget
    put_values vs levels counted.0 counted.1
  put_value (map fs) (suc levels) written budget = do
    counted ← put_count 7 "value map is too large" (count_fields fs) written budget
    put_fields fs levels counted.0 counted.1

  pub put_values : Values → ℕ → Bytes → ℕ → Writes
  put_values no_values levels written budget = ok (written, budget)
  put_values (value v vs) levels written budget = do
    after ← put_value v levels written budget
    put_values vs levels after.0 after.1

  pub put_fields : Fields → ℕ → Bytes → ℕ → Writes
  put_fields no_fields levels written budget = ok (written, budget)
  put_fields (field k v fs) levels written budget = do
    named ← put_string k written
    after ← put_value v levels named budget
    put_fields fs levels after.0 after.1

unfoldable pub put_entries : Properties → Bytes → ℕ → Writes
put_entries [] written budget = ok (written, budget)
put_entries ((name, v) ∷ rest) written budget = do
  named ← put_string name written
  after ← put_value v value_levels named budget
  put_entries rest after.0 after.1

unfoldable pub put_properties : Properties → Bytes → ℕ → Writes
put_properties properties written budget = do
  refuse (ltb max_collection_items (length properties)) "too many properties"
  rest ← consume budget (length properties)
  put_entries properties (u32 (length properties) written) rest

unfoldable pub put_mutation : LogicalMutation → Bytes → ℕ → Writes
put_mutation (put_vertex v) written budget =
    put_properties v.properties
      (i64 (pos v.transaction_time)
        (interval v.valid_time (u64 v.version (u128 v.id (u8 1 written)))))
      budget
put_mutation (delete_vertex v) written budget =
    ok (i64 (pos v.transaction_time) (u64 v.version (u128 v.id (u8 2 written))), budget)
put_mutation (put_edge e) written budget = do
  typed ← put_string e.edge_type (u128 e.target (u128 e.source (u128 e.id (u8 3 written))))
  put_properties e.properties
      (i64 (pos e.transaction_time) (interval e.valid_time (u64 e.version typed))) budget
put_mutation (delete_edge e) written budget =
    ok (i64 (pos e.transaction_time) (u64 e.version (u128 e.id (u8 4 written))), budget)
put_mutation (put_transaction r) written budget = unbudgeted budget (
    put_digest r.record_digest
      (i64 (pos r.transaction_time) (u8 (state_tag r.state) (u128 r.id (u8 5 written)))))
put_mutation (put_replica_metadata m) written budget = do
  named ← put_string m.name (u8 6 written)
  put_value m.value value_levels named budget

unfoldable pub put_each : List LogicalMutation → Bytes → ℕ → Writes
put_each [] written budget = ok (written, budget)
put_each (m ∷ ms) written budget = do
  after ← put_mutation m written budget
  put_each ms after.0 after.1

abbrev pub written_of : Writes → Result ShardError Bytes
written_of (ok (written, budget)) = ok written
written_of (err e) = err e

-- `Encoder::mutations`
unfoldable pub put_mutations : List LogicalMutation → Bytes → Result ShardError Bytes
put_mutations ms written = do
  refuse (ltb max_collection_items (length ms)) "too many logical mutations"
  budget ← consume max_allocation_items (length ms)
  written_of (put_each ms (u32 (length ms) written) budget)
