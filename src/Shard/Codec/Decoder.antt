-- ===== src/Shard/Codec/Decoder.antt =====
-- `Decoder` of crates/execution/dtg-shard/src/command.rs. A decoder is the bytes that are left and the
-- number of items that it may still allocate; a method is a function of it that hands on the next.
use dtgproxy.Base.{
  ℕ, zero, suc, true, false, String, List, [], ◌∷◌, length, take, drop, ltb, ◌==◌, if◌then◌else◌, ℤ,
  Result, ok, err, ok_or, is_nil,
}
use dtgproxy.Base.Bytes.{Bytes, from_be_bytes, signed64}
use dtgproxy.Base.Map.{Map, insert, contains_key}
use dtgproxy.Base.Strings.{text_key}
use dtgproxy.Base.Utf8.{from_utf8}
use dtgproxy.Kernel.{ValidInterval, identifier, transaction_time, valid_interval, TransactionTime}
use dtgproxy.Storage.Mutation.{
  Value, null, boolean, integer, float_bits, bytes, string, list, map, Values, no_values, value,
  Fields, no_fields, field, Properties, TransactionState, prepared, committed, aborted,
  TransactionRecord, LogicalMutation, put_vertex, delete_vertex, put_edge, delete_edge,
  put_transaction, put_replica_metadata, new_vertex, new_edge, new_transaction_record,
  new_replica_metadata, vertex_id, edge_id,
}
use dtgproxy.Shard.{ShardError, from_storage, from_kernel, invalid_command}
use dtgproxy.Shard.Codec.{
  max_command_bytes, max_collection_items, max_allocation_items, value_levels, fails, consume,
}

pub record Decoder : Type 0 where
  pub left : Bytes
  pub remaining : ℕ

abbrev pub Reader : Type 0 → Type 0
Reader A = Decoder → Result ShardError (A × Decoder)

infixl 5 ◌>>=◌ ◌>>◌
abbrev pub ◌>>=◌ : {A B : Type 0} → Reader A → (A → Reader B) → Reader B
◌>>=◌ m rest d = elim (m d) [ err e ↦ err e | ok (a, d') ↦ rest a d' ]

abbrev pub ◌>>◌ : {B : Type 0} → Reader (Unit {0}) → Reader B → Reader B
m >> k = m >>= λ _. k

abbrev pub give : {A : Type 0} → Result ShardError A → Reader A
give (ok a) d = ok (a, d)
give (err e) d = err e

-- `Decoder::new`
unfoldable pub new_decoder : Bytes → Result ShardError Decoder
new_decoder content =
    if is_nil content
    then fails "command bytes are empty or oversized"
    else if ltb max_command_bytes (length content)
    then fails "command bytes are empty or oversized"
    else ok (record { left = content; remaining = max_allocation_items })

-- `Decoder::finish`
unfoldable pub finished : Reader (Unit {0})
finished d = if is_nil d.left then ok (tt, d) else fails "command contains trailing bytes"

unfoldable pub take_bytes : ℕ → Reader Bytes
take_bytes count d =
    if ltb (length d.left) count
    then fails "truncated command"
    else ok (take count d.left, record d { left = drop count d.left })

unfoldable pub get_number : ℕ → Reader ℕ
get_number width = do content ← take_bytes width; give (ok (from_be_bytes content))

abbrev pub get_u8 : Reader ℕ
get_u8 = get_number 1

abbrev pub get_u32 : Reader ℕ
get_u32 = get_number 4

abbrev pub get_u64 : Reader ℕ
get_u64 = get_number 8

abbrev pub get_u128 : Reader ℕ
get_u128 = get_number 16

unfoldable pub get_i64 : Reader ℤ
get_i64 = do n ← get_number 8; give (ok (signed64 n))

unfoldable pub get_bytes : Reader Bytes
get_bytes = do length ← get_u32; take_bytes length

unfoldable pub get_string : Reader String
get_string = do
  content ← get_bytes
  give (ok_or (from_utf8 content) (invalid_command "command string is not UTF-8"))

-- `Decoder::fixed_32`, as the number of the digest
unfoldable pub get_digest : Reader ℕ
get_digest = do
  content ← get_bytes
  give (
      if length content == 32
      then ok (from_be_bytes content)
      else fails "digest must contain exactly 32 bytes")

abbrev pub get_time : Reader TransactionTime
get_time = do n ← get_i64; give (from_kernel (transaction_time n))

abbrev pub state_of : ℕ → Result ShardError TransactionState
state_of tag =
    if tag == 1
    then ok prepared
    else if tag == 2
    then ok committed
    else if tag == 3
    then ok aborted
    else fails "unknown transaction state"

-- `Decoder::transaction`
unfoldable pub get_record : Reader TransactionRecord
get_record = do
  n ← get_u128
  id ← give (from_kernel (identifier n))
  tag ← get_u8
  state ← give (state_of tag)
  time ← get_time
  digest ← get_digest
  give (
      from_storage (
        new_transaction_record
          (record { id = id; state = state; transaction_time = time; record_digest = digest })))

unfoldable pub get_interval : Reader ValidInterval
get_interval = do start ← get_i64; end ← get_i64; give (from_kernel (valid_interval start end))

unfoldable pub get_count : Reader ℕ
get_count = do
  count ← get_u32
  give (
      if ltb max_collection_items count
      then fails "command collection exceeds item limit"
      else ok count)

unfoldable pub allocate : ℕ → Reader (Unit {0})
allocate count d = elim (consume d.remaining count) [
  | err e ↦ err e
  | ok rest ↦ ok (tt, record d { remaining = rest })
]

unfoldable pub collection_count : Reader ℕ
collection_count = do count ← get_count; allocate count; give (ok count)

abbrev pub fields_of : Map String Value → Fields
fields_of [] = no_fields
fields_of ((k, v) ∷ m) = field k v (fields_of m)

-- The loop over the items of a list, and that over the entries of a map.
module _ (read : Reader Value) where
  unfoldable pub get_values : ℕ → Reader Values
  get_values zero = give (ok no_values)
  get_values (suc count) = do v ← read; vs ← get_values count; give (ok (value v vs))

  unfoldable pub get_entries : String → ℕ → Map String Value → Reader (Map String Value)
  get_entries message zero found = give (ok found)
  get_entries message (suc count) found = do
    name ← get_string
    v ← read
    give (if contains_key name found then fails message else ok tt)
    get_entries message count (insert name v found)

abbrev pub boolean_of : ℕ → Result ShardError Value
boolean_of n =
    if n == 0
    then ok (boolean false)
    else if n == 1
    then ok (boolean true)
    else fails "invalid Boolean value"

-- The arms of `Decoder::value`, with the reader of the values one level below.
unfoldable pub value_arm : Reader Value → ℕ → Reader Value
value_arm below tag =
    if tag == 0
    then give (ok null)
    else if tag == 1
    then (do n ← get_u8; give (boolean_of n))
    else if tag == 2
    then (do n ← get_i64; give (ok (integer n)))
    else if tag == 3
    then (do n ← get_u64; give (ok (float_bits n)))
    else if tag == 4
    then (do content ← get_bytes; give (ok (bytes content)))
    else if tag == 5
    then (do text ← get_string; give (ok (string text)))
    else if tag == 6
    then (do count ← collection_count; vs ← get_values below count; give (ok (list vs)))
    else if tag == 7
    then (do
      count ← collection_count
      entries ← get_entries below "duplicate value-map key" count []
      give (ok (map (fields_of entries))))
    else give (fails "unknown value tag")

-- `Decoder::value`: the levels are those that are left below `MAX_VALUE_DEPTH`.
unfoldable pub get_value : ℕ → Reader Value
get_value zero = give (fails "command value exceeds nesting depth budget")
get_value (suc levels) = do tag ← get_u8; value_arm (get_value levels) tag

unfoldable pub get_properties : Reader Properties
get_properties = do
  count ← collection_count
  get_entries (get_value value_levels) "duplicate property name" count []

abbrev pub get_id : (ℕ → Result ShardError ℕ) → Reader ℕ
get_id check = do n ← get_u128; give (check n)

abbrev pub checked_vertex : ℕ → Result ShardError ℕ
checked_vertex n = from_storage (vertex_id n)

abbrev pub checked_edge : ℕ → Result ShardError ℕ
checked_edge n = from_storage (edge_id n)

abbrev vertex_arm : Reader LogicalMutation
vertex_arm = do
  id ← get_id checked_vertex
  version ← get_u64
  valid_time ← get_interval
  time ← get_time
  properties ← get_properties
  v ← give (
      from_storage (
        new_vertex (record {
          id = id;
          version = version;
          valid_time = valid_time;
          transaction_time = time;
          properties = properties;
        })))
  give (ok (put_vertex v))

abbrev edge_arm : Reader LogicalMutation
edge_arm = do
  id ← get_id checked_edge
  source ← get_id checked_vertex
  target ← get_id checked_vertex
  edge_type ← get_string
  version ← get_u64
  valid_time ← get_interval
  time ← get_time
  properties ← get_properties
  e ← give (
      from_storage (
        new_edge (record {
          id = id;
          source = source;
          target = target;
          edge_type = edge_type;
          version = version;
          valid_time = valid_time;
          transaction_time = time;
          properties = properties;
        })))
  give (ok (put_edge e))

unfoldable pub mutation_arm : ℕ → Reader LogicalMutation
mutation_arm tag =
    if tag == 1
    then vertex_arm
    else if tag == 2
    then (do
      id ← get_id checked_vertex
      version ← get_u64
      time ← get_time
      give (ok (delete_vertex (record { id = id; version = version; transaction_time = time }))))
    else if tag == 3
    then edge_arm
    else if tag == 4
    then (do
      id ← get_id checked_edge
      version ← get_u64
      time ← get_time
      give (ok (delete_edge (record { id = id; version = version; transaction_time = time }))))
    else if tag == 5
    then (do r ← get_record; give (ok (put_transaction r)))
    else if tag == 6
    then (do
      name ← get_string
      v ← get_value value_levels
      m ← give (from_storage (new_replica_metadata name v))
      give (ok (put_replica_metadata m)))
    else give (fails "unknown logical mutation tag")

unfoldable pub get_mutation : Reader LogicalMutation
get_mutation = do tag ← get_u8; mutation_arm tag

unfoldable pub get_each : ℕ → Reader (List LogicalMutation)
get_each zero = give (ok [])
get_each (suc count) = do m ← get_mutation; ms ← get_each count; give (ok (m ∷ ms))

unfoldable pub mutations_with_limit : ℕ → String → Reader (List LogicalMutation)
mutations_with_limit limit message = do
  count ← get_count
  give (if ltb limit count then fails message else ok tt)
  allocate count
  get_each count

-- `Decoder::mutations`
abbrev pub get_mutations : Reader (List LogicalMutation)
get_mutations = mutations_with_limit max_collection_items "command collection exceeds item limit"
