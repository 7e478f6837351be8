-- ===== src/Shard/Codec/RoundTrip.antt =====
-- Mutations as the encoder of crates/execution/dtg-shard/src/command.rs writes them and its decoder
-- reads them back.
use dtgproxy.Base.{
  ℕ, suc, ◌^◌, ◌≤◌, ◌<◌, ◌≡◌, refl, sym, ap, ◌∙◌, subst, String, List, [], ◌∷◌, arith, length, ltb,
  if◌then◌else◌, pos, Result, ok, err, All, >>=-eq-ok, >>=-cong,
}
use dtgproxy.Base.Bytes.{Bytes}
use dtgproxy.Kernel.{ValidInterval, identifier, transaction_time, valid_interval}
use dtgproxy.Storage.{StorageError}
use dtgproxy.Storage.Mutation.{
  Properties, VertexVersion, EdgeVersion, Tombstone, TransactionRecord, TransactionState, prepared,
  committed, aborted, ReplicaMetadata, LogicalMutation, put_vertex, delete_vertex, put_edge,
  delete_edge, put_transaction, put_replica_metadata, new_vertex, new_edge, new_transaction_record,
  new_replica_metadata, vertex_id, edge_id,
}
use dtgproxy.Shard.{ShardError, from_storage, from_kernel}
use dtgproxy.Shard.Codec.{
  consume, refuse, fails, max_collection_items, max_allocation_items, value_levels,
}
use dtgproxy.Shard.Codec.Encoder.{
  u8, u32, u64, u128, i64, interval, put_string, put_value, put_fields, count_fields, put_entries,
  put_properties, put_mutation, put_mutations, put_each, state_tag, Writes, written_of,
}
use dtgproxy.Shard.Codec.Decoder.{
  Reader, give, ◌>>=◌, get_u64, get_entries, get_value, fields_of, get_properties, get_id,
  checked_vertex, checked_edge, get_interval, get_time, get_record, state_of, get_digest,
  get_mutation, mutation_arm, get_each, mutations_with_limit,
}
use dtgproxy.Shard.Codec.Written.{
  Wrote, then_wrote, gave, wrote_u8, wrote_u64, wrote_u128, wrote_i64, IsI64, wrote_string,
  wrote_digest, wrote_count, allocated, wrote_collection_count,
}
use dtgproxy.Shard.Codec.WrittenValues.{
  entries_of, IsValue, AreFields, wrote_value, wrote_fields, Above-none, settled, unbudgeted_wrote,
}

entries_of-fields_of : (m : Properties) → entries_of (fields_of m) ≡ m
entries_of-fields_of [] = refl
entries_of-fields_of (e ∷ m) = ap (◌∷◌ e) (entries_of-fields_of m)

count_fields-fields_of : (m : Properties) → count_fields (fields_of m) ≡ length m
count_fields-fields_of [] = refl
count_fields-fields_of (e ∷ m) = ap suc (count_fields-fields_of m)

put_entries-fields_of :
    (m : Properties) (w : Bytes) (n : ℕ)
    → put_entries m w n ≡ put_fields (fields_of m) value_levels w n
unfolding put_entries put_fields
put_entries-fields_of [] w n = refl
put_entries-fields_of ((k, v) ∷ m) w n = >>=-cong (put_string k w) _ _ (λ named.
    >>=-cong (put_value v value_levels named n) _ _
      (λ after. put_entries-fields_of m after.0 after.1))

wrote_properties :
    (m : Properties) (w w' : Bytes) (n n' : ℕ)
    → AreFields (fields_of m)
    → put_properties m w n ≡ ok (w', n')
    → Wrote w w' n n' get_properties m
unfolding put_properties get_properties
wrote_properties m w w' n n' h went =
    let (u, small, went') =
      >>=-eq-ok (refuse (ltb max_collection_items (length m)) "too many properties") _ went in
    let (left, took, put) = >>=-eq-ok (consume n (length m)) _ went' in
    let bound : length m ≤ 1000000 = ground arith in
    let fields =
      wrote_fields (fields_of m) value_levels left n' (u32 (length m) w) w' []
        "duplicate property name" h (Above-none (fields_of m))
        (sym (put_entries-fields_of m (u32 (length m) w) left) ∙ put) in
    then_wrote _ (wrote_collection_count w (length m) n left bound took) (
      subst
        (λ l.
          Wrote (u32 (length m) w) w' left n'
            (get_entries (get_value value_levels) "duplicate property name" l []) m)
        (count_fields-fields_of m)
        (subst
          (λ e.
            Wrote (u32 (length m) w) w' left n'
              (get_entries (get_value value_levels) "duplicate property name"
                (count_fields (fields_of m)) [])
              e)
          (entries_of-fields_of m) fields))

pub wrote_id :
    (w : Bytes) (id n : ℕ) (check : ℕ → Result ShardError ℕ)
    → id < 2 ^ 128
    → check id ≡ ok id
    → Wrote w (u128 id w) n n (get_id check) id
wrote_id w id n check bound made = then_wrote check_it (wrote_u128 w id n bound) (gave made)
  where
    check_it : ℕ → Reader ℕ
    check_it m = give (check m)

pub wrote_time :
    (w : Bytes) (time n : ℕ) → time < 2 ^ 63 → Wrote w (i64 (pos time) w) n n get_time time
unfolding transaction_time
wrote_time w time n bound = then_wrote _ (wrote_i64 w (pos time) n bound) (gave refl)

wrote_interval :
    (w : Bytes) (i : ValidInterval) (n : ℕ)
    → IsI64 i.start
    → IsI64 i.end
    → valid_interval i.start i.end ≡ ok i
    → Wrote w (interval i w) n n get_interval i
unfolding get_interval
wrote_interval w i n from to made =
    then_wrote _ (wrote_i64 w i.start n from)
      (then_wrote _ (wrote_i64 (i64 i.start w) i.end n to) (gave (ap from_kernel made)))

state_of_lem : (s : TransactionState) → state_of (state_tag s) ≡ ok s
state_of_lem prepared = refl
state_of_lem committed = refl
state_of_lem aborted = refl

-- A record as its constructors make it.
pub record IsRecord (r : TransactionRecord) : Type 0 where
  pub id_made : identifier r.id ≡ ok r.id
  pub id_bound : r.id < 2 ^ 128
  pub time_bound : r.transaction_time < 2 ^ 63
  pub digest_bound : r.record_digest < 2 ^ 256
  pub made : new_transaction_record r ≡ ok r

-- The bytes of a record but for its digest.
abbrev pub record_head : TransactionRecord → Bytes → Bytes
record_head r w = i64 (pos r.transaction_time) (u8 (state_tag r.state) (u128 r.id w))

pub wrote_record :
    (w w' : Bytes) (r : TransactionRecord) (n : ℕ)
    → IsRecord r
    → Wrote (record_head r w) w' n n get_digest r.record_digest
    → Wrote w w' n n get_record r
unfolding get_record
wrote_record w w' r n h digest = then_wrote _ (wrote_u128 w r.id n h.id_bound) (
    then_wrote _ (gave (ap from_kernel h.id_made)) (
      then_wrote _ (wrote_u8 (u128 r.id w) (state_tag r.state) n) (
        then_wrote _ (gave (state_of_lem r.state)) (
          then_wrote _
            (wrote_time (u8 (state_tag r.state) (u128 r.id w)) r.transaction_time n h.time_bound)
            (then_wrote _ digest (gave (ap from_storage h.made)))))))

pub record IsVertex (v : VertexVersion) : Type 0 where
  pub id_made : vertex_id v.id ≡ ok v.id
  pub id_bound : v.id < 2 ^ 128
  pub version_bound : v.version < 2 ^ 64
  pub start_bound : IsI64 v.valid_time.start
  pub end_bound : IsI64 v.valid_time.end
  pub interval_made : valid_interval v.valid_time.start v.valid_time.end ≡ ok v.valid_time
  pub time_bound : v.transaction_time < 2 ^ 63
  pub properties_made : AreFields (fields_of v.properties)
  pub made : new_vertex v ≡ ok v

pub record IsEdge (e : EdgeVersion) : Type 0 where
  pub id_made : edge_id e.id ≡ ok e.id
  pub id_bound : e.id < 2 ^ 128
  pub source_made : vertex_id e.source ≡ ok e.source
  pub source_bound : e.source < 2 ^ 128
  pub target_made : vertex_id e.target ≡ ok e.target
  pub target_bound : e.target < 2 ^ 128
  pub version_bound : e.version < 2 ^ 64
  pub start_bound : IsI64 e.valid_time.start
  pub end_bound : IsI64 e.valid_time.end
  pub interval_made : valid_interval e.valid_time.start e.valid_time.end ≡ ok e.valid_time
  pub time_bound : e.transaction_time < 2 ^ 63
  pub properties_made : AreFields (fields_of e.properties)
  pub made : new_edge e ≡ ok e

pub record IsTombstone (check : ℕ → Result StorageError ℕ) (t : Tombstone) : Type 0 where
  pub id_made : check t.id ≡ ok t.id
  pub id_bound : t.id < 2 ^ 128
  pub version_bound : t.version < 2 ^ 64
  pub time_bound : t.transaction_time < 2 ^ 63

pub record IsMetadata (m : ReplicaMetadata) : Type 0 where
  pub value_made : IsValue m.value
  pub made : new_replica_metadata m.name m.value ≡ ok m

-- A mutation as the constructors make it, with numbers that fit their types.
abbrev pub IsMutation : LogicalMutation → Type 0
IsMutation (put_vertex v) = IsVertex v
IsMutation (delete_vertex t) = IsTombstone vertex_id t
IsMutation (put_edge e) = IsEdge e
IsMutation (delete_edge t) = IsTombstone edge_id t
IsMutation (put_transaction r) = IsRecord r
IsMutation (put_replica_metadata m) = IsMetadata m

-- The arm of a deletion.
abbrev tombstone_arm :
    (ℕ → Result ShardError ℕ) → (Tombstone → LogicalMutation) → Reader LogicalMutation
tombstone_arm check make = get_id check >>= λ id. get_u64 >>= λ version. get_time >>= λ time.
    give (ok (make (record { id = id; version = version; transaction_time = time })))

wrote_tombstone :
    (w : Bytes) (t : Tombstone) (n : ℕ) (check : ℕ → Result StorageError ℕ)
    (make : Tombstone → LogicalMutation)
    → IsTombstone check t
    → Wrote w
        (i64 (pos t.transaction_time) (u64 t.version (u128 t.id w)))
        n
        n
        (tombstone_arm (λ id. from_storage (check id)) make)
        (make t)
wrote_tombstone w t n check make h =
    then_wrote _
      (wrote_id w t.id n (λ id. from_storage (check id)) h.id_bound (ap from_storage h.id_made))
      (then_wrote _ (wrote_u64 (u128 t.id w) t.version n h.version_bound) (
        then_wrote _ (wrote_time (u64 t.version (u128 t.id w)) t.transaction_time n h.time_bound)
          (gave refl)))

wrote_vertex :
    (w w' : Bytes) (v : VertexVersion) (n n' : ℕ)
    → IsVertex v
    → put_properties v.properties
        (i64 (pos v.transaction_time) (interval v.valid_time (u64 v.version (u128 v.id w))))
        n
      ≡ ok (w', n')
    → Wrote w w' n n' (mutation_arm 1) (put_vertex v)
unfolding mutation_arm
wrote_vertex w w' v n n' h went =
    let w1 = u128 v.id w in
    let w2 = u64 v.version w1 in
    let w3 = interval v.valid_time w2 in
    let w4 = i64 (pos v.transaction_time) w3 in
    then_wrote _ (wrote_id w v.id n checked_vertex h.id_bound (ap from_storage h.id_made)) (
      then_wrote _ (wrote_u64 w1 v.version n h.version_bound) (
        then_wrote _ (wrote_interval w2 v.valid_time n h.start_bound h.end_bound h.interval_made) (
          then_wrote _ (wrote_time w3 v.transaction_time n h.time_bound) (
            then_wrote _ (wrote_properties v.properties w4 w' n n' h.properties_made went)
              (then_wrote _ (gave (ap from_storage h.made)) (gave refl))))))

wrote_edge :
    (w w' : Bytes) (e : EdgeVersion) (n n' : ℕ)
    → IsEdge e
    → put_mutation (put_edge e) w n ≡ ok (w', n')
    → Wrote (u8 3 w) w' n n' (mutation_arm 3) (put_edge e)
unfolding mutation_arm put_mutation
wrote_edge w w' e n n' h went =
    let w1 = u128 e.id (u8 3 w) in
    let w2 = u128 e.source w1 in
    let w3 = u128 e.target w2 in
    let (typed, put_type, put) = >>=-eq-ok (put_string e.edge_type w3) _ went in
    let w5 = u64 e.version typed in
    let w6 = interval e.valid_time w5 in
    let w7 = i64 (pos e.transaction_time) w6 in
    then_wrote _ (wrote_id (u8 3 w) e.id n checked_edge h.id_bound (ap from_storage h.id_made)) (
      then_wrote _
        (wrote_id w1 e.source n checked_vertex h.source_bound (ap from_storage h.source_made))
        (then_wrote _
          (wrote_id w2 e.target n checked_vertex h.target_bound (ap from_storage h.target_made))
          (then_wrote _ (wrote_string w3 typed e.edge_type n put_type) (
            then_wrote _ (wrote_u64 typed e.version n h.version_bound) (
              then_wrote _
                (wrote_interval w5 e.valid_time n h.start_bound h.end_bound h.interval_made)
                (then_wrote _ (wrote_time w6 e.transaction_time n h.time_bound) (
                  then_wrote _ (wrote_properties e.properties w7 w' n n' h.properties_made put)
                    (then_wrote _ (gave (ap from_storage h.made)) (gave refl)))))))))

wrote_mutation :
    (m : LogicalMutation) (w w' : Bytes) (n n' : ℕ)
    → IsMutation m
    → put_mutation m w n ≡ ok (w', n')
    → Wrote w w' n n' get_mutation m
unfolding put_mutation get_mutation mutation_arm
wrote_mutation (put_vertex v) w w' n n' h went =
    then_wrote _ (wrote_u8 w 1 n) (wrote_vertex (u8 1 w) w' v n n' h went)
wrote_mutation (delete_vertex t) w w' n n' h went =
    settled went
      (then_wrote _ (wrote_u8 w 2 n) (wrote_tombstone (u8 2 w) t n vertex_id delete_vertex h))
wrote_mutation (put_edge e) w w' n n' h went =
    then_wrote _ (wrote_u8 w 3 n) (wrote_edge w w' e n n' h went)
wrote_mutation (delete_edge t) w w' n n' h went =
    settled went
      (then_wrote _ (wrote_u8 w 4 n) (wrote_tombstone (u8 4 w) t n edge_id delete_edge h))
wrote_mutation (put_transaction r) w w' n n' h went = then_wrote _ (wrote_u8 w 5 n) (
    unbudgeted_wrote _ went (λ v put.
      then_wrote _
        (wrote_record (u8 5 w) v r n h
          (wrote_digest (record_head r (u8 5 w)) v r.record_digest n h.digest_bound put))
        (gave refl)))
wrote_mutation (put_replica_metadata m) w w' n n' h went =
    let (named, put_name, put) = >>=-eq-ok (put_string m.name (u8 6 w)) _ went in
    then_wrote _ (wrote_u8 w 6 n) (
      then_wrote _ (wrote_string (u8 6 w) named m.name n put_name) (
        then_wrote _ (wrote_value m.value value_levels n n' named w' h.value_made put)
          (then_wrote _ (gave (ap from_storage h.made)) (gave refl))))

wrote_each :
    (ms : List LogicalMutation) (w w' : Bytes) (n n' : ℕ)
    → All IsMutation ms
    → put_each ms w n ≡ ok (w', n')
    → Wrote w w' n n' (get_each (length ms)) ms
unfolding put_each get_each
wrote_each [] w w' n n' h went = settled went (gave refl)
wrote_each (m ∷ ms) w w' n n' h went =
    let (after, put, rest) = >>=-eq-ok (put_mutation m w n) _ went in
    then_wrote _ (wrote_mutation m w after.0 n after.1 h.0 put)
      (then_wrote _ (wrote_each ms after.0 w' after.1 n' h.1 rest) (gave refl))

written_of-ok :
    (put : Writes) (w' : Bytes) → written_of put ≡ ok w' → (n' : ℕ) × (put ≡ ok (w', n'))
written_of-ok (ok (v, n')) w' went = let same : v ≡ w' = cc in (n', ap (λ u. ok (u, n')) same)
written_of-ok (err e) w' went = let no_way : ⊥ = cc in absurd no_way

pub wrote_mutations :
    (ms : List LogicalMutation) (w w' : Bytes) (limit : ℕ) (message : String)
    → All IsMutation ms
    → length ms ≤ limit
    → put_mutations ms w ≡ ok w'
    → (n' : ℕ) × Wrote w w' max_allocation_items n' (mutations_with_limit limit message) ms
unfolding put_mutations mutations_with_limit
wrote_mutations ms w w' limit message h within went =
    let (u, small, went') =
      >>=-eq-ok (refuse (ltb max_collection_items (length ms)) "too many logical mutations") _
        went in
    let (budget, took, put) = >>=-eq-ok (consume max_allocation_items (length ms)) _ went' in
    let (n', each) = written_of-ok (put_each ms (u32 (length ms) w) budget) w' put in
    let bound : length ms ≤ 1000000 = ground arith in
    let unlimited : (if ltb limit (length ms) then fails message else ok tt) ≡ ok tt =
      ground arith in
    (
      n',
      then_wrote _ (wrote_count w (length ms) max_allocation_items bound) (
          then_wrote _ (gave unlimited) (
            then_wrote _
              (allocated (u32 (length ms) w) (length ms) max_allocation_items budget took)
              (wrote_each ms (u32 (length ms) w) w' budget n' h each))),
    )
