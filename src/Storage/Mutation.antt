-- ===== src/Storage/Mutation.antt =====
-- crates/storage/dtg-storage/src/mutation.rs: the typed mutations and their checked constructors,
-- with `Value` of crates/kernel/dtg-kernel/src/value.rs. An id is the number that its newtype
-- holds; a text is a native string.
use dtgproxy.Base.Strings.{is_empty}
use dtgproxy.Base.{ℕ, String, Bool, List, any, ℤ, Result, ok, ◌>>◌, reject, ◌==◌}
use dtgproxy.Base.Map.{Map, keys}
use dtgproxy.Kernel.{TransactionTime, ValidInterval}
use dtgproxy.Storage.{StorageError, invalid_mutation, invalid_batch}

mutual
  pub data Value : Type 0 where
    null : Value
    boolean : Bool → Value
    integer : ℤ → Value
    float_bits : ℕ → Value
    bytes : List ℕ → Value
    string : String → Value
    list : Values → Value
    map : Fields → Value

  pub data Values : Type 0 where
    no_values : Values
    value : Value → Values → Values

  pub data Fields : Type 0 where
    no_fields : Fields
    field : String → Value → Fields → Fields

abbrev pub Properties : Type 0
Properties = Map String Value

pub record VertexVersion : Type 0 where
  pub id : ℕ
  pub version : ℕ
  pub valid_time : ValidInterval
  pub transaction_time : TransactionTime
  pub properties : Properties

pub record EdgeVersion : Type 0 where
  pub id : ℕ
  pub source : ℕ
  pub target : ℕ
  pub edge_type : String
  pub version : ℕ
  pub valid_time : ValidInterval
  pub transaction_time : TransactionTime
  pub properties : Properties

-- `VertexTombstone` and `EdgeTombstone` have the same fields.
pub record Tombstone : Type 0 where
  pub id : ℕ
  pub version : ℕ
  pub transaction_time : TransactionTime

pub data TransactionState : Type 0 where
  prepared committed aborted : TransactionState

pub record TransactionRecord : Type 0 where
  pub id : ℕ
  pub state : TransactionState
  pub transaction_time : TransactionTime
  pub record_digest : ℕ

pub record ReplicaMetadata : Type 0 where
  pub name : String
  pub value : Value

pub data LogicalMutation : Type 0 where
  put_vertex : VertexVersion → LogicalMutation
  delete_vertex : Tombstone → LogicalMutation
  put_edge : EdgeVersion → LogicalMutation
  delete_edge : Tombstone → LogicalMutation
  put_transaction : TransactionRecord → LogicalMutation
  put_replica_metadata : ReplicaMetadata → LogicalMutation

unfoldable pub validate_properties : Properties → Result StorageError (Unit {0})
validate_properties properties =
    reject (any is_empty (keys properties)) (invalid_mutation "property names must be nonempty")

-- `VertexVersion::new`
unfoldable pub new_vertex : VertexVersion → Result StorageError VertexVersion
new_vertex v = do validate_properties v.properties; ok v

-- `EdgeVersion::new`
unfoldable pub new_edge : EdgeVersion → Result StorageError EdgeVersion
new_edge e = do
  reject (is_empty e.edge_type) (invalid_mutation "edge type must be nonempty")
  validate_properties e.properties
  ok e

-- `TransactionRecord::new`
unfoldable pub new_transaction_record : TransactionRecord → Result StorageError TransactionRecord
new_transaction_record r = do
  reject (r.record_digest == 0) (invalid_mutation "transaction record digest must be nonzero")
  ok r

-- `ReplicaMetadata::new`
unfoldable pub new_replica_metadata : String → Value → Result StorageError ReplicaMetadata
new_replica_metadata name v = do
  reject (is_empty name) (invalid_mutation "replica metadata name must be nonempty")
  ok (record { name = name; value = v })

-- `VertexId::new`
unfoldable pub vertex_id : ℕ → Result StorageError ℕ
vertex_id n = do reject (n == 0) (invalid_mutation "vertex identifier must be nonzero"); ok n

-- `EdgeId::new`
unfoldable pub edge_id : ℕ → Result StorageError ℕ
edge_id n = do reject (n == 0) (invalid_mutation "edge identifier must be nonzero"); ok n

-- `CommandId::new`
unfoldable pub command_id : ℕ → Result StorageError ℕ
command_id n = do reject (n == 0) (invalid_batch "command identifier must be nonzero"); ok n
