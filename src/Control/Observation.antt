-- ===== src/Control/Observation.antt =====
-- crates/execution/dtg-control/src/observation.rs
use dtgproxy.Base.{
  ℕ, Bool, false, not, String, List, [], ◌∷◌, all, ◌==◌, if◌then◌else◌, Option, none, some, Result,
  ok, ◌>>◌, reject,
}
use dtgproxy.Base.Map.{Map, Set, get, insert, contains_key, nat_key, pair_key}
use dtgproxy.Base.Strings.{chars, is_whitespace, text_key}
use dtgproxy.Kernel.{TransactionTime}
use dtgproxy.Storage.{ReplicaBinding}
use dtgproxy.Control.{ControlError, invalid_observation, mixed_backend_class}
use dtgproxy.Control.Placement.{differs}

pub data ObservedReplicaLifecycle : Type 0 where
  allocated learner voter sealed : ObservedReplicaLifecycle

pub record ObservedReplicaState : Type 0 where
  pub node_id : String
  pub catalog_version : ℕ
  pub binding : ReplicaBinding
  pub backend_class_digest : ℕ
  pub lifecycle : ObservedReplicaLifecycle
  pub applied_index : ℕ
  pub leader_id : Option ℕ
  pub closed_timestamp : Option TransactionTime
  pub caught_up : Bool

-- `node_id.trim().is_empty()`
abbrev is_blank : String → Bool
is_blank text = all is_whitespace (chars text)

-- `ObservedReplicaState::new`
unfoldable pub observed_replica_state :
    String
    → ℕ
    → ReplicaBinding
    → ℕ
    → ObservedReplicaLifecycle
    → Result ControlError ObservedReplicaState
observed_replica_state node_id catalog_version binding backend_class_digest lifecycle = do
  reject (is_blank node_id) (invalid_observation "node identifier is empty")
  reject (not (backend_class_digest == binding.backend_class_digest))
      (invalid_observation "reported backend class does not match the binding")
  ok (record {
    node_id = node_id;
    catalog_version = catalog_version;
    binding = binding;
    backend_class_digest = backend_class_digest;
    lifecycle = lifecycle;
    applied_index = 0;
    leader_id = none;
    closed_timestamp = none;
    caught_up = false;
  })

abbrev leads : Option ℕ → ℕ → Bool
leads none replica_id = false
leads (some leader) replica_id = leader == replica_id

abbrev pub is_leader : ObservedReplicaState → Bool
is_leader o = leads o.leader_id o.binding.replica_id

abbrev with_leader : ObservedReplicaState → Bool → ObservedReplicaState
with_leader o leader = record o { leader_id = if leader then some o.binding.replica_id else none }

abbrev with_applied_index : ObservedReplicaState → ℕ → ObservedReplicaState
with_applied_index o applied_index = record o { applied_index = applied_index }

abbrev with_leader_id : ObservedReplicaState → Option ℕ → ObservedReplicaState
with_leader_id o leader_id = record o { leader_id = leader_id }

abbrev with_closed_timestamp : ObservedReplicaState → Option TransactionTime → ObservedReplicaState
with_closed_timestamp o closed_timestamp = record o { closed_timestamp = closed_timestamp }

abbrev with_caught_up : ObservedReplicaState → Bool → ObservedReplicaState
with_caught_up o caught_up = record o { caught_up = caught_up }

pub record ObservedNodeState : Type 0 where
  pub node_id : String
  pub catalog_version : ℕ
  pub replicas : List ObservedReplicaState

-- `ObservedNodeState::new`
unfoldable pub observed_node_state :
    String → ℕ → List ObservedReplicaState → Result ControlError ObservedNodeState
observed_node_state node_id catalog_version replicas = do
  reject (is_blank node_id) (invalid_observation "node identifier is empty")
  ok (record { node_id = node_id; catalog_version = catalog_version; replicas = replicas })

abbrev pub ObservationKey : Type 0
ObservationKey = ℕ × (ℕ × (ℕ × ℕ))

-- `key_for_binding` of reconcile.rs
abbrev pub key_for_binding : ReplicaBinding → ObservationKey
key_for_binding b = (b.graph_id, (b.shard_id, (b.backend_generation, b.replica_id)))

abbrev pub observation_key : ObservedReplicaState → ObservationKey
observation_key o = key_for_binding o.binding

-- The loop of `ObservedNodeState::validate`.
unfoldable pub check_observations :
    ObservedNodeState
    → Map (ℕ × (ℕ × ℕ)) ℕ
    → Set ObservationKey
    → List ObservedReplicaState
    → Result ControlError (Unit {0})
check_observations node classes replicas [] = ok tt
check_observations node classes replicas (r ∷ rest) = do
  let b = r.binding
  let group : ℕ × (ℕ × ℕ) = (b.graph_id, (b.shard_id, b.backend_generation))
  reject (not (text_key.same r.node_id node.node_id))
      (invalid_observation "replica observation belongs to another node")
  reject (not (r.catalog_version == node.catalog_version))
      (invalid_observation "replica and node catalog versions differ")
  reject (differs (get group classes) r.backend_class_digest) mixed_backend_class
  reject (contains_key (observation_key r) replicas)
      (invalid_observation "duplicate replica observation")
  check_observations node (insert group r.backend_class_digest classes)
      (insert (observation_key r) tt replicas) rest

unfoldable pub validate_node : ObservedNodeState → Result ControlError (Unit {0})
validate_node node = check_observations node [] [] node.replicas
