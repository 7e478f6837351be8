-- ===== src/Control/Reconcile.antt =====
-- crates/execution/dtg-control/src/reconcile.rs
pub mod Passes
pub mod Safety
pub mod Settled
use dtgproxy.Base.{
  ℕ, Bool, true, false, not, ◌&&◌, ◌||◌, String, List, [], ◌∷◌, ◌++◌, any, filter, flat_map,
  sort_by, ltb, ◌==◌, if◌then◌else◌, Option, none, some, Result, ok, err, ◌>>=◌, ◌>>◌, reject,
  is_some,
}
use dtgproxy.Base.Map.{Map, Set, get, insert, contains_key, values, keys, nat_key, pair_key}
use dtgproxy.Storage.{ReplicaBinding}
use dtgproxy.Control.{ControlError, ReplicaBindingRecord, stale_observation, invalid_observation}
use dtgproxy.Control.Placement.{ShardPlacement, generation_of, replica_key, is_retiring}
use dtgproxy.Control.Catalog.{CatalogState, is_generation_pinned}
use dtgproxy.Control.Observation.{
  ObservedReplicaLifecycle, allocated, learner, voter, sealed, ObservedReplicaState,
  ObservedNodeState, ObservationKey, observation_key, key_for_binding, is_leader, validate_node,
}

pub data ReconcileAction : Type 0 where
  allocate : ReplicaBinding → ReconcileAction
  start_learner promote : ℕ → ℕ → ℕ → ℕ → ℕ → ReconcileAction
  transfer_leader : ℕ → ℕ → ℕ → ℕ → ℕ → ReconcileAction
  seal : ℕ → ℕ → ℕ → ℕ → ℕ → ReconcileAction
  migrate : ℕ → ℕ → ℕ → ℕ → ℕ → ReconcileAction
  delete_namespace : ℕ → ℕ → ℕ → ℕ → ℕ → String → ReconcileAction

abbrev pub Observations : Type 0
Observations = Map ObservationKey ObservedReplicaState

-- The inner loop of `collect_observations`.
unfoldable pub collect_replicas :
    ℕ → Observations → List ObservedReplicaState → Result ControlError Observations
collect_replicas version observations [] = ok observations
collect_replicas version observations (r ∷ rest) = do
  reject (not (r.catalog_version == version)) (stale_observation version r.catalog_version)
  reject (contains_key (observation_key r) observations)
      (invalid_observation "replica was reported by multiple nodes")
  collect_replicas version (insert (observation_key r) r observations) rest

unfoldable pub collect_observations :
    ℕ → Observations → List ObservedNodeState → Result ControlError Observations
collect_observations version observations [] = ok observations
collect_observations version observations (node ∷ rest) = do
  validate_node node
  reject (not (node.catalog_version == version)) (stale_observation version node.catalog_version)
  collected ← collect_replicas version observations node.replicas
  collect_observations version collected rest

abbrev key_before : ReplicaBindingRecord → ReplicaBindingRecord → Bool
key_before a b = (pair_key {A = ℕ} {B = ℕ}).less (replica_key a) (replica_key b)

abbrev pub is_voter : ObservedReplicaLifecycle → Bool
is_voter voter = true
is_voter _ = false

abbrev pub is_sealed : ObservedReplicaLifecycle → Bool
is_sealed sealed = true
is_sealed _ = false

module _ (p : ShardPlacement) (observations : Observations) where
  abbrev pub observed : ReplicaBindingRecord → Option ObservedReplicaState
  observed r = get (key_for_binding r.binding) observations

  abbrev pub start_one : ReplicaBindingRecord → Option ObservedReplicaState → List ReconcileAction
  start_one r none = allocate r.binding ∷ []
  start_one r (some o) = elim o.lifecycle [
    | allocated ↦
        start_learner p.graph_id p.shard_id p.placement_epoch (generation_of r) r.binding.replica_id
        ∷ []
    | learner ↦
        if o.caught_up
        then promote p.graph_id p.shard_id p.placement_epoch (generation_of r) r.binding.replica_id
          ∷ []
        else []
    | _ ↦ []
  ]

  -- The first loop of `reconcile_placement`.
  abbrev pub start_or_promote : ReplicaBindingRecord → List ReconcileAction
  start_or_promote r = if is_retiring r.binding.role then [] else start_one r (observed r)

  abbrev pub serves : ReplicaBindingRecord → Bool
  serves r = generation_of r == p.active_generation && not (is_retiring r.binding.role)

  abbrev voter_id : Option ObservedReplicaState → List ℕ
  voter_id none = []
  voter_id (some o) = if is_voter o.lifecycle then o.binding.replica_id ∷ [] else []

  abbrev smaller : ℕ → Option ℕ → Option ℕ
  smaller n none = some n
  smaller n (some m) = if ltb m n then some m else some n

  abbrev least : List ℕ → Option ℕ
  least [] = none
  least (n ∷ ns) = smaller n (least ns)

  abbrev pub active_voter : List ReplicaBindingRecord → Option ℕ
  active_voter replicas = least (flat_map (λ r. voter_id (observed r)) (filter serves replicas))

  abbrev transfer_from :
      ℕ → ReplicaBindingRecord → Option ObservedReplicaState → List ReconcileAction
  transfer_from to r none = []
  transfer_from to r (some o) =
      if is_leader o
      then transfer_leader p.graph_id p.shard_id p.placement_epoch r.binding.replica_id to ∷ []
      else []

  -- The second loop, where some replica of the active generation votes.
  abbrev pub transfers : Option ℕ → List ReplicaBindingRecord → List ReconcileAction
  transfers none replicas = []
  transfers (some to) replicas =
      flat_map (λ r. if is_retiring r.binding.role then transfer_from to r (observed r) else [])
        replicas

  abbrev seal_one : ReplicaBindingRecord → Option ObservedReplicaState → List ReconcileAction
  seal_one r none = []
  seal_one r (some o) =
      if is_sealed o.lifecycle
      then []
      else seal p.graph_id p.shard_id p.placement_epoch (generation_of r) r.binding.replica_id ∷ []

  -- The third loop.
  abbrev pub seal_retiring : ReplicaBindingRecord → List ReconcileAction
  seal_retiring r = if is_retiring r.binding.role then seal_one r (observed r) else []

  abbrev votes_not : Option ObservedReplicaState → Bool
  votes_not none = true
  votes_not (some o) = not (is_voter o.lifecycle)

  abbrev pub active_incomplete : List ReplicaBindingRecord → Bool
  active_incomplete replicas = any (λ r. votes_not (observed r)) (filter serves replicas)

  abbrev old_generations : List ReplicaBindingRecord → Set ℕ → Set ℕ
  old_generations [] found = found
  old_generations (r ∷ rest) found =
      if not (generation_of r == p.active_generation) && is_some (observed r)
      then old_generations rest (insert (generation_of r) tt found)
      else old_generations rest found

  abbrev migrate_from : ℕ → List ReconcileAction
  migrate_from generation =
      migrate p.graph_id p.shard_id p.placement_epoch generation p.active_generation ∷ []

  abbrev pub migrations : List ReplicaBindingRecord → List ReconcileAction
  migrations replicas =
      if active_incomplete replicas
      then flat_map migrate_from (keys (old_generations replicas []))
      else []

  abbrev delete_one : ReplicaBindingRecord → Option ObservedReplicaState → List ReconcileAction
  delete_one r none = []
  delete_one r (some o) =
      if is_sealed o.lifecycle
      then delete_namespace p.graph_id p.shard_id p.placement_epoch (generation_of r)
          r.binding.replica_id r.binding.namespace_id
        ∷ []
      else []

  -- The last loop.
  abbrev pub delete_unpinned : CatalogState → ReplicaBindingRecord → List ReconcileAction
  delete_unpinned catalog r =
      if not (is_retiring r.binding.role)
        || is_generation_pinned catalog p.graph_id p.shard_id (generation_of r)
      then []
      else delete_one r (observed r)

abbrev pub sorted_replicas : ShardPlacement → List ReplicaBindingRecord
sorted_replicas p = sort_by key_before p.replicas

unfoldable pub reconcile_placement :
    CatalogState → ShardPlacement → Observations → List ReconcileAction
reconcile_placement catalog p observations =
    let replicas = sorted_replicas p in
    flat_map (start_or_promote p observations) replicas
    ++ (transfers p observations (active_voter p observations replicas) replicas
        ++ (flat_map (seal_retiring p observations) replicas
            ++ (migrations p observations replicas
                ++ flat_map (delete_unpinned p observations catalog) replicas)))

-- `Reconciler::reconcile`
unfoldable pub reconcile :
    CatalogState → List ObservedNodeState → Result ControlError (List ReconcileAction)
reconcile catalog observed_nodes = do
  observations ← collect_observations catalog.version [] observed_nodes
  ok (flat_map (λ p. reconcile_placement catalog p observations) (values catalog.placements))
