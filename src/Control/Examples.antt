-- ===== src/Control/Examples.antt =====
-- Runs of the control crate at concrete inputs.
use dtgproxy.Base.{Bool, ℕ, ◌≡◌, ◌↔◌, refl, true, [], ◌∷◌, arith, ok, err}
use dtgproxy.Base.Map.{get, insert, contains_key, nat_key, pair_key}
use dtgproxy.Storage.{ReplicaBinding, BackendClass, BindingRole, active, fjall, durable_commit}
use dtgproxy.Control.{ReplicaBindingRecord, stale_catalog}
use dtgproxy.Control.Placement.{
  ShardPlacement, validate, check_replicas, check_replica, generation_classes,
}
use dtgproxy.Control.Placement.Valid.{IsValid, validate_iff}
use dtgproxy.Control.Catalog.{
  put_placement, pin_retention, CatalogState, new_catalog, apply, put, pin, merge_classes,
}
use dtgproxy.Control.Catalog.History.{run, generation_class_fixed, version_used_once}
use dtgproxy.Control.Catalog.Retention.{Held, PinSpec, pins_refine, pinned_generation_stays}
use dtgproxy.Control.Catalog.Invariant.{IsWellFormed, initial-IsWellFormed, apply-IsWellFormed}
use dtgproxy.Control.Catalog.Replica.{CatalogReplica, catalog_replica, install, check_entries}
use dtgproxy.Control.Catalog.Replica.Install.{
  replica_accepts_runs, Installed, install-Installed, older_epoch_strands,
}
use dtgproxy.Base.{none, inl, List}
use dtgproxy.Storage.{retiring}
use dtgproxy.Control.Observation.{
  ObservedReplicaLifecycle, voter, sealed, ObservedReplicaState, ObservedNodeState, validate_node,
  check_observations,
}
use dtgproxy.Control.Reconcile.{
  Observations, delete_namespace, reconcile_placement, reconcile, collect_observations,
  collect_replicas,
}
use dtgproxy.Control.Reconcile.Passes.{IsSafeDeletion, reconcile-IsSafeDeletion}
use dtgproxy.Control.Reconcile.Settled.{IsServing, serving_placement-unchanged}

abbrev class : BackendClass
class = record {
  provider_kind = fjall;
  contract_version = 1;
  layout_version = 1;
  durability_policy = durable_commit;
  required_capabilities = record { names = []; digest = 77 };
  digest = 88;
}

abbrev binding : ℕ → ℕ → BindingRole → ReplicaBinding
binding epoch generation role = record {
  cluster_id = 1;
  graph_id = 2;
  shard_id = 3;
  placement_epoch = epoch;
  replica_id = 4;
  backend_generation = generation;
  backend_class_digest = 88;
  provider_kind = fjall;
  contract_version = 1;
  layout_version = 1;
  capability_digest = 77;
  namespace_id = "shard-3";
  endpoint_profile_ref = "local";
  credential_ref = "vault://shard";
  role = role;
}

abbrev bound : ℕ → ℕ → BindingRole → ReplicaBindingRecord
bound epoch generation role = record {
  binding = binding epoch generation role;
  backend_class = class;
}

abbrev placement : ℕ → ShardPlacement
placement epoch = record {
  graph_id = 2;
  shard_id = 3;
  placement_epoch = epoch;
  active_generation = 1;
  backend_class = class;
  replicas = bound epoch 1 active ∷ [];
}

valid_example : (validate (placement 5) ≡ ok tt) ↔ IsValid (placement 5)
valid_example = validate_iff (placement 5)

abbrev with_placement : ℕ → ℕ → CatalogState
with_placement version epoch = record {
  version = version;
  placements = ((2, 3), placement epoch) ∷ [];
  lineage = ((2, 3), record { generation = 1; backend_class_digest = 88 } ∷ []) ∷ [];
  retention_pins = [];
}

abbrev with_pin : CatalogState
with_pin = record {
  version = 2;
  placements = ((2, 3), placement 5) ∷ [];
  lineage = ((2, 3), record { generation = 1; backend_class_digest = 88 } ∷ []) ∷ [];
  retention_pins = ((2, (3, 1)), ("job", tt) ∷ []) ∷ [];
}

put_first : apply new_catalog (put_placement 0 (placement 5)) ≡ ok (with_placement 1 5)
unfolding apply put merge_classes validate check_replicas check_replica generation_classes get
    insert
put_first = refl

put_older : apply (with_placement 1 5) (put_placement 1 (placement 4)) ≡ ok (with_placement 2 4)
unfolding apply put merge_classes validate check_replicas check_replica generation_classes get
    insert
put_older = refl

pin_first : apply (with_placement 1 5) (pin_retention 1 2 3 1 "job") ≡ ok with_pin
unfolding apply pin get insert
pin_first = refl

IsWellFormed-example : IsWellFormed (with_placement 1 5)
IsWellFormed-example =
    apply-IsWellFormed new_catalog (put_placement 0 (placement 5)) (with_placement 1 5) put_first
      initial-IsWellFormed

class_fixed_example : ◌≡◌ {A = ℕ} 88 88
unfolding run generation_classes get insert
class_fixed_example =
    generation_class_fixed new_catalog (with_placement 1 5) (with_placement 1 5)
      (with_placement 2 4) 0 1 (placement 5) (placement 4) [] 1 88 88 put_first refl put_older refl
      refl refl refl

used_once_example :
    apply (with_placement 1 5) (pin_retention 0 2 3 1 "job") ≡ err (stale_catalog 0 1)
unfolding run
used_once_example =
    version_used_once new_catalog (with_placement 1 5) (with_placement 1 5)
      (put_placement 0 (placement 5)) (pin_retention 0 2 3 1 "job") [] put_first refl refl

pins_example :
    Held with_pin (2, (3, 1)) "job"
    ↔ PinSpec (pin_retention 1 2 3 1 "job") (Held (with_placement 1 5)) (2, (3, 1)) "job"
pins_example =
    pins_refine (with_placement 1 5) (pin_retention 1 2 3 1 "job") with_pin (2, (3, 1)) "job"
      pin_first

abbrev pin_kept : CatalogState
pin_kept = record with_pin { version = 3; placements = ((2, 3), placement 6) ∷ [] }

put_pinned : apply with_pin (put_placement 2 (placement 6)) ≡ ok pin_kept
unfolding apply put merge_classes validate check_replicas check_replica generation_classes get
    insert
put_pinned = refl

stays_example : contains_key 1 (generation_classes (placement 6)) ≡ true
unfolding get insert generation_classes
stays_example =
    pinned_generation_stays with_pin pin_kept 2 (placement 5) (placement 6) 1 put_pinned refl refl
      refl

accepts_example :
    catalog_replica (with_placement 1 5) ≡ ok (record { snapshot = with_placement 1 5 })
unfolding run
accepts_example =
    replica_accepts_runs (put_placement 0 (placement 5) ∷ []) (with_placement 1 5) (rw put_first)

abbrev replica_of : CatalogState → CatalogReplica
replica_of s = record { snapshot = s }

installs : install (replica_of (with_placement 1 5)) pin_kept ≡ ok (replica_of pin_kept, true)
unfolding install check_entries validate check_replicas check_replica get insert
installs = refl

install_example : Installed (replica_of (with_placement 1 5)) pin_kept (replica_of pin_kept) true
install_example =
    install-Installed (replica_of (with_placement 1 5)) pin_kept (replica_of pin_kept) true installs

older_valid : validate (placement 4) ≡ ok tt
unfolding validate check_replicas check_replica get insert
older_valid = refl

strands_example :
    (s' : CatalogState) × (apply (with_placement 1 5) (put_placement 1 (placement 4)) ≡ ok s')
    × (¬ (
        (r' : CatalogReplica) × (moved : Bool) × (install
            (record { snapshot = with_placement 1 5 })
            s'
          ≡ ok (r', moved))))
unfolding get generation_classes insert
strands_example =
    older_epoch_strands (with_placement 1 5) (placement 5) (placement 4) IsWellFormed-example
      (omega arith) refl older_valid refl (omega arith)

abbrev moving : ShardPlacement
moving = record {
  graph_id = 2;
  shard_id = 3;
  placement_epoch = 5;
  active_generation = 2;
  backend_class = class;
  replicas = bound 5 2 active ∷ bound 5 1 retiring ∷ [];
}

abbrev seen_at : ℕ → BindingRole → ObservedReplicaLifecycle → ObservedReplicaState
seen_at generation role lifecycle = record {
  node_id = "node";
  catalog_version = 2;
  binding = binding 5 generation role;
  backend_class_digest = 88;
  lifecycle = lifecycle;
  applied_index = 9;
  leader_id = none;
  closed_timestamp = none;
  caught_up = true;
}

abbrev with_moving : CatalogState
with_moving = record {
  version = 2;
  placements = ((2, 3), moving) ∷ [];
  lineage =
      (
        (2, 3),
        record { generation = 1; backend_class_digest = 88 }
            ∷ record { generation = 2; backend_class_digest = 88 }
            ∷ [],
      )
      ∷ [];
  retention_pins = [];
}

put_moving : apply (with_placement 1 5) (put_placement 1 moving) ≡ ok with_moving
unfolding apply put merge_classes validate check_replicas check_replica generation_classes get
    insert
put_moving = refl

abbrev nodes : List ObservedNodeState
nodes =
    record {
      node_id = "node";
      catalog_version = 2;
      replicas = seen_at 1 retiring sealed ∷ seen_at 2 active voter ∷ [];
    }
    ∷ []

planned : reconcile with_moving nodes ≡ ok (delete_namespace 2 3 5 1 4 "shard-3" ∷ [])
unfolding reconcile reconcile_placement collect_observations collect_replicas validate_node
    check_observations get insert
planned = refl

IsSafeDeletion-example : IsSafeDeletion with_moving nodes 1 "shard-3"
IsSafeDeletion-example =
    reconcile-IsSafeDeletion with_moving nodes (delete_namespace 2 3 5 1 4 "shard-3" ∷ []) 2 3 5 1 4
      "shard-3"
      (apply-IsWellFormed (with_placement 1 5) (put_placement 1 moving) with_moving put_moving
        IsWellFormed-example)
      planned (inl refl)

abbrev settled : Observations
settled = ((2, (3, (1, 4))), seen_at 1 active voter) ∷ []

serves_now : IsServing (placement 5) settled (bound 5 1 active)
unfolding get
serves_now = record {
  stays = refl;
  observation = seen_at 1 active voter;
  seen = refl;
  votes = refl;
}

unchanged_example : reconcile_placement (with_placement 1 5) (placement 5) settled ≡ []
unchanged_example =
    serving_placement-unchanged (with_placement 1 5) (placement 5) settled (serves_now, tt)
