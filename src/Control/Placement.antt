-- ===== src/Control/Placement.antt =====
-- crates/execution/dtg-control/src/placement.rs
pub mod Valid
use dtgproxy.Base.{
  ℕ, Bool, true, false, not, ◌&&◌, ◌||◌, List, [], ◌∷◌, any, is_nil, ◌==◌, if◌then◌else◌, Option,
  none, some, Result, ok, err, ◌>>=◌, ◌>>◌, reject,
}
use dtgproxy.Base.Map.{Map, Set, get, insert, contains_key, nat_key, pair_key}
use dtgproxy.Storage.{ReplicaBinding, BackendClass, BindingRole, candidate, active, retiring}
use dtgproxy.Control.{ControlError, invalid_placement, mixed_backend_class, ReplicaBindingRecord}

pub record ShardPlacement : Type 0 where
  pub graph_id : ℕ
  pub shard_id : ℕ
  pub placement_epoch : ℕ
  pub active_generation : ℕ
  pub backend_class : BackendClass
  pub replicas : List ReplicaBindingRecord

abbrev pub generation_of : ReplicaBindingRecord → ℕ
generation_of r = r.binding.backend_generation

abbrev pub class_of : ReplicaBindingRecord → ℕ
class_of r = r.backend_class.digest

abbrev pub replica_key : ReplicaBindingRecord → ℕ × ℕ
replica_key r = (generation_of r, r.binding.replica_id)

abbrev pub is_retiring : BindingRole → Bool
is_retiring retiring = true
is_retiring _ = false

-- The value that `insert` returns, compared with the one that was inserted.
abbrev pub differs : Option ℕ → ℕ → Bool
differs none d = false
differs (some e) d = not (e == d)

-- One round of the loop of `validate`, on the record that it looks at.
unfoldable pub check_replica :
    ShardPlacement
    → Map ℕ ℕ
    → Set (ℕ × ℕ)
    → ReplicaBindingRecord
    → Result ControlError (Map ℕ ℕ × Set (ℕ × ℕ))
check_replica p generation_classes replicas r = do
  reject
      (not (r.binding.graph_id == p.graph_id)
        || not (r.binding.shard_id == p.shard_id)
        || not (r.binding.placement_epoch == p.placement_epoch))
      (invalid_placement "binding identity does not match placement identity")
  reject (contains_key (replica_key r) replicas) (invalid_placement "duplicate replica binding")
  reject (differs (get (generation_of r) generation_classes) (class_of r)) mixed_backend_class
  (if generation_of r == p.active_generation
      then reject (is_retiring r.binding.role)
          (invalid_placement "active-generation replicas cannot be retiring")
      else reject (not (is_retiring r.binding.role))
          (invalid_placement "non-active generations must be retiring"))
  ok (insert (generation_of r) (class_of r) generation_classes, insert (replica_key r) tt replicas)

unfoldable pub check_replicas :
    ShardPlacement
    → Map ℕ ℕ
    → Set (ℕ × ℕ)
    → List ReplicaBindingRecord
    → Result ControlError (Map ℕ ℕ)
check_replicas p generation_classes replicas [] = ok generation_classes
check_replicas p generation_classes replicas (r ∷ rest) = do
  (classes, seen) ← check_replica p generation_classes replicas r
  check_replicas p classes seen rest

abbrev check_active : Option ℕ → ℕ → Result ControlError (Unit {0})
check_active (some digest) expected = if digest == expected then ok tt else err mixed_backend_class
check_active none expected = err (invalid_placement "active generation has no replica binding")

-- `ShardPlacement::validate`
unfoldable pub validate : ShardPlacement → Result ControlError (Unit {0})
validate p = do
  reject (is_nil p.replicas) (invalid_placement "at least one replica binding is required")
  generation_classes ← check_replicas p [] [] p.replicas
  check_active (get p.active_generation generation_classes) p.backend_class.digest

abbrev pub insert_classes : Map ℕ ℕ → List ReplicaBindingRecord → Map ℕ ℕ
insert_classes classes [] = classes
insert_classes classes (r ∷ rest) =
    insert_classes (insert (generation_of r) (class_of r) classes) rest

unfoldable pub generation_classes : ShardPlacement → Map ℕ ℕ
generation_classes p =
    insert_classes (insert p.active_generation p.backend_class.digest []) p.replicas
