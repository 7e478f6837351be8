-- ===== src/Storage.antt =====
-- crates/storage/dtg-storage/src: bindings (binding.rs), capability manifests (capability.rs),
-- errors (error.rs) and typed mutations (mutation.rs, in the child). A `Digest32` is the number
-- that its 32 bytes spell.
pub mod Messages
pub mod Mutation
pub mod Replica
use dtgproxy.Base.Strings.{String-discrete}
use dtgproxy.Base.{ℕ, String, List}

pub data ProviderKind : Type 0 where
  fjall postgresql kuzu : ProviderKind
  remote : String → ProviderKind

pub ProviderKind-discrete : Discrete ProviderKind
ProviderKind-discrete = hlevel String-discrete

pub data DurabilityPolicy : Type 0 where
  durable_commit durable_commit_with_replica_sync : DurabilityPolicy

pub record CapabilityManifest : Type 0 where
  pub names : List String
  pub digest : ℕ

pub record BackendClass : Type 0 where
  pub provider_kind : ProviderKind
  pub contract_version : ℕ
  pub layout_version : ℕ
  pub durability_policy : DurabilityPolicy
  pub required_capabilities : CapabilityManifest
  pub digest : ℕ

pub data BindingRole : Type 0 where
  candidate active retiring : BindingRole

pub record ReplicaBinding : Type 0 where
  pub cluster_id : ℕ
  pub graph_id : ℕ
  pub shard_id : ℕ
  pub placement_epoch : ℕ
  pub replica_id : ℕ
  pub backend_generation : ℕ
  pub backend_class_digest : ℕ
  pub provider_kind : ProviderKind
  pub contract_version : ℕ
  pub layout_version : ℕ
  pub capability_digest : ℕ
  pub namespace_id : String
  pub endpoint_profile_ref : String
  pub credential_ref : String
  pub role : BindingRole

pub data StorageError : Type 0 where
  invalid_binding invalid_capability invalid_mutation invalid_batch : String → StorageError
  injected_apply_failure : ℕ → StorageError
  stale_binding namespace_owner_mismatch : ReplicaBinding → ReplicaBinding → StorageError
  non_monotonic_index : ℕ → ℕ → StorageError
  replay_mismatch : ℕ → StorageError
  read_fence_unavailable : ℕ → ℕ → StorageError
  capability_drift unsupported : StorageError
  corrupt_snapshot : String → StorageError
  snapshot_identity_mismatch snapshot_not_exhausted : StorageError
  invalid_consensus invalid_artifact : String → StorageError
  not_found : StorageError
  tck_violation internal : String → StorageError
