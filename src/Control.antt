-- ===== src/Control.antt =====
-- crates/execution/dtg-control/src: errors (lib.rs) and binding records (binding.rs).
pub mod Placement
pub mod Catalog
pub mod Observation
pub mod Reconcile
pub mod Migration
mod Examples
pub mod Reference
use dtgproxy.Base.{
  ℕ, suc, Bool, true, false, not, ◌&&◌, ◌||◌, ◌<◌, String, List, [], ◌∷◌, any, all, ltb, leb, ◌==◌,
  if◌then◌else◌, Option, none, some, Result, ok, err, ◌>>=◌, ◌>>◌, reject, is_dec,
}
use dtgproxy.Base.Strings.{chars, is_empty, is_whitespace, split_once, String-discrete}
use dtgproxy.Storage.{
  ReplicaBinding, BackendClass, ProviderKind, BindingRole, CapabilityManifest,
  ProviderKind-discrete,
}

pub data ControlError : Type 0 where
  plaintext_credential binding_backend_class_mismatch : ControlError
  invalid_placement : String → ControlError
  mixed_backend_class : ControlError
  invalid_observation : String → ControlError
  stale_catalog catalog_revision_regression : ℕ → ℕ → ControlError
  catalog_revision_conflict : ℕ → ControlError
  catalog_epoch_regression : ℕ → ℕ → ℕ → ℕ → ControlError
  invalid_action : String → ControlError
  unknown_action stale_action_lease lineage_conflict retention_pinned unknown_generation :
      ControlError
  stale_observation : ℕ → ℕ → ControlError
  version_overflow : ControlError
  invalid_migration : String → ControlError
  illegal_migration_transition invalid_migration_receipt incomplete_migration_receipts :
      ControlError
  migration_receipt_conflict migration_digest_mismatch migration_namespace_collision : ControlError
  migration_cleanup_fenced : ControlError

pub record ReplicaBindingRecord : Type 0 where
  pub binding : ReplicaBinding
  pub backend_class : BackendClass

abbrev in_scheme : ℕ → Bool
in_scheme byte =
    (leb b'a' byte && leb byte b'z')
    || (leb b'0' byte && leb byte b'9')
    || byte == b'+'
    || byte == b'-'
    || byte == b'.'

abbrev accepts_parts : Option (List ℕ × List ℕ) → Bool
accepts_parts none = false
accepts_parts (some ([], target)) = false
accepts_parts (some (scheme, [])) = false
accepts_parts (some (scheme, target)) = all in_scheme scheme && not (any is_whitespace target)

unfoldable pub is_external_reference : String → Bool
is_external_reference value = accepts_parts (split_once (chars "://") (chars value))

-- `ReplicaBindingRecord::new`
unfoldable pub replica_binding_record :
    ReplicaBinding → BackendClass → Result ControlError ReplicaBindingRecord
replica_binding_record binding backend_class = do
  reject (not (is_external_reference binding.credential_ref)) plaintext_credential
  reject
      (not (binding.backend_class_digest == backend_class.digest)
        || not (is_dec (ProviderKind-discrete binding.provider_kind backend_class.provider_kind))
        || not (binding.contract_version == backend_class.contract_version)
        || not (binding.layout_version == backend_class.layout_version)
        || not (binding.capability_digest == backend_class.required_capabilities.digest))
      binding_backend_class_mismatch
  ok (record { binding = binding; backend_class = backend_class })

-- `RetentionPin::new`: the text that the pin wraps.
unfoldable pub retention_pin : String → Result ControlError String
retention_pin value = do
  reject
      (is_empty value || ltb 255 (Prim.Native.String.len value) || any is_whitespace (chars value))
      (invalid_placement "invalid retention pin")
  ok value
