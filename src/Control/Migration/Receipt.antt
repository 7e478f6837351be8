-- ===== src/Control/Migration/Receipt.antt =====
-- The receipts of crates/execution/dtg-control/src/migration.rs.
use native.Mathlib.Decide.{ℕ_discrete}
use dtgproxy.Base.{
  ℕ, ◌≡◌, ◌↔◌, Bool, true, false, not, ◌||◌, Option, none, some, Result, ok, ◌>>◌, reject, ltb,
  ◌==◌, arith,
}
use dtgproxy.Base.Map.{Key}
use dtgproxy.Control.{
  ControlError, invalid_migration, invalid_migration_receipt, migration_digest_mismatch,
}

-- `MigrationId::new`
unfoldable pub migration_id : ℕ → Result ControlError ℕ
migration_id value = do
  reject (value == 0) (invalid_migration "migration identifier is zero")
  ok value

pub data MigrationReceiptKind : Type 0 where
  verified forward_mirrored reverse_mirrored cleanup : MigrationReceiptKind

-- The derived order is that of the declaration.
abbrev pub rank : MigrationReceiptKind → ℕ
rank verified = 0
rank forward_mirrored = 1
rank reverse_mirrored = 2
rank cleanup = 3

abbrev same_kind : MigrationReceiptKind → MigrationReceiptKind → Bool
same_kind a b = rank a == rank b

pub same_kind_iff : (a b : MigrationReceiptKind) → (same_kind a b ≡ true) ↔ (a ≡ b)
same_kind_iff a b = ground arith

instance abbrev pub kind_key : Key MigrationReceiptKind
kind_key = record {
  less = λ a b. ltb (rank a) (rank b);
  same = same_kind;
  same_iff = same_kind_iff;
}

pub record MigrationReceipt : Type 0 where
  pub kind : MigrationReceiptKind
  pub migration_id : ℕ
  pub replica_id : ℕ
  pub catalog_version : ℕ
  pub source_generation : ℕ
  pub target_generation : ℕ
  pub target_backend_class_digest : ℕ
  pub applied_index : ℕ
  pub logical_digest : ℕ
  pub owner_identity : Option ℕ
  pub pins_released : Bool

-- The derived `PartialEq`.
pub MigrationReceipt-discrete : Discrete MigrationReceipt
MigrationReceipt-discrete = hlevel ℕ_discrete

-- What the constructors of receipts share: the migration, and the replica that reports.
pub record ReceiptScope : Type 0 where
  pub migration_id : ℕ
  pub replica_id : ℕ
  pub catalog_version : ℕ
  pub source_generation : ℕ
  pub target_generation : ℕ
  pub target_backend_class_digest : ℕ

abbrev receipt_of : MigrationReceiptKind → ReceiptScope → ℕ → ℕ → Option ℕ → Bool → MigrationReceipt
receipt_of kind s applied_index logical_digest owner_identity pins_released = record {
  kind = kind;
  migration_id = s.migration_id;
  replica_id = s.replica_id;
  catalog_version = s.catalog_version;
  source_generation = s.source_generation;
  target_generation = s.target_generation;
  target_backend_class_digest = s.target_backend_class_digest;
  applied_index = applied_index;
  logical_digest = logical_digest;
  owner_identity = owner_identity;
  pins_released = pins_released;
}

unfoldable pub proof :
    MigrationReceiptKind → ReceiptScope → ℕ → ℕ → Result ControlError MigrationReceipt
proof kind s applied_index logical_digest = do
  reject (applied_index == 0 || s.target_backend_class_digest == 0 || logical_digest == 0)
      invalid_migration_receipt
  ok (receipt_of kind s applied_index logical_digest none false)

unfoldable pub dual_apply :
    MigrationReceiptKind → ReceiptScope → ℕ → ℕ → ℕ → ℕ → Result ControlError MigrationReceipt
dual_apply kind s left_applied_index left_digest right_applied_index right_digest = do
  reject (not (left_applied_index == right_applied_index) || not (left_digest == right_digest))
      migration_digest_mismatch
  proof kind s left_applied_index left_digest

-- `MigrationReceipt::verified`
abbrev pub verified_receipt : ReceiptScope → ℕ → ℕ → Result ControlError MigrationReceipt
verified_receipt s applied_index logical_digest = proof verified s applied_index logical_digest

-- `MigrationReceipt::mirrored`
abbrev pub mirrored_receipt : ReceiptScope → ℕ → ℕ → ℕ → ℕ → Result ControlError MigrationReceipt
mirrored_receipt s source_applied_index source_digest target_applied_index target_digest =
    dual_apply forward_mirrored s source_applied_index source_digest target_applied_index
      target_digest

-- `MigrationReceipt::reverse_mirrored`
abbrev pub reverse_mirrored_receipt :
    ReceiptScope → ℕ → ℕ → ℕ → ℕ → Result ControlError MigrationReceipt
reverse_mirrored_receipt s target_applied_index target_digest retained_applied_index
      retained_digest =
    dual_apply reverse_mirrored s target_applied_index target_digest retained_applied_index
      retained_digest

-- `MigrationReceipt::cleanup`
abbrev pub cleanup_receipt : ReceiptScope → ℕ → ℕ → ℕ → MigrationReceipt
cleanup_receipt s applied_index logical_digest owner_identity =
    receipt_of cleanup s applied_index logical_digest (some owner_identity) true
