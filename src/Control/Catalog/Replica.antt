-- ===== src/Control/Catalog/Replica.antt =====
-- `CatalogReplica` of crates/execution/dtg-control/src/catalog.rs
pub mod Install
use native.Mathlib.Decide.{ℕ_discrete}
use dtgproxy.Base.{
  ℕ, Bool, true, false, not, List, [], ◌∷◌, ltb, ◌==◌, if◌then◌else◌, is_dec, Option, none, some,
  Result, ok, err, ◌>>=◌, ◌>>◌, reject,
}
use dtgproxy.Base.Map.{Map, get, values, nat_key, pair_key}
use dtgproxy.Base.Strings.{String-discrete}
use dtgproxy.Control.{
  ControlError, catalog_revision_regression, catalog_revision_conflict, catalog_epoch_regression,
}
use dtgproxy.Control.Placement.{ShardPlacement, validate}
use dtgproxy.Control.Catalog.{CatalogState}

-- The derived `PartialEq`.
pub CatalogState-discrete : Discrete CatalogState
CatalogState-discrete = hlevel (ℕ_discrete, String-discrete)

pub record CatalogReplica : Type 0 where
  pub snapshot : CatalogState

pub validate_all : List ShardPlacement → Result ControlError (Unit {0})
validate_all [] = ok tt
validate_all (p ∷ rest) = do validate p; validate_all rest

-- `CatalogReplica::new`
pub catalog_replica : CatalogState → Result ControlError CatalogReplica
catalog_replica snapshot = do
  validate_all (values snapshot.placements)
  ok (record { snapshot = snapshot })

abbrev epoch_kept : ℕ × ℕ → ShardPlacement → Option ShardPlacement → Result ControlError (Unit {0})
epoch_kept key next none = ok tt
epoch_kept key next (some current) =
    reject (ltb next.placement_epoch current.placement_epoch)
      (catalog_epoch_regression key.0 key.1 current.placement_epoch next.placement_epoch)

-- The loop of `install`.
unfoldable pub check_entries :
    Map (ℕ × ℕ) ShardPlacement → Map (ℕ × ℕ) ShardPlacement → Result ControlError (Unit {0})
check_entries current [] = ok tt
check_entries current ((key, next) ∷ rest) = do
  validate next
  epoch_kept key next (get key current)
  check_entries current rest

-- `CatalogReplica::install`: the replica afterwards, and what the method returns.
unfoldable pub install : CatalogReplica → CatalogState → Result ControlError (CatalogReplica × Bool)
install r snapshot = do
  reject (ltb snapshot.version r.snapshot.version)
      (catalog_revision_regression r.snapshot.version snapshot.version)
  (if snapshot.version == r.snapshot.version
      then (if is_dec (CatalogState-discrete snapshot r.snapshot)
          then ok (r, false)
          else err (catalog_revision_conflict snapshot.version))
      else (do
        check_entries r.snapshot.placements snapshot.placements
        let installed : CatalogReplica = record { snapshot = snapshot }
        ok (installed, true)))
