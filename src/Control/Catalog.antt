-- ===== src/Control/Catalog.antt =====
-- crates/execution/dtg-control/src/catalog.rs: the catalog and its commands.
pub mod Lineage
pub mod History
pub mod Retention
pub mod Invariant
pub mod Replica
pub mod Acceptance
use dtgproxy.Base.{
  ℕ, Bool, true, false, not, ◌&&◌, List, [], ◌∷◌, ◌++◌, any, is_nil, ltb, ◌==◌, if◌then◌else◌,
  String, Option, none, some, Result, ok, err, ◌>>=◌, ◌>>◌, reject, ok_or, checked_add, u64_max,
}
use dtgproxy.Base.Map.{
  Map, Set, Key, get, insert, remove, replace, keys, contains_key, or_empty, nat_key, pair_key,
}
use dtgproxy.Base.Strings.{text_key}
use dtgproxy.Control.{
  ControlError, stale_catalog, version_overflow, retention_pinned, lineage_conflict,
  unknown_generation,
}
use dtgproxy.Control.Placement.{ShardPlacement, validate, generation_classes}

pub record LineageEntry : Type 0 where
  pub generation : ℕ
  pub backend_class_digest : ℕ

pub data CatalogCommand : Type 0 where
  put_placement : ℕ → ShardPlacement → CatalogCommand
  pin_retention unpin_retention : ℕ → ℕ → ℕ → ℕ → String → CatalogCommand

abbrev pub expected_version : CatalogCommand → ℕ
expected_version (put_placement v _) = v
expected_version (pin_retention v _ _ _ _) = v
expected_version (unpin_retention v _ _ _ _) = v

pub record CatalogState : Type 0 where
  pub version : ℕ
  pub placements : Map (ℕ × ℕ) ShardPlacement
  pub lineage : Map (ℕ × ℕ) (List LineageEntry)
  pub retention_pins : Map (ℕ × (ℕ × ℕ)) (Set String)

abbrev pub new_catalog : CatalogState
new_catalog = record { version = 0; placements = []; lineage = []; retention_pins = [] }

-- `CatalogState::lineage`
abbrev pub lineage_of : CatalogState → ℕ → ℕ → List LineageEntry
lineage_of s graph_id shard_id = or_empty (get (graph_id, shard_id) s.lineage)

abbrev pub is_generation_pinned : CatalogState → ℕ → ℕ → ℕ → Bool
is_generation_pinned s graph_id shard_id generation =
    not (is_nil (or_empty (get (graph_id, (shard_id, generation)) s.retention_pins)))

abbrev pub has_generation : CatalogState → ℕ → ℕ → ℕ → Bool
has_generation s graph_id shard_id generation =
    any (λ entry. entry.generation == generation) (lineage_of s graph_id shard_id)

-- `lineage.iter().find(…)`, as far as it is read.
abbrev pub find_digest : ℕ → List LineageEntry → Option ℕ
find_digest generation [] = none
find_digest generation (entry ∷ rest) =
    if entry.generation == generation
    then some entry.backend_class_digest
    else find_digest generation rest

abbrev pub merge_found :
    List LineageEntry → ℕ → ℕ → Option ℕ → Result ControlError (List LineageEntry)
merge_found lineage generation digest (some known) =
    if known == digest then ok lineage else err lineage_conflict
merge_found lineage generation digest none =
    let entry : LineageEntry = record { generation = generation; backend_class_digest = digest } in
    ok (lineage ++ (entry ∷ []))

-- The loop of `put_placement` over the new classes.
unfoldable pub merge_classes : List LineageEntry → Map ℕ ℕ → Result ControlError (List LineageEntry)
merge_classes lineage [] = ok lineage
merge_classes lineage ((generation, digest) ∷ rest) = do
  merged ← merge_found lineage generation digest (find_digest generation lineage)
  merge_classes merged rest

-- `sort_by_key` keeps the order of equal keys.
abbrev pub place : LineageEntry → List LineageEntry → List LineageEntry
place entry [] = entry ∷ []
place entry (first ∷ rest) =
    if ltb first.generation entry.generation then first ∷ place entry rest else entry ∷ first ∷ rest

abbrev pub sort_by_generation : List LineageEntry → List LineageEntry
sort_by_generation [] = []
sort_by_generation (entry ∷ rest) = place entry (sort_by_generation rest)

-- The test of `put_placement` on the placement that it is about to replace.
abbrev pub drops_pinned : CatalogState → ShardPlacement → Option ShardPlacement → Bool
drops_pinned s placement none = false
drops_pinned s placement (some previous) =
    any
      (λ generation.
        not (contains_key generation (generation_classes placement))
        && is_generation_pinned s placement.graph_id placement.shard_id generation)
      (keys (generation_classes previous))

-- `CatalogState::put_placement`
unfoldable pub put : CatalogState → ShardPlacement → Result ControlError CatalogState
put s placement = do
  validate placement
  reject (drops_pinned s placement (get (placement.graph_id, placement.shard_id) s.placements))
      retention_pinned
  lineage ←
      merge_classes (lineage_of s placement.graph_id placement.shard_id)
        (generation_classes placement)
  ok (record s {
    lineage =
        insert (placement.graph_id, placement.shard_id) (sort_by_generation lineage) s.lineage;
    placements = insert (placement.graph_id, placement.shard_id) placement s.placements;
  })

module _ {K N : Type 0} ⦃o : Key K⦄ ⦃e : Key N⦄ where
  -- `entry(key).or_default().insert(pin)`
  abbrev pub add_pin : K → N → Map K (Set N) → Map K (Set N)
  add_pin key name pins = insert key (insert name tt (or_empty (get key pins))) pins

  -- The `if let` of `unpin_retention`, on what `get_mut` returns.
  abbrev pub drop_pin : K → N → Option (Set N) → Map K (Set N) → Map K (Set N)
  drop_pin key name none pins = pins
  drop_pin key name (some held) pins =
      let left = remove name held in if is_nil left then remove key pins else replace key left pins

-- `CatalogState::pin_retention`
unfoldable pub pin : CatalogState → ℕ → ℕ → ℕ → String → Result ControlError CatalogState
pin s graph_id shard_id generation name = do
  reject (not (has_generation s graph_id shard_id generation)) unknown_generation
  let key : ℕ × (ℕ × ℕ) = (graph_id, (shard_id, generation))
  ok (record s { retention_pins = add_pin key name s.retention_pins })

-- `CatalogState::unpin_retention`
unfoldable pub unpin : CatalogState → ℕ → ℕ → ℕ → String → Result ControlError CatalogState
unpin s graph_id shard_id generation name = do
  reject (not (has_generation s graph_id shard_id generation)) unknown_generation
  let key : ℕ × (ℕ × ℕ) = (graph_id, (shard_id, generation))
  ok (record s { retention_pins = drop_pin key name (get key s.retention_pins) s.retention_pins })

-- The `match` of `apply`.
abbrev pub run_command : CatalogState → CatalogCommand → Result ControlError CatalogState
run_command s (put_placement _ placement) = put s placement
run_command s (pin_retention _ g sh generation name) = pin s g sh generation name
run_command s (unpin_retention _ g sh generation name) = unpin s g sh generation name

-- `CatalogState::apply`
unfoldable pub apply : CatalogState → CatalogCommand → Result ControlError CatalogState
apply s command = do
  reject (not (expected_version command == s.version))
      (stale_catalog (expected_version command) s.version)
  next ← run_command s command
  version ← ok_or (checked_add u64_max s.version 1) version_overflow
  ok (record next { version = version })
