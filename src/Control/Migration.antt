-- ===== src/Control/Migration.antt =====
-- crates/execution/dtg-control/src/migration.rs: the record of a migration and its transitions. Where
-- a method refuses, it has changed nothing, so that an error carries no state.
pub mod Receipt
pub mod Rollback
mod Examples
pub mod Steps
pub mod Cutover
pub mod Fencing
pub mod Mirrored
use native.Mathlib.Decide.{ℕ_discrete}
use dtgproxy.Base.{
  ℕ, Bool, true, false, not, ◌&&◌, ◌||◌, List, [], ◌∷◌, length, all, ◌==◌, ltb, ◌+◌, if◌then◌else◌,
  Option, none, some, is_dec, u64_max, checked_add, ok_or, map_err, Result, ok, err, ◌>>=◌, ◌>>◌,
  reject,
}
use dtgproxy.Base.Map.{Map, Set, get, insert, contains_key, values, keys, nat_key, pair_key}
use dtgproxy.Storage.{BackendClass}
use dtgproxy.Control.{
  ControlError, stale_catalog, invalid_migration, illegal_migration_transition,
  invalid_migration_receipt, incomplete_migration_receipts, migration_receipt_conflict,
  migration_digest_mismatch, migration_namespace_collision, migration_cleanup_fenced,
}
use dtgproxy.Control.Placement.{differs}
use dtgproxy.Control.Migration.Receipt.{
  MigrationReceipt, MigrationReceipt-discrete, MigrationReceiptKind, verified, forward_mirrored,
  reverse_mirrored, cleanup, kind_key, cleanup_receipt,
}

pub data MigrationState : Type 0 where
  allocating : MigrationState
  backfilling mirroring : ℕ → MigrationState
  prepared : ℕ → ℕ → MigrationState
  activating : ℕ → MigrationState
  grace : ℕ → ℕ → MigrationState
  completed aborted : MigrationState

pub data MigrationActionKind : Type 0 where
  allocate backfill mirror_forward prepare commit_cutover publish_activation mirror_reverse clean_up
        rollback abort :
      MigrationActionKind

pub record MigrationAction : Type 0 where
  pub kind : MigrationActionKind
  pub migration_id : ℕ
  pub graph_id : ℕ
  pub shard_id : ℕ
  pub source_generation : ℕ
  pub source_backend_class : Option BackendClass
  pub target_generation : ℕ
  pub target_backend_class : BackendClass
  pub catalog_version : ℕ
  pub generation : ℕ
  pub replica_id : Option ℕ
  pub snapshot_index : Option ℕ
  pub next_epoch : Option ℕ
  pub owner_identity : Option ℕ
  pub retained_owner_identity : Option ℕ

abbrev pub Receipts : Type 0
Receipts = Map (MigrationReceiptKind × ℕ) MigrationReceipt

pub record MigrationRecord : Type 0 where
  pub id : ℕ
  pub graph_id : ℕ
  pub shard_id : ℕ
  pub catalog_version : ℕ
  pub source_epoch : ℕ
  pub source_generation : ℕ
  pub source_backend_class : Option BackendClass
  pub target_generation : ℕ
  pub target_backend_class : BackendClass
  pub expected_voters : Set ℕ
  pub receipts : Receipts
  pub source_owners : Map ℕ ℕ
  pub target_owners : Map ℕ ℕ
  pub state : MigrationState
  pub active_epoch : ℕ
  pub active_generation : ℕ

abbrev pub set_of : List ℕ → Set ℕ → Set ℕ
set_of [] s = s
set_of (n ∷ ns) s = set_of ns (insert n tt s)

-- `MigrationRecord::new_inner`
unfoldable pub new_inner :
    ℕ
    → ℕ
    → ℕ
    → ℕ
    → ℕ
    → ℕ
    → Option BackendClass
    → ℕ
    → BackendClass
    → List ℕ
    → Result ControlError MigrationRecord
new_inner id graph_id shard_id catalog_version source_epoch source_generation source_backend_class
      target_generation target_backend_class voters =
    do
      expected_target ←
          ok_or (checked_add u64_max source_generation 1)
            (invalid_migration "backend generation overflow")
      let expected_voters : Set ℕ = set_of voters []
      reject
          (not (target_generation == expected_target)
            || length expected_voters == 0
            || not (length expected_voters == length voters))
          (invalid_migration "migration requires the next generation and unique voters")
      ok (record {
        id = id;
        graph_id = graph_id;
        shard_id = shard_id;
        catalog_version = catalog_version;
        source_epoch = source_epoch;
        source_generation = source_generation;
        source_backend_class = source_backend_class;
        target_generation = target_generation;
        target_backend_class = target_backend_class;
        expected_voters = expected_voters;
        receipts = [];
        source_owners = [];
        target_owners = [];
        state = allocating;
        active_epoch = source_epoch;
        active_generation = source_generation;
      })

-- `MigrationRecord::new`
abbrev pub new_migration :
    ℕ → ℕ → ℕ → ℕ → ℕ → ℕ → ℕ → BackendClass → List ℕ → Result ControlError MigrationRecord
new_migration id graph_id shard_id catalog_version source_epoch source_generation target_generation
      target_backend_class voters =
    new_inner id graph_id shard_id catalog_version source_epoch source_generation none
      target_generation target_backend_class voters

-- `MigrationRecord::new_direction`
unfoldable pub new_direction :
    ℕ
    → ℕ
    → ℕ
    → ℕ
    → ℕ
    → ℕ
    → BackendClass
    → ℕ
    → BackendClass
    → List ℕ
    → Result ControlError MigrationRecord
new_direction id graph_id shard_id catalog_version source_epoch source_generation
      source_backend_class target_generation target_backend_class voters =
    do
      reject (source_backend_class.digest == target_backend_class.digest)
          (invalid_migration "source and target backend classes are identical")
      new_inner id graph_id shard_id catalog_version source_epoch source_generation
          (some source_backend_class) target_generation target_backend_class voters

unfoldable pub accepts : MigrationRecord → ℕ → ℕ → Bool
accepts m epoch generation = epoch == m.active_epoch && generation == m.active_generation

abbrev pub action :
    MigrationRecord
    → MigrationActionKind
    → ℕ
    → Option ℕ
    → Option ℕ
    → Option ℕ
    → Option ℕ
    → Option ℕ
    → MigrationAction
action m kind generation replica_id snapshot_index next_epoch owner_identity
      retained_owner_identity =
    record {
      kind = kind;
      migration_id = m.id;
      graph_id = m.graph_id;
      shard_id = m.shard_id;
      source_generation = m.source_generation;
      source_backend_class = m.source_backend_class;
      target_generation = m.target_generation;
      target_backend_class = m.target_backend_class;
      catalog_version = m.catalog_version;
      generation = generation;
      replica_id = replica_id;
      snapshot_index = snapshot_index;
      next_epoch = next_epoch;
      owner_identity = owner_identity;
      retained_owner_identity = retained_owner_identity;
    }

abbrev pub is_allocating : MigrationState → Bool
is_allocating allocating = true
is_allocating _ = false

abbrev pub is_grace : MigrationState → Bool
is_grace (grace _ _) = true
is_grace _ = false

abbrev pub is_completed : MigrationState → Bool
is_completed completed = true
is_completed _ = false

abbrev pub Outcome : Type 0
Outcome = Result ControlError (MigrationRecord × MigrationAction)

unfoldable pub claim_target_namespace : MigrationRecord → ℕ → ℕ → ℕ → Option ℕ → Outcome
claim_target_namespace m replica_id source_owner_identity target_owner_identity
      observed_target_owner =
    do
      reject
          (not (is_allocating m.state)
            || not (contains_key replica_id m.expected_voters)
            || source_owner_identity == 0
            || target_owner_identity == 0)
          illegal_migration_transition
      reject (differs observed_target_owner target_owner_identity) migration_namespace_collision
      reject
          (differs (get replica_id m.source_owners) source_owner_identity
            || differs (get replica_id m.target_owners) target_owner_identity)
          migration_namespace_collision
      ok (
        record m {
          source_owners = insert replica_id source_owner_identity m.source_owners;
          target_owners = insert replica_id target_owner_identity m.target_owners;
        },
        action m allocate m.target_generation (some replica_id) none none
            (some target_owner_identity) none,
      )

abbrev backfill_state : MigrationState → ℕ → Result ControlError MigrationState
backfill_state allocating snapshot_index = ok (backfilling snapshot_index)
backfill_state (backfilling existing) snapshot_index =
    if existing == snapshot_index
    then ok (backfilling existing)
    else err illegal_migration_transition
backfill_state _ snapshot_index = err illegal_migration_transition

unfoldable pub begin_backfill : MigrationRecord → ℕ → Outcome
begin_backfill m snapshot_index = do
  reject (snapshot_index == 0) illegal_migration_transition
  state ← backfill_state m.state snapshot_index
  ok (
    record m { state = state },
    action m backfill m.target_generation none (some snapshot_index) none none none,
  )

abbrev mirror_index : MigrationState → Result ControlError ℕ
mirror_index (backfilling snapshot_index) = ok snapshot_index
mirror_index (mirroring snapshot_index) = ok snapshot_index
mirror_index _ = err illegal_migration_transition

unfoldable pub begin_mirroring : MigrationRecord → Outcome
begin_mirroring m = do
  snapshot_index ← mirror_index m.state
  ok (
    record m { state = mirroring snapshot_index },
    action m mirror_forward m.target_generation none (some snapshot_index) none none none,
  )

unfoldable pub require_catalog : MigrationRecord → ℕ → Result ControlError (Unit {0})
require_catalog m actual =
    if actual == m.catalog_version then ok tt else err (stale_catalog m.catalog_version actual)

unfoldable pub validate_receipt :
    MigrationRecord → MigrationReceipt → Result ControlError (Unit {0})
unfolding require_catalog
validate_receipt m receipt = do
  require_catalog m receipt.catalog_version
  reject
      (not (receipt.migration_id == m.id)
        || not (receipt.source_generation == m.source_generation)
        || not (receipt.target_generation == m.target_generation)
        || not (receipt.target_backend_class_digest == m.target_backend_class.digest)
        || not (contains_key receipt.replica_id m.expected_voters))
      invalid_migration_receipt

abbrev place_receipt :
    MigrationRecord
    → MigrationReceipt
    → Option MigrationReceipt
    → Result ControlError MigrationRecord
place_receipt m receipt none =
    ok (record m { receipts = insert (receipt.kind, receipt.replica_id) receipt m.receipts })
place_receipt m receipt (some existing) =
    if is_dec (MigrationReceipt-discrete existing receipt)
    then ok m
    else err migration_receipt_conflict

unfoldable pub insert_receipt :
    MigrationRecord → MigrationReceipt → Result ControlError MigrationRecord
insert_receipt m receipt = do
  validate_receipt m receipt
  place_receipt m receipt (get (receipt.kind, receipt.replica_id) m.receipts)

abbrev snapshot_of : MigrationState → Result ControlError ℕ
snapshot_of (mirroring snapshot_index) = ok snapshot_index
snapshot_of _ = err illegal_migration_transition

abbrev is_forward : MigrationReceiptKind → Bool
is_forward verified = true
is_forward forward_mirrored = true
is_forward _ = false

unfoldable pub record_receipt :
    MigrationRecord → MigrationReceipt → Result ControlError MigrationRecord
record_receipt m receipt = do
  snapshot_index ← snapshot_of m.state
  reject (not (is_forward receipt.kind) || ltb receipt.applied_index snapshot_index)
      invalid_migration_receipt
  insert_receipt m receipt

-- The loop of `equal_voter_proof`, where the preferred kind is also the fallback, as in every call.
abbrev join_proof : Option (ℕ × ℕ) → MigrationReceipt → Result ControlError (ℕ × ℕ)
join_proof none receipt = ok (receipt.applied_index, receipt.logical_digest)
join_proof (some (index, digest)) receipt =
    if index == receipt.applied_index && digest == receipt.logical_digest
    then ok (index, digest)
    else err migration_digest_mismatch

abbrev or_else : Option MigrationReceipt → Option MigrationReceipt → Option MigrationReceipt
or_else none other = other
or_else (some receipt) other = some receipt

unfoldable pub prove_voters :
    Receipts
    → MigrationReceiptKind
    → MigrationReceiptKind
    → Set ℕ
    → Option (ℕ × ℕ)
    → Result ControlError (Option (ℕ × ℕ))
prove_voters receipts preferred fallback [] found = ok found
prove_voters receipts preferred fallback ((voter, _) ∷ rest) found = do
  receipt ←
      ok_or (or_else (get (preferred, voter) receipts) (get (fallback, voter) receipts))
        incomplete_migration_receipts
  joined ← join_proof found receipt
  prove_voters receipts preferred fallback rest (some joined)

unfoldable pub equal_voter_proof :
    MigrationRecord → MigrationReceiptKind → MigrationReceiptKind → Result ControlError (ℕ × ℕ)
equal_voter_proof m preferred fallback = do
  found ← prove_voters m.receipts preferred fallback m.expected_voters none
  ok_or found incomplete_migration_receipts

abbrev prepared_proof : MigrationRecord → MigrationState → Result ControlError (ℕ × ℕ)
prepared_proof m (prepared verified_index digest) = ok (verified_index, digest)
prepared_proof m (mirroring _) = equal_voter_proof m forward_mirrored forward_mirrored
prepared_proof m _ = err illegal_migration_transition

-- `MigrationRecord::prepare`
unfoldable pub prepare_migration : MigrationRecord → Outcome
prepare_migration m = do
  found ← prepared_proof m m.state
  ok (
    record m { state = prepared found.0 found.1 },
    action m prepare m.target_generation none (some found.0) none none none,
  )

-- `checked_add(1).unwrap_or(0)`, which no epoch and no generation equals at the end of the range
abbrev pub next_number : ℕ → ℕ
next_number n = if ltb u64_max (n + 1) then 0 else n + 1

abbrev activated : MigrationRecord → MigrationState → ℕ → Result ControlError MigrationRecord
activated m (prepared _ _) next_epoch =
    if next_epoch == next_number m.source_epoch
    then ok (record m {
      state = activating next_epoch;
      active_epoch = next_epoch;
      active_generation = m.target_generation;
    })
    else err illegal_migration_transition
activated m (activating existing) next_epoch =
    if existing == next_epoch && m.active_generation == m.target_generation
    then ok m
    else err illegal_migration_transition
activated m _ next_epoch = err illegal_migration_transition

unfoldable pub activate : MigrationRecord → ℕ → Outcome
activate m next_epoch = do
  m' ← activated m m.state next_epoch
  ok (m', action m' commit_cutover m'.target_generation none none (some next_epoch) none none)

abbrev published : MigrationState → ℕ → Result ControlError ℕ
published (activating next_epoch) activated_at = ok next_epoch
published (grace activated_epoch existing) activated_at =
    if existing == activated_at then ok activated_epoch else err illegal_migration_transition
published _ activated_at = err illegal_migration_transition

-- `MigrationRecord::publish_activation`
unfoldable pub publish : MigrationRecord → ℕ → Outcome
publish m activated_at = do
  reject (activated_at == 0) (invalid_migration "activation timestamp is zero")
  activated_epoch ← published m.state activated_at
  ok (
    record m { state = grace activated_epoch activated_at },
    action m publish_activation m.active_generation none none (some activated_epoch) none none,
  )

abbrev is_reverse : MigrationReceiptKind → Bool
is_reverse reverse_mirrored = true
is_reverse _ = false

unfoldable pub record_reverse_receipt : MigrationRecord → MigrationReceipt → Outcome
record_reverse_receipt m receipt = do
  reject (not (is_grace m.state) || not (is_reverse receipt.kind)) illegal_migration_transition
  m' ← insert_receipt m receipt
  ok (
    m',
    action m' mirror_reverse m'.source_generation (some receipt.replica_id)
        (some receipt.applied_index) none (get receipt.replica_id m'.source_owners) none,
  )

abbrev may_abort : MigrationState → Bool
may_abort allocating = true
may_abort (backfilling _) = true
may_abort (mirroring _) = true
may_abort (prepared _ _) = true
may_abort aborted = true
may_abort _ = false

-- `MigrationRecord::abort`
unfoldable pub abort_migration : MigrationRecord → ℕ → Outcome
abort_migration m expected_catalog_version = do
  require_catalog m expected_catalog_version
  reject (not (may_abort m.state)) illegal_migration_transition
  ok (record m { state = aborted }, action m abort m.source_generation none none none none none)

abbrev is_activating : MigrationState → ℕ → Bool
is_activating (activating existing) next_epoch = existing == next_epoch
is_activating _ next_epoch = false

abbrev pub head_of : List ℕ → Option ℕ
head_of [] = none
head_of (n ∷ _) = some n

-- `MigrationRecord::rollback`
unfoldable pub roll_back : MigrationRecord → ℕ → ℕ → Outcome
roll_back m next_epoch generation = do
  let exact_retry : Bool =
      is_activating m.state next_epoch
      && m.active_epoch == next_epoch
      && m.active_generation == generation
  reject
      (not exact_retry
        && (not (is_grace m.state)
            || not (next_epoch == next_number m.active_epoch)
            || not (generation == next_number m.active_generation)))
      illegal_migration_transition
  ok (
    record m {
      state = activating next_epoch;
      active_epoch = next_epoch;
      active_generation = generation;
    },
    action m rollback generation none none (some next_epoch) none
        (head_of (values m.source_owners)),
  )

abbrev pub owns : Option ℕ → ℕ → Bool
owns none owner = false
owns (some existing) owner = existing == owner

abbrev pub cleanup_of : MigrationRecord → ℕ → ℕ × ℕ → ℕ → MigrationReceipt
cleanup_of m replica_id found owner_identity =
    cleanup_receipt
      (record {
        migration_id = m.id;
        replica_id = replica_id;
        catalog_version = m.catalog_version;
        source_generation = m.source_generation;
        target_generation = m.target_generation;
        target_backend_class_digest = m.target_backend_class.digest;
      })
      found.0 found.1 owner_identity

abbrev pub all_cleaned : MigrationRecord → Bool
all_cleaned m = all (λ voter. contains_key (cleanup, voter) m.receipts) (keys m.expected_voters)

-- `MigrationRecord::cleanup`
unfoldable pub clean_up_source : MigrationRecord → ℕ → ℕ → Bool → Outcome
clean_up_source m replica_id owner_identity pins_released = do
  reject
      (not (is_grace m.state || is_completed m.state)
        || not pins_released
        || not (owns (get replica_id m.source_owners) owner_identity))
      migration_cleanup_fenced
  found ← map_err (equal_voter_proof m reverse_mirrored reverse_mirrored) migration_cleanup_fenced
  m' ← insert_receipt m (cleanup_of m replica_id found owner_identity)
  let m'' : MigrationRecord = if all_cleaned m' then record m' { state = completed } else m'
  ok (
    m'',
    action m'' clean_up m''.source_generation (some replica_id) (some found.0) none
        (some owner_identity) none,
  )
