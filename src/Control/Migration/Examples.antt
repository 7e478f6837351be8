-- ===== src/Control/Migration/Examples.antt =====
-- A migration of two voters from generation 3 to generation 4, step by step.
use dtgproxy.Base.{ℕ, ◌≡◌, ◌+◌, ◌≤◌, refl, true, false, [], ◌∷◌, arith, none, some, ok, err}
use dtgproxy.Base.Map.{Map, get, insert, nat_key, pair_key}
use dtgproxy.Control.{migration_cleanup_fenced}
use dtgproxy.Storage.{BackendClass, durable_commit, fjall}
use dtgproxy.Control.Migration.Receipt.{
  MigrationReceipt, MigrationReceiptKind, forward_mirrored, reverse_mirrored, cleanup, kind_key,
}
use dtgproxy.Control.Migration.{
  MigrationRecord, Receipts, MigrationState, allocating, backfilling, mirroring, prepared,
  activating, grace, MigrationAction, action, new_inner, accepts, allocate, backfill,
  mirror_forward, prepare, commit_cutover, publish_activation, clean_up, rollback,
  claim_target_namespace, begin_backfill, begin_mirroring, record_receipt, prepare_migration,
  activate, publish, roll_back, clean_up_source, insert_receipt, validate_receipt, require_catalog,
  equal_voter_proof, prove_voters,
}
use dtgproxy.Control.Migration.Steps.{
  claims, backfills, mirrors, records, prepares, activates, publishes, Reach, here, next,
}
use dtgproxy.Control.Migration.Fencing.{accepted_once}
use dtgproxy.Control.Migration.Cutover.{IsMirrored, cutover-IsMirrored, cleanup_fenced}
use dtgproxy.Control.Migration.Rollback.{roll_back-receipts, rollback_leaves_cleanup}

abbrev class : BackendClass
class = record {
  provider_kind = fjall;
  contract_version = 1;
  layout_version = 1;
  durability_policy = durable_commit;
  required_capabilities = record { names = []; digest = 77 };
  digest = 88;
}

abbrev owners : ℕ → ℕ → Map ℕ ℕ
owners a b = (1, a) ∷ (2, b) ∷ []

abbrev phase : MigrationState → ℕ → ℕ → Receipts → Map ℕ ℕ → Map ℕ ℕ → MigrationRecord
phase state epoch generation receipts source_owners target_owners = record {
  id = 5;
  graph_id = 2;
  shard_id = 3;
  catalog_version = 6;
  source_epoch = 7;
  source_generation = 3;
  source_backend_class = none;
  target_generation = 4;
  target_backend_class = class;
  expected_voters = (1, tt) ∷ (2, tt) ∷ [];
  receipts = receipts;
  source_owners = source_owners;
  target_owners = target_owners;
  state = state;
  active_epoch = epoch;
  active_generation = generation;
}

abbrev receipt : MigrationReceiptKind → ℕ → ℕ → MigrationReceipt
receipt kind voter index = record {
  kind = kind;
  migration_id = 5;
  replica_id = voter;
  catalog_version = 6;
  source_generation = 3;
  target_generation = 4;
  target_backend_class_digest = 88;
  applied_index = index;
  logical_digest = 99;
  owner_identity = none;
  pins_released = false;
}

abbrev forward : Receipts
forward =
    ((forward_mirrored, 1), receipt forward_mirrored 1 12)
    ∷ ((forward_mirrored, 2), receipt forward_mirrored 2 12)
    ∷ []

abbrev both : Receipts
both =
    ((forward_mirrored, 1), receipt forward_mirrored 1 12)
    ∷ ((forward_mirrored, 2), receipt forward_mirrored 2 12)
    ∷ ((reverse_mirrored, 1), receipt reverse_mirrored 1 15)
    ∷ ((reverse_mirrored, 2), receipt reverse_mirrored 2 15)
    ∷ []

abbrev started : MigrationRecord
started = phase allocating 7 3 [] [] []

abbrev claimed : MigrationState → MigrationRecord
claimed state = phase state 7 3 [] (owners 21 22) (owners 31 32)

abbrev served : MigrationState → ℕ → ℕ → Receipts → MigrationRecord
served state epoch generation receipts =
    phase state epoch generation receipts (owners 21 22) (owners 31 32)

made : new_inner 5 2 3 6 7 3 none 4 class (1 ∷ 2 ∷ []) ≡ ok started
unfolding new_inner insert
made = refl

to_prepared : Reach started (served (prepared 12 99) 7 3 forward)
unfolding claim_target_namespace begin_backfill begin_mirroring record_receipt prepare_migration
    insert_receipt validate_receipt require_catalog equal_voter_proof prove_voters get insert
to_prepared =
    let first : Reach started (phase allocating 7 3 [] ((1, 21) ∷ []) ((1, 31) ∷ [])) =
      next here
        (claims 1 21 31 none (action started allocate 4 (some 1) none none (some 31) none) refl) in
    let second : Reach started (claimed allocating) =
      next first
        (claims 2 22 32 none (action started allocate 4 (some 2) none none (some 32) none) refl) in
    let copying : Reach started (claimed (backfilling 10)) =
      next second (backfills 10 (action started backfill 4 none (some 10) none none none) refl) in
    let mirrored : Reach started (claimed (mirroring 10)) =
      next copying (mirrors (action started mirror_forward 4 none (some 10) none none none) refl) in
    let one : Reach started
        (served (mirroring 10) 7 3 (((forward_mirrored, 1), receipt forward_mirrored 1 12) ∷ [])) =
      next mirrored (records (receipt forward_mirrored 1 12) refl) in
    let two : Reach started (served (mirroring 10) 7 3 forward) =
      next one (records (receipt forward_mirrored 2 12) refl) in
    next two (prepares (action started prepare 4 none (some 12) none none none) refl)

to_grace : Reach started (served (grace 8 1000) 8 4 forward)
unfolding activate publish
to_grace =
    let active : Reach started (served (activating 8) 8 4 forward) = next to_prepared (
      activates 8 (action started commit_cutover 4 none none (some 8) none none) (omega arith)
        refl) in
    next active
      (publishes 1000 (action started publish_activation 4 none none (some 8) none none) refl)

accepted_once_example : (7 ≤ 8) × (3 + 8 ≡ 4 + 7)
unfolding accepts
accepted_once_example =
    accepted_once started (served (grace 8 1000) 8 4 forward) 7 3 8 4
      (record { phase = (refl, refl); next_target = refl }) to_grace refl refl

IsMirrored-example : IsMirrored (served (grace 8 1000) 8 4 forward) forward_mirrored
unfolding accepts
IsMirrored-example =
    cutover-IsMirrored 5 2 3 6 7 3 none 4 class (1 ∷ 2 ∷ []) started
      (served (grace 8 1000) 8 4 forward) 8 4 made to_grace refl (λ e. omega arith)

abbrev partly_cleaned : MigrationRecord
partly_cleaned = served (grace 8 1000) 8 4 (
    ((forward_mirrored, 1), receipt forward_mirrored 1 12)
    ∷ ((forward_mirrored, 2), receipt forward_mirrored 2 12)
    ∷ ((reverse_mirrored, 1), receipt reverse_mirrored 1 15)
    ∷ ((reverse_mirrored, 2), receipt reverse_mirrored 2 15)
    ∷ (
      (cleanup, 1),
      record (receipt cleanup 1 15) { owner_identity = some 21; pins_released = true },
    )
    ∷ [])

cleaned :
    clean_up_source (served (grace 8 1000) 8 4 both) 1 21 true
    ≡ ok (partly_cleaned, action started clean_up 3 (some 1) (some 15) none (some 21) none)
unfolding clean_up_source insert_receipt validate_receipt require_catalog equal_voter_proof
    prove_voters get insert
cleaned = refl

cleanup_example :
    (get 1 (owners 21 22) ≡ some 21)
    × (true ≡ true)
    × IsMirrored (served (grace 8 1000) 8 4 both) reverse_mirrored
    × ((epoch : ℕ) → accepts partly_cleaned epoch 3 ≡ false)
cleanup_example =
    cleanup_fenced (served (grace 8 1000) 8 4 both) partly_cleaned partly_cleaned 1 21 true
      (action started clean_up 3 (some 1) (some 15) none (some 21) none)
      (record { phase = (refl, omega arith, omega arith); next_target = refl }) cleaned here

abbrev back : MigrationAction
back = action started rollback 5 none none (some 9) none (some 21)

rolled_back :
    roll_back (served (grace 8 1000) 8 4 both) 9 5 ≡ ok (served (activating 9) 9 5 both, back)
unfolding roll_back
rolled_back = refl

unverified_example :
    roll_back (served (grace 8 1000) 8 4 []) 9 5 ≡ ok (served (activating 9) 9 5 [], back)
unverified_example =
    roll_back-receipts (served (grace 8 1000) 8 4 both) (served (activating 9) 9 5 both) 9 5 back []
      rolled_back

published_again :
    publish (served (activating 9) 9 5 both) 2000
    ≡ ok (
      served (grace 9 2000) 9 5 both,
      action started publish_activation 5 none none (some 9) none none,
    )
unfolding publish
published_again = refl

rollback_example :
    (clean_up_source (served (activating 9) 9 5 both) 1 21 true ≡ err migration_cleanup_fenced)
    × ((m'' : MigrationRecord) × (c : MigrationAction) × (clean_up_source
            (served (grace 9 2000) 9 5 both)
            1
            21
            true
          ≡ ok (m'', c))
        × (c.kind ≡ clean_up)
        × (c.owner_identity ≡ back.retained_owner_identity))
rollback_example =
    rollback_leaves_cleanup (served (grace 8 1000) 8 4 both) partly_cleaned
      (served (activating 9) 9 5 both) (served (grace 9 2000) 9 5 both) 9 5 2000 21 1
      (action started clean_up 3 (some 1) (some 15) none (some 21) none) back
      (action started publish_activation 5 none none (some 9) none none) rolled_back published_again
      refl cleaned
