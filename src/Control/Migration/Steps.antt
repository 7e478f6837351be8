-- ===== src/Control/Migration/Steps.antt =====
-- The transitions of a migration as steps, and what each step does to the phase.
use dtgproxy.Base.{
  ℕ, ◌+◌, ◌<◌, ◌≡◌, refl, sym, ◌∙◌, subst, inl, inr, ◌⊎◌, Bool, true, ◌||◌, arith, if◌then◌else◌,
  Option, some, ok, Result-cases, Option-cases,
}
use dtgproxy.Base.Map.{get, insert, nat_key, pair_key}
use dtgproxy.Control.Migration.Receipt.{MigrationReceipt, kind_key, reverse_mirrored}
use dtgproxy.Control.Migration.{
  MigrationRecord, Receipts, MigrationState, allocating, backfilling, mirroring, prepared,
  activating, grace, completed, aborted, MigrationAction, is_grace, is_completed, all_cleaned,
  cleanup_of, claim_target_namespace, begin_backfill, begin_mirroring, record_receipt,
  prepare_migration, activate, publish, record_reverse_receipt, abort_migration, roll_back,
  clean_up_source, insert_receipt, validate_receipt, require_catalog, equal_voter_proof,
}

-- A call of one of the methods that succeeded. Epochs and generations are not zero (`PlacementEpoch` and
-- `BackendGeneration` of the kernel).
pub data Step (m m' : MigrationRecord) : Type 0 where
  claims :
      (r s t : ℕ) (o : Option ℕ) (a : MigrationAction)
      → claim_target_namespace m r s t o ≡ ok (m', a)
      → Step m m'
  backfills : (i : ℕ) (a : MigrationAction) → begin_backfill m i ≡ ok (m', a) → Step m m'
  mirrors : (a : MigrationAction) → begin_mirroring m ≡ ok (m', a) → Step m m'
  records : (r : MigrationReceipt) → record_receipt m r ≡ ok m' → Step m m'
  prepares : (a : MigrationAction) → prepare_migration m ≡ ok (m', a) → Step m m'
  activates : (e : ℕ) (a : MigrationAction) → 0 < e → activate m e ≡ ok (m', a) → Step m m'
  publishes : (at : ℕ) (a : MigrationAction) → publish m at ≡ ok (m', a) → Step m m'
  reverses :
      (r : MigrationReceipt) (a : MigrationAction)
      → record_reverse_receipt m r ≡ ok (m', a)
      → Step m m'
  aborts : (v : ℕ) (a : MigrationAction) → abort_migration m v ≡ ok (m', a) → Step m m'
  rolls_back :
      (e g : ℕ) (a : MigrationAction) → 0 < e → 0 < g → roll_back m e g ≡ ok (m', a) → Step m m'
  cleans :
      (r o : ℕ) (p : Bool) (a : MigrationAction) → clean_up_source m r o p ≡ ok (m', a) → Step m m'

pub data Reach (m : MigrationRecord) : MigrationRecord → Type 0 where
  here : Reach m m
  next : {m' m'' : MigrationRecord} → Reach m m' → Step m' m'' → Reach m m''

-- What a step leaves as it is.
pub record SameMigration (m m' : MigrationRecord) : Type 0 where
  pub same_id : m'.id ≡ m.id
  pub same_catalog : m'.catalog_version ≡ m.catalog_version
  pub same_epoch : m'.source_epoch ≡ m.source_epoch
  pub same_source : m'.source_generation ≡ m.source_generation
  pub same_target : m'.target_generation ≡ m.target_generation
  pub same_class : m'.target_backend_class ≡ m.target_backend_class
  pub same_voters : m'.expected_voters ≡ m.expected_voters

-- Before the cutover the source is served under its epoch; after it, a later generation under a
-- later epoch.
abbrev pub PhaseOk : MigrationState → ℕ → ℕ → ℕ → ℕ → Type 0
PhaseOk (activating e) source_epoch source epoch generation =
    (epoch ≡ e) × (source_epoch < epoch) × (source < generation)
PhaseOk (grace activated at) source_epoch source epoch generation =
    (epoch ≡ activated) × (source_epoch < epoch) × (source < generation)
PhaseOk completed source_epoch source epoch generation =
    (source_epoch < epoch) × (source < generation)
PhaseOk allocating source_epoch source epoch generation =
    (epoch ≡ source_epoch) × (generation ≡ source)
PhaseOk (backfilling i) source_epoch source epoch generation =
    (epoch ≡ source_epoch) × (generation ≡ source)
PhaseOk (mirroring i) source_epoch source epoch generation =
    (epoch ≡ source_epoch) × (generation ≡ source)
PhaseOk (prepared i d) source_epoch source epoch generation =
    (epoch ≡ source_epoch) × (generation ≡ source)
PhaseOk aborted source_epoch source epoch generation =
    (epoch ≡ source_epoch) × (generation ≡ source)

pub record IsPhased (m : MigrationRecord) : Type 0 where
  pub phase : PhaseOk m.state m.source_epoch m.source_generation m.active_epoch m.active_generation
  pub next_target : m.target_generation ≡ m.source_generation + 1

-- The placement that is served stays, or a later generation is served under the next epoch.
abbrev pub Moves : MigrationRecord → MigrationRecord → Type 0
Moves m m' =
    ((m'.active_epoch ≡ m.active_epoch) × (m'.active_generation ≡ m.active_generation))
    ⊎ ((m'.active_epoch ≡ m.active_epoch + 1) × (m'.active_generation ≡ m.active_generation + 1))

-- What each step shows.
pub record Goes (m m' : MigrationRecord) : Type 0 where
  pub same : SameMigration m m'
  pub phased : IsPhased m'
  pub moves : Moves m m'

pub insert_receipt-same :
    (m : MigrationRecord) (r : MigrationReceipt) (m' : MigrationRecord)
    → insert_receipt m r ≡ ok m'
    → (rs : Receipts) × (m' ≡ record m { receipts = rs })
unfolding insert_receipt validate_receipt require_catalog
insert_receipt-same m r m' e = elim (Option-cases (get (r.kind, r.replica_id) m.receipts)) [
  | inl fresh ↦ (insert (r.kind, r.replica_id) r m.receipts, ground arith)
  | inr (old, there) ↦ (m.receipts, ground arith)
]

Goes-receipts :
    (m : MigrationRecord) (rs : Receipts) (m' : MigrationRecord)
    → IsPhased m
    → m' ≡ record m { receipts = rs }
    → Goes m m'
Goes-receipts m rs m' w e = subst (Goes m) (sym e) (record {
  same = record {
    same_id = refl;
    same_catalog = refl;
    same_epoch = refl;
    same_source = refl;
    same_target = refl;
    same_class = refl;
    same_voters = refl;
  };
  phased = record { phase = w.phase; next_target = w.next_target };
  moves = inl (refl, refl);
})

claims-Goes :
    (m m' : MigrationRecord) (r s t : ℕ) (o : Option ℕ) (a : MigrationAction)
    → IsPhased m
    → claim_target_namespace m r s t o ≡ ok (m', a)
    → Goes m m'
unfolding claim_target_namespace
claims-Goes m m' r s t o a w e = ground arith

backfills-Goes :
    (m m' : MigrationRecord) (i : ℕ) (a : MigrationAction)
    → IsPhased m
    → begin_backfill m i ≡ ok (m', a)
    → Goes m m'
unfolding begin_backfill
backfills-Goes m m' i a w e = ground arith

mirrors-Goes :
    (m m' : MigrationRecord) (a : MigrationAction)
    → IsPhased m
    → begin_mirroring m ≡ ok (m', a)
    → Goes m m'
unfolding begin_mirroring
mirrors-Goes m m' a w e = ground arith

records-Goes :
    (m m' : MigrationRecord) (r : MigrationReceipt)
    → IsPhased m
    → record_receipt m r ≡ ok m'
    → Goes m m'
unfolding record_receipt
records-Goes m m' r w e =
    let (rs, same) = insert_receipt-same m r m' (ground arith) in Goes-receipts m rs m' w same

prepares-Goes :
    (m m' : MigrationRecord) (a : MigrationAction)
    → IsPhased m
    → prepare_migration m ≡ ok (m', a)
    → Goes m m'
unfolding prepare_migration
prepares-Goes m m' a w e = ground arith

activates-Goes :
    (m m' : MigrationRecord) (n : ℕ) (a : MigrationAction)
    → 0 < n
    → IsPhased m
    → activate m n ≡ ok (m', a)
    → Goes m m'
unfolding activate
activates-Goes m m' n a pos w e = ground arith

publishes-Goes :
    (m m' : MigrationRecord) (at : ℕ) (a : MigrationAction)
    → IsPhased m
    → publish m at ≡ ok (m', a)
    → Goes m m'
unfolding publish
publishes-Goes m m' at a w e = ground arith

aborts-Goes :
    (m m' : MigrationRecord) (v : ℕ) (a : MigrationAction)
    → IsPhased m
    → abort_migration m v ≡ ok (m', a)
    → Goes m m'
unfolding abort_migration require_catalog
aborts-Goes m m' v a w e = ground arith

rolls_back-Goes :
    (m m' : MigrationRecord) (e g : ℕ) (a : MigrationAction)
    → 0 < e
    → 0 < g
    → IsPhased m
    → roll_back m e g ≡ ok (m', a)
    → Goes m m'
unfolding roll_back
rolls_back-Goes m m' e g a pe pg w h = ground arith

reverses-Goes :
    (m m' : MigrationRecord) (r : MigrationReceipt) (a : MigrationAction)
    → IsPhased m
    → record_reverse_receipt m r ≡ ok (m', a)
    → Goes m m'
unfolding record_reverse_receipt
reverses-Goes m m' r a w e = elim (Result-cases (insert_receipt m r)) [
  | inr (error, refused) ↦ let no_way : ⊥ = ground arith in absurd no_way
  | inl (m1, placed) ↦
      let reached : m1 ≡ m' = ground arith in
      let (rs, same) = insert_receipt-same m r m1 placed in
      Goes-receipts m rs m' w (sym reached ∙ same)
]

-- What a cleanup that succeeds went through.
pub record Cleans (m m' : MigrationRecord) (r o : ℕ) (p : Bool) (a : MigrationAction) : Type 0 where
  pub settled : (is_grace m.state || is_completed m.state) ≡ true
  pub unpinned : p ≡ true
  pub owned : get r m.source_owners ≡ some o
  pub index : ℕ
  pub digest : ℕ
  pub proved : equal_voter_proof m reverse_mirrored reverse_mirrored ≡ ok (index, digest)
  pub placed : MigrationRecord
  pub inserted : insert_receipt m (cleanup_of m r (index, digest) o) ≡ ok placed
  pub left : m' ≡ (if all_cleaned placed then record placed { state = completed } else placed)
  pub owner : a.owner_identity ≡ some o
  pub generation : a.generation ≡ m.source_generation

pub clean_up_source-Cleans :
    (m m' : MigrationRecord) (r o : ℕ) (p : Bool) (a : MigrationAction)
    → clean_up_source m r o p ≡ ok (m', a)
    → Cleans m m' r o p a
unfolding clean_up_source
clean_up_source-Cleans m m' r o p a e =
    elim (Result-cases (equal_voter_proof m reverse_mirrored reverse_mirrored)) [
      | inr (error, refused) ↦ let no_way : ⊥ = ground arith in absurd no_way
      | inl ((index, digest), proved) ↦
          elim (Result-cases (insert_receipt m (cleanup_of m r (index, digest) o))) [
            | inr (error, refused) ↦ let no_way : ⊥ = ground arith in absurd no_way
            | inl (m1, placed) ↦
                let (rs, same) =
                  insert_receipt-same m (cleanup_of m r (index, digest) o) m1 placed in
                record {
                  settled = ground arith;
                  unpinned = ground arith;
                  owned = ground arith;
                  index = index;
                  digest = digest;
                  proved = proved;
                  placed = m1;
                  inserted = placed;
                  left = ground arith;
                  owner = ground arith;
                  generation = ground arith;
                }
          ]
    ]

cleans-Goes :
    (m m' : MigrationRecord) (r o : ℕ) (p : Bool) (a : MigrationAction)
    → IsPhased m
    → clean_up_source m r o p ≡ ok (m', a)
    → Goes m m'
cleans-Goes m m' r o p a w e =
    let c = clean_up_source-Cleans m m' r o p a e in
    let (rs, same) =
      insert_receipt-same m (cleanup_of m r (c.index, c.digest) o) c.placed c.inserted in
    let settled = c.settled in let left = c.left in let phase = w.phase in ground arith

-- Each step keeps the phases in order, and changes nothing of what the migration is about.
pub Step-Goes : {m m' : MigrationRecord} → Step m m' → IsPhased m → Goes m m'
Step-Goes {m} {m'} (claims r s t o a e) w = claims-Goes m m' r s t o a w e
Step-Goes {m} {m'} (backfills i a e) w = backfills-Goes m m' i a w e
Step-Goes {m} {m'} (mirrors a e) w = mirrors-Goes m m' a w e
Step-Goes {m} {m'} (records r e) w = records-Goes m m' r w e
Step-Goes {m} {m'} (prepares a e) w = prepares-Goes m m' a w e
Step-Goes {m} {m'} (activates n a pos e) w = activates-Goes m m' n a pos w e
Step-Goes {m} {m'} (publishes at a e) w = publishes-Goes m m' at a w e
Step-Goes {m} {m'} (reverses r a e) w = reverses-Goes m m' r a w e
Step-Goes {m} {m'} (aborts v a e) w = aborts-Goes m m' v a w e
Step-Goes {m} {m'} (rolls_back x g a pe pg e) w = rolls_back-Goes m m' x g a pe pg w e
Step-Goes {m} {m'} (cleans r o p a e) w = cleans-Goes m m' r o p a w e
