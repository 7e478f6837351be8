-- ===== src/Control/Migration/Rollback.antt =====
-- What a rollback looks at, and what it leaves to a cleanup.
use dtgproxy.Base.{
  ℕ, ◌≡◌, refl, sym, ◌∙◌, subst, inl, inr, true, arith, if◌then◌else◌, none, some, ok, err,
  Option-cases,
}
use dtgproxy.Base.Map.{get, nat_key, pair_key}
use dtgproxy.Control.{migration_cleanup_fenced}
use dtgproxy.Control.Migration.Receipt.{
  MigrationReceipt, MigrationReceiptKind, kind_key, reverse_mirrored,
}
use dtgproxy.Control.Migration.Steps.{clean_up_source-Cleans}
use dtgproxy.Control.Migration.{
  MigrationRecord, Receipts, MigrationState, activating, grace, completed, action, clean_up,
  MigrationAction, roll_back, publish, insert_receipt, validate_receipt, require_catalog,
  equal_voter_proof, cleanup_of, clean_up_source, all_cleaned,
}

-- A rollback that succeeds does so with any receipts at all, none included, and does the same.
pub roll_back-receipts :
    (m m' : MigrationRecord) (e g : ℕ) (a : MigrationAction) (rs : Receipts)
    → roll_back m e g ≡ ok (m', a)
    → roll_back (record m { receipts = rs }) e g ≡ ok (record m' { receipts = rs }, a)
unfolding roll_back
roll_back-receipts m m' e g a rs h = ground arith

-- The record in another phase.
abbrev in_phase : MigrationRecord → MigrationState → ℕ → ℕ → MigrationRecord
in_phase m state epoch generation = record m {
  state = state;
  active_epoch = epoch;
  active_generation = generation;
}

insert_receipt-in_phase :
    (m m' : MigrationRecord) (r : MigrationReceipt) (s : MigrationState) (e g : ℕ)
    → insert_receipt m r ≡ ok m'
    → insert_receipt (in_phase m s e g) r ≡ ok (in_phase m' s e g)
unfolding insert_receipt validate_receipt require_catalog
insert_receipt-in_phase m m' r s e g placed =
    elim (Option-cases (get (r.kind, r.replica_id) m.receipts)) [
      | inl fresh ↦ ground arith
      | inr (old, there) ↦ ground arith
    ]

equal_voter_proof-in_phase :
    (m : MigrationRecord) (k : MigrationReceiptKind) (s : MigrationState) (e g : ℕ)
    → equal_voter_proof (in_phase m s e g) k k ≡ equal_voter_proof m k k
unfolding equal_voter_proof
equal_voter_proof-in_phase m k s e g = refl

fenced_while_activating :
    (m : MigrationRecord) (r o e g : ℕ)
    → clean_up_source (in_phase m (activating e) e g) r o true ≡ err migration_cleanup_fenced
unfolding clean_up_source
fenced_while_activating m r o e g = refl

cleans_in_grace :
    (m m' : MigrationRecord) (r o : ℕ) (a : MigrationAction) (t e g : ℕ)
    → clean_up_source m r o true ≡ ok (m', a)
    → (m'' : MigrationRecord) × (b : MigrationAction) × (clean_up_source
          (in_phase m (grace e t) e g)
          r
          o
          true
        ≡ ok (m'', b))
      × ((b.kind ≡ clean_up) × (b.owner_identity ≡ some o))
unfolding clean_up_source
cleans_in_grace m m' r o a t e g h =
    let c = clean_up_source-Cleans m m' r o true a h in
    let proved = equal_voter_proof-in_phase m reverse_mirrored (grace e t) e g ∙ c.proved in
    let placed =
      insert_receipt-in_phase m c.placed (cleanup_of m r (c.index, c.digest) o) (grace e t) e g
        c.inserted in
    let owned = c.owned in
    let done : MigrationRecord = in_phase c.placed (grace e t) e g in
    let left : MigrationRecord =
      if all_cleaned done then record done { state = completed } else done in
    (
      left,
      action left clean_up left.source_generation (some r) (some c.index) none (some o) none,
      ground arith,
      (refl, refl),
    )

-- Where a cleanup by an owner was open before a rollback that retains the namespace of that owner, it
-- is refused as fenced between the rollback and its publication, and is open again once the rollback is
-- published: it then deletes the namespace of the owner that the rollback retains.
pub rollback_leaves_cleanup :
    (m m' m1 m2 : MigrationRecord) (e g t o r : ℕ) (a b d : MigrationAction)
    → roll_back m e g ≡ ok (m1, b)
    → publish m1 t ≡ ok (m2, d)
    → b.retained_owner_identity ≡ some o
    → clean_up_source m r o true ≡ ok (m', a)
    → (clean_up_source m1 r o true ≡ err migration_cleanup_fenced)
      × ((m'' : MigrationRecord) × (c : MigrationAction) × (clean_up_source m2 r o true
            ≡ ok (m'', c))
          × (c.kind ≡ clean_up)
          × (c.owner_identity ≡ b.retained_owner_identity))
unfolding roll_back publish
rollback_leaves_cleanup m m' m1 m2 e g t o r a b d back out kept cleaned =
    let (m'', c, went, (is, owner)) = cleans_in_grace m m' r o a t e g cleaned in
    let reached : in_phase m (grace e t) e g ≡ m2 = ground arith in
    let waiting : in_phase m (activating e) e g ≡ m1 = ground arith in
    (
      subst (λ x. clean_up_source x r o true ≡ err migration_cleanup_fenced) waiting
          (fenced_while_activating m r o e g),
      (
        m'',
        c,
        subst (λ x. clean_up_source x r o true ≡ ok (m'', c)) reached went,
        is,
        owner ∙ sym kept,
      ),
    )
