-- ===== src/Control/Migration/Cutover.antt =====
-- The receipts that stand behind a cutover and a cleanup.
use dtgproxy.Base.{
  ℕ, ◌<◌, ◌≡◌, ◌≢◌, ◌⊎◌, sym, subst, inl, inr, Bool, true, false, List, All-map, arith, Option,
  some, ok, Result-cases, Option-cases, Bool-cases,
}
use dtgproxy.Base.Map.{Set, get, insert, get-insert, nat_key, pair_key}
use dtgproxy.Storage.{BackendClass}
use dtgproxy.Control.Migration.Receipt.{
  MigrationReceipt, MigrationReceiptKind, forward_mirrored, reverse_mirrored, kind_key,
}
use dtgproxy.Control.Migration.{
  MigrationRecord, Receipts, MigrationState, allocating, backfilling, mirroring, prepared,
  activating, grace, completed, aborted, MigrationAction, new_inner, accepts,
  claim_target_namespace, begin_backfill, begin_mirroring, record_receipt, prepare_migration,
  activate, publish, record_reverse_receipt, abort_migration, roll_back, clean_up_source,
  insert_receipt, validate_receipt, require_catalog, equal_voter_proof, cleanup_of,
}
use dtgproxy.Control.Migration.Steps.{
  Step, claims, backfills, mirrors, records, prepares, activates, publishes, reverses, aborts,
  rolls_back, cleans, Reach, here, next, IsPhased, Step-Goes, SameMigration, clean_up_source-Cleans,
  insert_receipt-same,
}
use dtgproxy.Control.Migration.Mirrored.{HasProof, AllProve, equal_voter_proof-AllProve}

-- A receipt that is there stays there.
abbrev Grows : Receipts → Receipts → Type 0
Grows rs rs' =
    (k : MigrationReceiptKind × ℕ) (r : MigrationReceipt) → get k rs ≡ some r → get k rs' ≡ some r

insert_receipt-Grows :
    (m : MigrationRecord) (r : MigrationReceipt) (m' : MigrationRecord)
    → insert_receipt m r ≡ ok m'
    → Grows m.receipts m'.receipts
unfolding insert_receipt validate_receipt require_catalog
insert_receipt-Grows m r m' e k old there =
    elim (Option-cases (get (r.kind, r.replica_id) m.receipts)) [
      | inl fresh ↦
          let put : insert (r.kind, r.replica_id) r m.receipts ≡ m'.receipts = ground arith in
          subst (λ rs. get k rs ≡ some old) put
            (ground (
              arith,
              get-insert (r.kind, r.replica_id) k r m.receipts,
              pair_key.same_iff (r.kind, r.replica_id) k,
            ))
      | inr (other, had) ↦
          let kept : m.receipts ≡ m'.receipts = ground arith in
          subst (λ rs. get k rs ≡ some old) kept there
    ]

Grows-AllProve :
    (rs rs' : Receipts) (kind : MigrationReceiptKind) (i d : ℕ) (voters : Set ℕ)
    → Grows rs rs'
    → AllProve rs kind i d voters
    → AllProve rs' kind i d voters
Grows-AllProve rs rs' kind i d voters grows =
    All-map (λ v. HasProof rs kind i d v.0) (λ v. HasProof rs' kind i d v.0)
      (λ v h. record {
        receipt = h.receipt;
        present = grows (kind, v.0) h.receipt h.present;
        at_index = h.at_index;
        with_digest = h.with_digest;
      })
      voters

abbrev after_prepare : MigrationState → Bool
after_prepare (prepared _ _) = true
after_prepare (activating _) = true
after_prepare (grace _ _) = true
after_prepare completed = true
after_prepare allocating = false
after_prepare (backfilling _) = false
after_prepare (mirroring _) = false
after_prepare aborted = false

-- What a step does to the receipts, and why it is at the cutover or beyond.
record Receives (m m' : MigrationRecord) : Type 0 where
  grows : Grows m.receipts m'.receipts
  past :
      after_prepare m'.state ≡ true
      → (after_prepare m.state ≡ true)
        ⊎ ((i : ℕ) × (d : ℕ) × (equal_voter_proof m forward_mirrored forward_mirrored ≡ ok (i, d)))

keeps :
    (m m' : MigrationRecord)
    → m.receipts ≡ m'.receipts
    → (after_prepare m'.state ≡ true → after_prepare m.state ≡ true)
    → Receives m m'
keeps m m' same back = record {
  grows = λ k r there. subst (λ rs. get k rs ≡ some r) same there;
  past = λ h. inl (back h);
}

prepares-Receives :
    (m m' : MigrationRecord) (a : MigrationAction)
    → prepare_migration m ≡ ok (m', a)
    → Receives m m'
unfolding prepare_migration
prepares-Receives m m' a e = record {
  grows = λ k r there.
      let same : m.receipts ≡ m'.receipts = ground arith in
      subst (λ rs. get k rs ≡ some r) same there;
  past = λ _. elim (Bool-cases (after_prepare m.state)) [
    | inl past ↦ inl past
    | inr before ↦ elim (Result-cases (equal_voter_proof m forward_mirrored forward_mirrored)) [
      | inl ((i, d), proved) ↦ inr (i, d, proved)
      | inr (error, refused) ↦ let no_way : ⊥ = ground arith in absurd no_way
    ]
  ];
}

cleans-Receives :
    (m m' : MigrationRecord) (r o : ℕ) (p : Bool) (a : MigrationAction)
    → clean_up_source m r o p ≡ ok (m', a)
    → Receives m m'
cleans-Receives m m' r o p a e =
    let c = clean_up_source-Cleans m m' r o p a e in
    let left = c.left in
    let settled = c.settled in
    let same : c.placed.receipts ≡ m'.receipts = ground arith in
    record {
      grows = λ k x there.
          subst (λ rs. get k rs ≡ some x) same
            (insert_receipt-Grows m (cleanup_of m r (c.index, c.digest) o) c.placed c.inserted k x
              there);
      past = λ _. inl (ground arith);
    }

Step-Receives : {m m' : MigrationRecord} → Step m m' → Receives m m'
unfolding claim_target_namespace begin_backfill begin_mirroring record_receipt activate publish
    record_reverse_receipt abort_migration require_catalog roll_back
Step-Receives {m} {m'} (claims r s t o a e) = keeps m m' (ground arith) (λ h. ground arith)
Step-Receives {m} {m'} (backfills i a e) = keeps m m' (ground arith) (λ h. ground arith)
Step-Receives {m} {m'} (mirrors a e) = keeps m m' (ground arith) (λ h. ground arith)
Step-Receives {m} {m'} (records r e) =
    let placed : insert_receipt m r ≡ ok m' = ground arith in
    let (rs, same) = insert_receipt-same m r m' placed in
    record { grows = insert_receipt-Grows m r m' placed; past = λ h. inl (ground arith) }
Step-Receives {m} {m'} (prepares a e) = prepares-Receives m m' a e
Step-Receives {m} {m'} (activates n a pos e) = keeps m m' (ground arith) (λ h. ground arith)
Step-Receives {m} {m'} (publishes at a e) = keeps m m' (ground arith) (λ h. ground arith)
Step-Receives {m} {m'} (reverses r a e) =
    let placed : insert_receipt m r ≡ ok m' = ground arith in
    let (rs, same) = insert_receipt-same m r m' placed in
    record { grows = insert_receipt-Grows m r m' placed; past = λ h. inl (ground arith) }
Step-Receives {m} {m'} (aborts v a e) = keeps m m' (ground arith) (λ h. ground arith)
Step-Receives {m} {m'} (rolls_back x g a pe pg e) = keeps m m' (ground arith) (λ h. ground arith)
Step-Receives {m} {m'} (cleans r o p a e) = cleans-Receives m m' r o p a e

-- All voters report the forward mirror at one index and with one digest.
abbrev pub IsMirrored : MigrationRecord → MigrationReceiptKind → Type 0
IsMirrored m kind = (i : ℕ) × (d : ℕ) × AllProve m.receipts kind i d m.expected_voters

step-IsMirrored :
    (m m' : MigrationRecord)
    → SameMigration m m'
    → Receives m m'
    → (after_prepare m.state ≡ true → IsMirrored m forward_mirrored)
    → after_prepare m'.state ≡ true
    → IsMirrored m' forward_mirrored
step-IsMirrored m m' same rec before past =
    let (i, d, proved) = from in
    (
      i,
      d,
      subst (AllProve m'.receipts forward_mirrored i d) (sym same.same_voters) (
          Grows-AllProve m.receipts m'.receipts forward_mirrored i d m.expected_voters rec.grows
            proved),
    )
  where
    from : IsMirrored m forward_mirrored
    from = elim (rec.past past) [
      | inl had ↦ before had
      | inr (i, d, shown) ↦ (i, d, equal_voter_proof-AllProve m forward_mirrored i d shown)
    ]

Reach-IsMirrored :
    {m m' : MigrationRecord}
    → IsPhased m
    → after_prepare m.state ≡ false
    → Reach m m'
    → IsPhased m' × (after_prepare m'.state ≡ true → IsMirrored m' forward_mirrored)
Reach-IsMirrored w early here = (w, λ h. cc)
Reach-IsMirrored {m} {m' = m''} w early (next {m'} r s) =
    let (phased, before) = Reach-IsMirrored w early r in
    let goes = Step-Goes s phased in
    (goes.phased, step-IsMirrored m' m'' goes.same (Step-Receives s) before)

new_inner-starts :
    (id g sh v e gen : ℕ) (class : Option BackendClass) (target : ℕ) (target_class : BackendClass)
    (voters : List ℕ) (m : MigrationRecord)
    → new_inner id g sh v e gen class target target_class voters ≡ ok m
    → IsPhased m × (after_prepare m.state ≡ false)
unfolding new_inner
new_inner-starts id g sh v e gen class target target_class voters m made = ground arith

-- Where a migration that was made and led through any steps accepts a generation other than its
-- source, every voter has reported its forward mirror, all at one index and with one digest.
pub cutover-IsMirrored :
    (id g sh v e gen : ℕ) (class : Option BackendClass) (target : ℕ) (target_class : BackendClass)
    (voters : List ℕ) (m m' : MigrationRecord) (epoch generation : ℕ)
    → new_inner id g sh v e gen class target target_class voters ≡ ok m
    → Reach m m'
    → accepts m' epoch generation ≡ true
    → generation ≢ m'.source_generation
    → IsMirrored m' forward_mirrored
unfolding accepts
cutover-IsMirrored id g sh v e gen class target target_class voters m m' epoch generation made r
      accepted other =
    let (w, early) = new_inner-starts id g sh v e gen class target target_class voters m made in
    let (phased, shown) = Reach-IsMirrored w early r in
    let phase = phased.phase in
    elim (Bool-cases (after_prepare m'.state)) [
      | inl past ↦ shown past
      | inr before ↦
          let same : generation ≡ m'.source_generation = ground arith in absurd (other same)
    ]

Reach-past :
    {m m' : MigrationRecord}
    → IsPhased m
    → Reach m m'
    → m.source_generation < m.active_generation
    → IsPhased m' × (m'.source_generation < m'.active_generation)
Reach-past w here past = (w, past)
Reach-past w (next r s) past =
    let (phased, gap) = Reach-past w r past in
    let goes = Step-Goes s phased in
    let same = goes.same.same_source in let moves = goes.moves in (goes.phased, ground arith)

-- A cleanup that succeeds is one of the owner that claimed the source's namespace for the replica,
-- with its pins released, after every voter has reported its reverse mirror at one index and with
-- one digest; and neither then nor after any further steps is the source's generation accepted.
pub cleanup_fenced :
    (m m' m'' : MigrationRecord) (r o : ℕ) (p : Bool) (a : MigrationAction)
    → IsPhased m
    → clean_up_source m r o p ≡ ok (m', a)
    → Reach m' m''
    → (get r m.source_owners ≡ some o)
      × (p ≡ true)
      × IsMirrored m reverse_mirrored
      × ((epoch : ℕ) → accepts m'' epoch m''.source_generation ≡ false)
unfolding accepts
cleanup_fenced m m' m'' r o p a w e later =
    let c = clean_up_source-Cleans m m' r o p a e in
    let goes = Step-Goes (cleans r o p a e) w in
    let (rs, same) =
      insert_receipt-same m (cleanup_of m r (c.index, c.digest) o) c.placed c.inserted in
    let settled = c.settled in
    let left = c.left in
    let phase = w.phase in
    let past : m'.source_generation < m'.active_generation = ground arith in
    (
      c.owned,
      c.unpinned,
      (c.index, c.digest, equal_voter_proof-AllProve m reverse_mirrored c.index c.digest c.proved),
      λ epoch. let beyond = Reach-past goes.phased later past in let gap = beyond.1 in ground arith,
    )
