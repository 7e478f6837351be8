-- ===== src/Control/Migration/Mirrored.antt =====
-- The proof that all voters report the same data, and the steps that need it.
use dtgproxy.Base.{
  ℕ, ◌≡◌, refl, ap, ◌∙◌, subst, inl, inr, ◌&&◌, [], ◌∷◌, All, arith, ◌==◌, Option, none, some, ok,
  Result-cases, Option-cases, Bool-cases,
}
use dtgproxy.Base.Map.{Set, get, nat_key, pair_key}
use dtgproxy.Control.Migration.Receipt.{MigrationReceipt, MigrationReceiptKind, kind_key}
use dtgproxy.Control.Migration.{MigrationRecord, Receipts, or_else, prove_voters, equal_voter_proof}

-- The voter's receipt of that kind, at that index and with that digest.
pub record HasProof (receipts : Receipts) (kind : MigrationReceiptKind) (index digest voter : ℕ)
    : Type 0 where
  pub receipt : MigrationReceipt
  pub present : get (kind, voter) receipts ≡ some receipt
  pub at_index : receipt.applied_index ≡ index
  pub with_digest : receipt.logical_digest ≡ digest

abbrev pub AllProve : Receipts → MigrationReceiptKind → ℕ → ℕ → Set ℕ → Type 0
AllProve receipts kind index digest voters =
    All (λ v. HasProof receipts kind index digest v.0) voters

or_else_self : (o : Option MigrationReceipt) → or_else o o ≡ o
or_else_self none = refl
or_else_self (some r) = refl

module _ (receipts : Receipts) (kind : MigrationReceiptKind) where
  prove_voters-some :
      (voters : Set ℕ) (i d : ℕ) (out : Option (ℕ × ℕ))
      → prove_voters receipts kind kind voters (some (i, d)) ≡ ok out
      → (out ≡ some (i, d)) × AllProve receipts kind i d voters
  unfolding prove_voters
  prove_voters-some [] i d out e = (ground arith, tt)
  prove_voters-some ((v, u) ∷ voters) i d out e = elim (Option-cases (get (kind, v) receipts)) [
    | inl missing ↦ let no_way : ⊥ = ground arith in absurd no_way
    | inr (r, present) ↦ elim (Bool-cases (i == r.applied_index && d == r.logical_digest)) [
      | inr differs ↦ let no_way : ⊥ = ground arith in absurd no_way
      | inl same ↦
          let (found, rest) = prove_voters-some voters i d out (ground arith) in
          (
            found,
            (
              record {
                receipt = r;
                present = present;
                at_index = ground arith;
                with_digest = ground arith;
              },
              rest,
            ),
          )
    ]
  ]

  prove_voters-none :
      (voters : Set ℕ) (i d : ℕ)
      → prove_voters receipts kind kind voters none ≡ ok (some (i, d))
      → AllProve receipts kind i d voters
  unfolding prove_voters
  prove_voters-none [] i d e = tt
  prove_voters-none ((v, u) ∷ voters) i d e = elim (Option-cases (get (kind, v) receipts)) [
    | inl missing ↦ let no_way : ⊥ = ground arith in absurd no_way
    | inr (r, present) ↦
        let (found, rest) =
          prove_voters-some voters r.applied_index r.logical_digest (some (i, d)) (ground arith) in
        let at_index : r.applied_index ≡ i = ground arith in
        let with_digest : r.logical_digest ≡ d = ground arith in
        (
          record { receipt = r; present = present; at_index = at_index; with_digest = with_digest },
          subst (λ x. AllProve receipts kind i x voters) with_digest
              (subst (λ x. AllProve receipts kind x r.logical_digest voters) at_index rest),
        )
  ]

pub equal_voter_proof-AllProve :
    (m : MigrationRecord) (kind : MigrationReceiptKind) (i d : ℕ)
    → equal_voter_proof m kind kind ≡ ok (i, d)
    → AllProve m.receipts kind i d m.expected_voters
unfolding equal_voter_proof
equal_voter_proof-AllProve m kind i d e =
    elim (Result-cases (prove_voters m.receipts kind kind m.expected_voters none)) [
      | inr (error, refused) ↦ let no_way : ⊥ = ground arith in absurd no_way
      | inl (found, proved) ↦
          let there : found ≡ some (i, d) = ground arith in
          prove_voters-none m.receipts kind m.expected_voters i d (proved ∙ ap ok there)
    ]
