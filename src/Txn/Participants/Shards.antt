-- ===== src/Txn/Participants/Shards.antt =====
-- The shard ids that `validate_participants` collects.
use dtgproxy.Base.{
  ℕ, suc, ◌+◌, ◌≡◌, ◌≤◌, ◌<◌, ◌↔◌, refl, subst, ap, inl, inr, Bool, false, ◌&&◌, ◌||◌, List, [],
  ◌∷◌, length, any, any_pair, all, All, All-map, arith, ◌==◌, ltb, if◌then◌else◌, if_intro,
  Bool-cases,
}
use dtgproxy.Base.Map.{Set, get, insert, contains_key, nat_key, get-insert}
use dtgproxy.Txn.Participants.{ParticipantWrite, collect_ids}

abbrev IsSorted : Set ℕ → Type 0
IsSorted [] = Unit
IsSorted (k ∷ rest) = All (λ e. k.0 < e.0) rest × IsSorted rest

absent : (k : ℕ) (s : Set ℕ) → All (λ e. k < e.0) s → contains_key k s ≡ false
unfolding get
absent k [] h = refl
absent k (e ∷ s) h = ground (arith, absent k s h.1)

after : (j k : ℕ) (s : Set ℕ) → j < k → All (λ e. k < e.0) s → All (λ e. j < e.0) s
after j k s lt h = All-map (λ e. k < e.0) (λ e. j < e.0) (λ e a. omega arith) s h

above_insert :
    (j k : ℕ) (s : Set ℕ) → j < k → All (λ e. j < e.0) s → All (λ e. j < e.0) (insert k tt s)
unfolding insert
above_insert j k [] lt h = (lt, tt)
above_insert j k (e ∷ s) lt h =
    if_intro (λ l. All (λ x. j < x.0) l) (e.0 == k) ((k, tt) ∷ s)
      (if ltb k e.0 then (k, tt) ∷ e ∷ s else e ∷ insert k tt s) (λ _. (lt, h.1))
      (λ _.
        if_intro (λ l. All (λ x. j < x.0) l) (ltb k e.0) ((k, tt) ∷ e ∷ s) (e ∷ insert k tt s)
          (λ _. (lt, h)) (λ _. (h.0, above_insert j k s lt h.1)))

insert-IsSorted : (k : ℕ) (s : Set ℕ) → IsSorted s → IsSorted (insert k tt s)
unfolding insert
insert-IsSorted k [] h = (tt, tt)
insert-IsSorted k (e ∷ s) h =
    if_intro IsSorted (e.0 == k) ((k, tt) ∷ s)
      (if ltb k e.0 then (k, tt) ∷ e ∷ s else e ∷ insert k tt s)
      (λ same.
        let here : e.0 ≡ k = ground arith in (subst (λ n. All (λ x. n < x.0) s) here h.0, h.1))
      (λ other.
        if_intro IsSorted (ltb k e.0) ((k, tt) ∷ e ∷ s) (e ∷ insert k tt s)
          (λ before. let lt : k < e.0 = ground arith in ((lt, after k e.0 s lt h.0), h))
          (λ later. (above_insert e.0 k s (ground arith) h.0, insert-IsSorted k s h.1)))

length-insert :
    (k : ℕ) (s : Set ℕ)
    → IsSorted s
    → length (insert k tt s) ≡ (if contains_key k s then length s else suc (length s))
unfolding insert get
length-insert k [] h = refl
length-insert k (e ∷ s) h = elim (Bool-cases (ltb k e.0)) [
  | inl before ↦ let gone = absent k s (after k e.0 s (ground arith) h.0) in ground arith
  | inr later ↦ ground (arith, length-insert k s h.1)
]

abbrev pub same_shard : ParticipantWrite → ParticipantWrite → Bool
same_shard a b = a.shard_id == b.shard_id

held : Set ℕ → List ParticipantWrite → Bool
held s ps = any (λ p. contains_key p.shard_id s) ps

contains-insert :
    (k j : ℕ) (s : Set ℕ) → contains_key j (insert k tt s) ≡ (k == j || contains_key j s)
contains-insert k j s = ground (arith, get-insert k j tt s)

held-insert :
    (p : ParticipantWrite) (s : Set ℕ) (ps : List ParticipantWrite)
    → held (insert p.shard_id tt s) ps ≡ (any (same_shard p) ps || held s ps)
unfolding held
held-insert p s [] = refl
held-insert p s (q ∷ ps) =
    ground (arith, contains-insert p.shard_id q.shard_id s, held-insert p s ps)

held-nil : (ps : List ParticipantWrite) → held [] ps ≡ false
unfolding held get
held-nil [] = refl
held-nil (p ∷ ps) = held-nil ps

-- The collected ids, with those there before, are as many as the writes exactly when none comes twice.
collect_lem :
    (ps : List ParticipantWrite) (s : Set ℕ)
    → IsSorted s
    → (length (collect_ids ps s) ≤ length s + length ps)
      × ((length (collect_ids ps s) ≡ length s + length ps)
          ↔ ((any_pair same_shard ps || held s ps) ≡ false))
unfolding held
collect_lem [] s h = (omega arith, ground arith)
collect_lem (p ∷ ps) s h =
    let (bound, exact) = collect_lem ps (insert p.shard_id tt s) (insert-IsSorted p.shard_id s h) in
    let size = length-insert p.shard_id s h in
    let spread = held-insert p s ps in
    elim (Bool-cases (contains_key p.shard_id s)) [
      | inl there ↦ (ground arith, ground arith)
      | inr fresh ↦ (ground arith, ground arith)
    ]

-- The collected ids are as many as the writes exactly when no id comes twice.
pub collect_ids-apart :
    (ps : List ParticipantWrite)
    → (length (collect_ids ps []) ≡ length ps) ↔ (any_pair same_shard ps ≡ false)
collect_ids-apart ps =
    let (bound, exact) = collect_lem ps [] tt in let nowhere = held-nil ps in ground arith

module _ (q : ℕ → Bool) where
  every_id : Set ℕ → Bool
  every_id s = all (λ e. q e.0) s

  every_id-insert : (k : ℕ) (s : Set ℕ) → every_id (insert k tt s) ≡ (q k && every_id s)
  unfolding every_id insert
  every_id-insert k [] = refl
  every_id-insert k (e ∷ s) = elim (Bool-cases (e.0 == k)) [
    | inl same ↦
        let here : e.0 ≡ k = ground arith in let as_here : q e.0 ≡ q k = ap q here in ground arith
    | inr other ↦ ground (arith, every_id-insert k s)
  ]

  every_id-collect_ids :
      (ps : List ParticipantWrite) (s : Set ℕ)
      → every_id (collect_ids ps s) ≡ (all (λ p. q p.shard_id) ps && every_id s)
  every_id-collect_ids [] s = refl
  every_id-collect_ids (p ∷ ps) s =
      ground (arith, every_id-collect_ids ps (insert p.shard_id tt s), every_id-insert p.shard_id s)

  pub all-collect_ids :
      (ps : List ParticipantWrite)
      → all (λ e. q e.0) (collect_ids ps []) ≡ all (λ p. q p.shard_id) ps
  unfolding every_id
  all-collect_ids ps = ground (arith, every_id-collect_ids ps [])
