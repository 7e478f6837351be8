-- ===== src/Txn/Overlay/Covers.antt =====
-- `history_covers` finds exactly the histories that are valid throughout an interval.
use dtgproxy.Base.{
  ◌≡◌, ◌↔◌, refl, sym, ◌∙◌, inl, inr, true, false, ◌||◌, List, [], ◌∷◌, any, All, All-map, sort_by,
  place_by, any-sort_by, All-place_by, if_intro, arith, ℤ, ◌≤ℤ◌, ◌<ℤ◌, ltb_ℤ, leb_ℤ, max_ℤ,
  Bool-cases,
}
use dtgproxy.Kernel.{ValidInterval}
use dtgproxy.Kernel.Intervals.{Contains, IsInterval}
use dtgproxy.Storage.Mutation.{VertexVersion}
use dtgproxy.Txn.Overlay.{holds_at, covers_loop, interval_earlier, valid_times, history_covers}

abbrev pub Covered : List ValidInterval → ℤ → Type 0
Covered is t = any (λ i. holds_at i t) is ≡ true

loop_sound :
    (is : List ValidInterval) (covered : ℤ) (required : ValidInterval) (t : ℤ)
    → covers_loop covered required is ≡ true
    → covered ≤ℤ t
    → t <ℤ required.end
    → Covered is t
loop_sound [] covered required t e from to = cc
loop_sound (i ∷ is) covered required t e from to = elim (Bool-cases (holds_at i t)) [
  | inl hit ↦ ground arith
  | inr miss ↦ elim (Bool-cases (leb_ℤ i.end covered || leb_ℤ required.end i.start)) [
    | inl skip ↦ let rest = loop_sound is covered required t (ground arith) from to in ground arith
    | inr here ↦ elim (Bool-cases (leb_ℤ required.end (max_ℤ covered i.end))) [
      | inl full ↦ let no_way : ⊥ = ground arith in absurd no_way
      | inr more ↦
          let rest =
            loop_sound is (max_ℤ covered i.end) required t (ground arith) (ground arith) to in
          ground arith
    ]
  ]
]

abbrev IsSorted : List ValidInterval → Type 0
IsSorted [] = Unit
IsSorted (i ∷ is) = All (λ j. i.start ≤ℤ j.start) is × IsSorted is

none_before :
    (is : List ValidInterval) (t : ℤ)
    → All (λ j. t <ℤ j.start) is
    → any (λ i. holds_at i t) is ≡ false
none_before [] t h = refl
none_before (i ∷ is) t h = ground (arith, none_before is t h.1)

loop_complete :
    (is : List ValidInterval) (covered : ℤ) (required : ValidInterval)
    → IsSorted is
    → covered <ℤ required.end
    → ((t : ℤ) → covered ≤ℤ t → t <ℤ required.end → Covered is t)
    → covers_loop covered required is ≡ true
loop_complete [] covered required sorted gap all = let h = all covered (omega arith) gap in cc
loop_complete (i ∷ is) covered required sorted gap all =
    elim (Bool-cases (leb_ℤ i.end covered || leb_ℤ required.end i.start)) [
      | inl skip ↦
          let rest =
            loop_complete is covered required sorted.1 gap
              (λ t from to. let h = all t from to in ground arith) in
          ground arith
      | inr here ↦ elim (Bool-cases (ltb_ℤ covered i.start)) [
        | inl hole ↦
            let h = all covered (omega arith) gap in
            let later =
              All-map (λ j. i.start ≤ℤ j.start) (λ j. covered <ℤ j.start) (λ j k. ground arith) is
                sorted.0 in
            let none_there = none_before is covered later in ground arith
        | inr joined ↦ elim (Bool-cases (leb_ℤ required.end (max_ℤ covered i.end))) [
          | inl full ↦ ground arith
          | inr more ↦
              let rest =
                loop_complete is (max_ℤ covered i.end) required sorted.1 (ground arith)
                  (λ t from to. let h = all t (ground arith) to in ground arith) in
              ground arith
        ]
      ]
    ]

All-head :
    (i j : ValidInterval) (is : List ValidInterval)
    → i.start ≤ℤ j.start
    → All (λ k. j.start ≤ℤ k.start) is
    → All (λ k. i.start ≤ℤ k.start) is
All-head i j is h k =
    All-map (λ k. j.start ≤ℤ k.start) (λ k. i.start ≤ℤ k.start) (λ k a. omega arith) is k

placed-IsSorted :
    (i : ValidInterval) (is : List ValidInterval)
    → IsSorted is
    → IsSorted (place_by interval_earlier i is)
placed-IsSorted i [] s = (tt, tt)
placed-IsSorted i (j ∷ is) s =
    if_intro IsSorted (interval_earlier j i) (j ∷ place_by interval_earlier i is) (i ∷ j ∷ is)
      (λ less. (
        All-place_by (λ k. j.start ≤ℤ k.start) interval_earlier i is (ground arith) s.0,
        placed-IsSorted i is s.1,
      ))
      (λ other.
        let first : i.start ≤ℤ j.start = ground arith in ((first, All-head i j is first s.0), s))

sort_by-IsSorted : (is : List ValidInterval) → IsSorted (sort_by interval_earlier is)
sort_by-IsSorted [] = tt
sort_by-IsSorted (i ∷ is) = placed-IsSorted i (sort_by interval_earlier is) (sort_by-IsSorted is)

any_times :
    (t : ℤ) (vs : List VertexVersion)
    → any (λ i. holds_at i t) (valid_times vs) ≡ any (λ v. holds_at v.valid_time t) vs
any_times t [] = refl
any_times t (v ∷ vs) = ground (arith, any_times t vs)

covered_by_sort :
    (t : ℤ) (vs : List VertexVersion)
    → any (λ i. holds_at i t) (sort_by interval_earlier (valid_times vs))
      ≡ any (λ v. holds_at v.valid_time t) vs
covered_by_sort t vs =
    any-sort_by (λ i. holds_at i t) interval_earlier (valid_times vs) ∙ any_times t vs

pub history_covers-at :
    (versions : List VertexVersion) (required : ValidInterval) (t : ℤ)
    → history_covers versions required ≡ true
    → Contains required t
    → any (λ v. holds_at v.valid_time t) versions ≡ true
unfolding history_covers
history_covers-at versions required t e inside =
    sym (covered_by_sort t versions)
    ∙ loop_sound (sort_by interval_earlier (valid_times versions)) required.start required t e
        inside.0 inside.1

-- A history covers an interval that is not empty exactly when at each of its instants some version
-- of the history is valid.
pub history_covers_iff :
    (versions : List VertexVersion) (required : ValidInterval)
    → IsInterval required
    → (history_covers versions required ≡ true)
      ↔ ((t : ℤ) → Contains required t → any (λ v. holds_at v.valid_time t) versions ≡ true)
unfolding history_covers
history_covers_iff versions required filled =
    let sorted = sort_by-IsSorted (valid_times versions) in
    (
      λ e t inside. history_covers-at versions required t e inside,
      λ h.
          loop_complete (sort_by interval_earlier (valid_times versions)) required.start required
            sorted filled (λ t from to. covered_by_sort t versions ∙ h t (from, to)),
    )
