-- ===== src/Control/Catalog/Lineage.antt =====
-- The lineage of a shard: which backend class each of its generations has had.
use dtgproxy.Base.{
  ℕ, suc, ◌≤◌, ◌≡◌, refl, subst, ap, ◌⊎◌, inl, inr, false, List, [], ◌∷◌, ◌++◌, All, arith, ◌==◌,
  if◌then◌else◌, Option, none, some, ok, >>=-eq-ok, Option-cases, Bool-cases, Result-cases, ◌&&◌,
  u64_max,
}
use dtgproxy.Base.Map.{or_empty, Map, get, insert, nat_key, pair_key, get-insert, get-insert_self}
use dtgproxy.Control.Placement.{ShardPlacement, validate, generation_classes}
use dtgproxy.Control.Catalog.{
  LineageEntry, CatalogCommand, put_placement, pin_retention, unpin_retention, expected_version,
  CatalogState, lineage_of, find_digest, merge_found, merge_classes, place, sort_by_generation,
  drops_pinned, put, pin, unpin, run_command, apply,
}

find-place :
    (g : ℕ) (entry : LineageEntry) (xs : List LineageEntry)
    → find_digest g (place entry xs)
      ≡ (if entry.generation == g then some entry.backend_class_digest else find_digest g xs)
find-place g entry [] = refl
find-place g entry (x ∷ xs) = ground (arith, find-place g entry xs)

find-sort :
    (g : ℕ) (xs : List LineageEntry) → find_digest g (sort_by_generation xs) ≡ find_digest g xs
find-sort g [] = refl
find-sort g (x ∷ xs) = ground (arith, find-place g x (sort_by_generation xs), find-sort g xs)

find_append_kept :
    (g d : ℕ) (xs ys : List LineageEntry)
    → find_digest g xs ≡ some d
    → find_digest g (xs ++ ys) ≡ some d
find_append_kept g d [] ys e = cc
find_append_kept g d (x ∷ xs) ys e = ground (arith, find_append_kept g d xs ys)

find_append_new :
    (g d : ℕ) (xs : List LineageEntry)
    → find_digest g xs ≡ none
    → find_digest g (xs ++ (record { generation = g; backend_class_digest = d } ∷ [])) ≡ some d
find_append_new g d [] e = ground arith
find_append_new g d (x ∷ xs) e = ground (arith, find_append_new g d xs)

-- One merge keeps what is found, and finds the class that it merges.
merge_found_lem :
    (g d : ℕ) (xs out : List LineageEntry)
    → merge_found xs g d (find_digest g xs) ≡ ok out
    → (find_digest g out ≡ some d)
      × ((h c : ℕ) → find_digest h xs ≡ some c → find_digest h out ≡ some c)
merge_found_lem g d xs out e = elim (Option-cases (find_digest g xs)) [
  | inl missing ↦
      let made : xs ++ (record { generation = g; backend_class_digest = d } ∷ []) ≡ out =
        ground arith in
      subst
        (λ o.
          (find_digest g o ≡ some d)
          × ((h c : ℕ) → find_digest h xs ≡ some c → find_digest h o ≡ some c))
        made
        (
          find_append_new g d xs missing,
          λ h c. find_append_kept h c xs (record { generation = g; backend_class_digest = d } ∷ []),
        )
  | inr (known, found) ↦ (ground arith, λ h c k. ground arith)
]

pub merge_classes_kept :
    (m : Map ℕ ℕ) (xs out : List LineageEntry)
    → merge_classes xs m ≡ ok out
    → (h c : ℕ) → find_digest h xs ≡ some c
    → find_digest h out ≡ some c
unfolding merge_classes
merge_classes_kept [] xs out e h c k = ground arith
merge_classes_kept ((g, d) ∷ m) xs out e h c k =
    let (mid, first, rest) =
      >>=-eq-ok (merge_found xs g d (find_digest g xs)) (λ merged. merge_classes merged m) e in
    merge_classes_kept m mid out rest h c ((merge_found_lem g d xs mid first).1 h c k)

-- Every class that is merged is found afterwards.
pub merge_classes_found :
    (m : Map ℕ ℕ) (xs out : List LineageEntry)
    → merge_classes xs m ≡ ok out
    → All (λ p. find_digest p.0 out ≡ some p.1) m
unfolding merge_classes
merge_classes_found [] xs out e = tt
merge_classes_found ((g, d) ∷ m) xs out e =
    let (mid, first, rest) =
      >>=-eq-ok (merge_found xs g d (find_digest g xs)) (λ merged. merge_classes merged m) e in
    (
      merge_classes_kept m mid out rest g d (merge_found_lem g d xs mid first).0,
      merge_classes_found m mid out rest,
    )

pub All_get : (P : ℕ × ℕ → Type 0) (m : Map ℕ ℕ) → All P m → (g d : ℕ) → get g m ≡ some d → P (g, d)
unfolding get
All_get P [] h g d e = cc
All_get P ((k, v) ∷ m) h g d e = elim (Bool-cases (k == g)) [
  | inl hit ↦ let same : (k, v) ≡ (g, d) = ground arith in subst P same h.0
  | inr miss ↦ All_get P m h.1 g d (ground arith)
]

abbrev pub class_known : CatalogState → ℕ → ℕ → ℕ → Option ℕ
class_known s graph_id shard_id g = find_digest g (lineage_of s graph_id shard_id)

-- What a placement that is put does to the lineages.
pub record Put (s : CatalogState) (p : ShardPlacement) (s' : CatalogState) : Type 0 where
  pub valid : validate p ≡ ok tt
  pub permitted : drops_pinned s p (get (p.graph_id, p.shard_id) s.placements) ≡ false
  pub merged : List LineageEntry
  pub merge : merge_classes (lineage_of s p.graph_id p.shard_id) (generation_classes p) ≡ ok merged
  pub lineage : s'.lineage ≡ insert (p.graph_id, p.shard_id) (sort_by_generation merged) s.lineage
  pub placements : s'.placements ≡ insert (p.graph_id, p.shard_id) p s.placements
  pub pins : s'.retention_pins ≡ s.retention_pins

pub put-Put :
    (s : CatalogState) (p : ShardPlacement) (s' : CatalogState) → put s p ≡ ok s' → Put s p s'
unfolding put
put-Put s p s' e =
    elim (Result-cases
      (merge_classes (lineage_of s p.graph_id p.shard_id) (generation_classes p))) [
        | inl (merged, merge) ↦ record {
          valid = ground arith;
          permitted = ground arith;
          merged = merged;
          merge = merge;
          lineage = ground arith;
          placements = ground arith;
          pins = ground arith;
        }
        | inr (_, failed) ↦ let no_way : ⊥ = ground arith in absurd no_way
      ]

-- The other two commands leave the lineage and the placements alone.
pub run_command-cases :
    (s : CatalogState) (c : CatalogCommand) (s' : CatalogState)
    → run_command s c ≡ ok s'
    → ((p : ShardPlacement) × Put s p s')
      ⊎ ((s'.lineage ≡ s.lineage) × (s'.placements ≡ s.placements))
unfolding pin unpin
run_command-cases s (put_placement _ p) s' e = inl (p, put-Put s p s' e)
run_command-cases s (pin_retention _ _ _ _ _) s' e = inr (ground arith, ground arith)
run_command-cases s (unpin_retention _ _ _ _ _) s' e = inr (ground arith, ground arith)

Put-keeps :
    (s : CatalogState) (p : ShardPlacement) (s' : CatalogState) (graph_id shard_id g d : ℕ)
    → Put s p s'
    → class_known s graph_id shard_id g ≡ some d
    → class_known s' graph_id shard_id g ≡ some d
Put-keeps s p s' graph_id shard_id g d change k =
    let at =
      get-insert (p.graph_id, p.shard_id) (graph_id, shard_id) (sort_by_generation change.merged)
        s.lineage in
    elim (Bool-cases (p.graph_id == graph_id && p.shard_id == shard_id)) [
      | inl hit ↦
          let same : (graph_id, shard_id) ≡ (p.graph_id, p.shard_id) = ground arith in
          let before : find_digest g (lineage_of s p.graph_id p.shard_id) ≡ some d =
            subst (λ key. find_digest g (or_empty (get key s.lineage)) ≡ some d) same k in
          let merged =
            merge_classes_kept (generation_classes p) (lineage_of s p.graph_id p.shard_id)
              change.merged change.merge g d before in
          let found : get (graph_id, shard_id) s'.lineage
              ≡ some (sort_by_generation change.merged) =
            rw (change.lineage, at, hit) in
          rw (found, find-sort g change.merged, merged)
      | inr miss ↦
          let found : get (graph_id, shard_id) s'.lineage ≡ get (graph_id, shard_id) s.lineage =
            rw (change.lineage, at, miss) in
          rw (found, k)
    ]

-- One command, from the state that it names to the next version.
pub record Applied (s : CatalogState) (c : CatalogCommand) (s' : CatalogState) : Type 0 where
  pub next : CatalogState
  pub ran : run_command s c ≡ ok next
  pub expected : expected_version c ≡ s.version
  pub version : s'.version ≡ suc s.version
  pub bounded : s'.version ≤ u64_max
  pub same : s' ≡ record next { version = suc s.version }

pub apply-Applied :
    (s : CatalogState) (c : CatalogCommand) (s' : CatalogState) → apply s c ≡ ok s' → Applied s c s'
unfolding apply
apply-Applied s c s' e = elim (Result-cases (run_command s c)) [
  | inl (next, ran) ↦ record {
    next = next;
    ran = ran;
    expected = ground arith;
    version = ground arith;
    bounded = ground arith;
    same = ground arith;
  }
  | inr (_, failed) ↦ let no_way : ⊥ = ground arith in absurd no_way
]

pub apply_keeps :
    (s : CatalogState) (c : CatalogCommand) (s' : CatalogState) (graph_id shard_id g d : ℕ)
    → apply s c ≡ ok s'
    → class_known s graph_id shard_id g ≡ some d
    → class_known s' graph_id shard_id g ≡ some d
apply_keeps s c s' graph_id shard_id g d e k =
    let applied = apply-Applied s c s' e in
    let same_lineage : s'.lineage ≡ applied.next.lineage = ap (λ x. x.lineage) applied.same in
    elim (run_command-cases s c applied.next applied.ran) [
      | inl (p, change) ↦
          rw (same_lineage, Put-keeps s p applied.next graph_id shard_id g d change k)
      | inr (kept, _) ↦ rw (same_lineage, kept, k)
    ]

-- The classes of a placement that is put are in the lineage of its shard.
pub put_records :
    (s : CatalogState) (v : ℕ) (p : ShardPlacement) (s' : CatalogState) (g d : ℕ)
    → apply s (put_placement v p) ≡ ok s'
    → get g (generation_classes p) ≡ some d
    → class_known s' p.graph_id p.shard_id g ≡ some d
put_records s v p s' g d e k =
    let applied = apply-Applied s (put_placement v p) s' e in
    let change = put-Put s p applied.next applied.ran in
    let all_found =
      merge_classes_found (generation_classes p) (lineage_of s p.graph_id p.shard_id) change.merged
        change.merge in
    let found =
      All_get (λ x. find_digest x.0 change.merged ≡ some x.1) (generation_classes p) all_found g d
        k in
    let stored : get (p.graph_id, p.shard_id) applied.next.lineage
        ≡ some (sort_by_generation change.merged) =
      rw (
        change.lineage,
        get-insert_self (p.graph_id, p.shard_id) (sort_by_generation change.merged) s.lineage,
      ) in
    let same_lineage : s'.lineage ≡ applied.next.lineage = ap (λ x. x.lineage) applied.same in
    rw (same_lineage, stored, find-sort g change.merged, found)
