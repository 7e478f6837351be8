-- ===== src/Control/Catalog/Invariant.antt =====
-- The well-formedness of the catalog, kept by every command.
use dtgproxy.Base.{
  ℕ, ◌≡◌, ◌⊎◌, refl, sym, ap, ◌∙◌, subst, inl, inr, true, false, List, [], ◌∷◌, any, is_nil, arith,
  ◌==◌, String, Option, none, some, is_some, ok, Option-cases, Bool-cases,
}
use dtgproxy.Base.Map.{
  or_empty, Map, Set, Key, get, insert, remove, nat_key, pair_key, get-insert, get-remove,
  get-replace, AllValues, AllValues-insert,
}
use dtgproxy.Base.Strings.{text_key}
use dtgproxy.Control.Placement.{ShardPlacement, validate, generation_classes}
use dtgproxy.Control.Catalog.{
  LineageEntry, CatalogCommand, put_placement, pin_retention, unpin_retention, CatalogState,
  new_catalog, lineage_of, find_digest, add_pin, drop_pin, pin, unpin, apply,
}
use dtgproxy.Control.Catalog.Lineage.{put-Put, apply-Applied, apply_keeps, put_records, class_known}

-- Every placement is valid and stands under its own key, its classes are in the lineage of its
-- shard, and a generation that has pins is in the lineage and has a pin.
pub record IsWellFormed (s : CatalogState) : Type 0 where
  pub valid : AllValues (λ p. validate p ≡ ok tt) s.placements
  pub keyed :
      (k : ℕ × ℕ) (p : ShardPlacement) → get k s.placements ≡ some p → (p.graph_id, p.shard_id) ≡ k
  pub recorded :
      (k : ℕ × ℕ) (p : ShardPlacement) (g d : ℕ)
      → get k s.placements ≡ some p
      → get g (generation_classes p) ≡ some d
      → class_known s k.0 k.1 g ≡ some d
  pub pinned :
      (graph_id shard_id g : ℕ) (names : Set String)
      → get (graph_id, (shard_id, g)) s.retention_pins ≡ some names
      → (is_nil names ≡ false) × (is_some (class_known s graph_id shard_id g) ≡ true)

pub initial-IsWellFormed : IsWellFormed new_catalog
unfolding get
initial-IsWellFormed = record {
  valid = tt;
  keyed = λ k p e. cc;
  recorded = λ k p g d e. cc;
  pinned = λ a b g names e. cc;
}

known_any :
    (g : ℕ) (xs : List LineageEntry) → is_some (find_digest g xs) ≡ any (λ x. x.generation == g) xs
known_any g [] = refl
known_any g (x ∷ xs) = ground (arith, known_any g xs)

known_kept :
    (a b : Option ℕ) → ((d : ℕ) → a ≡ some d → b ≡ some d) → is_some a ≡ true → is_some b ≡ true
known_kept none b keep h = cc
known_kept (some d) b keep h = ground (arith, keep d refl)

-- The placements after a command: the old ones, or a valid one under its key.
placements-cases :
    (s : CatalogState) (c : CatalogCommand) (s' : CatalogState)
    → apply s c ≡ ok s'
    → (s'.placements ≡ s.placements)
      ⊎ ((v : ℕ) × (p : ShardPlacement) × (c ≡ put_placement v p)
          × (validate p ≡ ok tt)
          × (s'.placements ≡ insert (p.graph_id, p.shard_id) p s.placements))
unfolding pin unpin
placements-cases s (put_placement v p) s' e =
    let applied = apply-Applied s (put_placement v p) s' e in
    let change = put-Put s p applied.next applied.ran in
    let valid : validate p ≡ ok tt = ground (arith, change.valid) in
    inr (v, p, refl, valid, ap (λ x. x.placements) applied.same ∙ change.placements)
placements-cases s (pin_retention v g sh gen name) s' e =
    let applied = apply-Applied s (pin_retention v g sh gen name) s' e in
    let ran = applied.ran in let same = applied.same in inl (ground arith)
placements-cases s (unpin_retention v g sh gen name) s' e =
    let applied = apply-Applied s (unpin_retention v g sh gen name) s' e in
    let ran = applied.ran in let same = applied.same in inl (ground arith)

valid_after :
    (s : CatalogState) (c : CatalogCommand) (s' : CatalogState)
    → apply s c ≡ ok s'
    → IsWellFormed s
    → AllValues (λ p. validate p ≡ ok tt) s'.placements
valid_after s c s' e w = elim (placements-cases s c s' e) [
  | inl same ↦ subst (AllValues (λ p. validate p ≡ ok tt)) (sym same) w.valid
  | inr (v, p, _, valid, changed) ↦ subst (AllValues (λ q. validate q ≡ ok tt)) (sym changed) (
      AllValues-insert (λ q. validate q ≡ ok tt) (p.graph_id, p.shard_id) p s.placements valid
        w.valid)
]

keyed_after :
    (s : CatalogState) (c : CatalogCommand) (s' : CatalogState)
    → apply s c ≡ ok s'
    → IsWellFormed s
    → (k : ℕ × ℕ) (q : ShardPlacement) → get k s'.placements ≡ some q
    → (q.graph_id, q.shard_id) ≡ k
keyed_after s c s' e w k q h = elim (placements-cases s c s' e) [
  | inl same ↦ w.keyed k q (subst (λ m. get k m ≡ some q) same h)
  | inr (v, p, _, valid, changed) ↦
      let h' : get k (insert (p.graph_id, p.shard_id) p s.placements) ≡ some q =
        subst (λ m. get k m ≡ some q) changed h in
      ground (
        arith,
        get-insert (p.graph_id, p.shard_id) k p s.placements,
        pair_key.same_iff (p.graph_id, p.shard_id) k,
        w.keyed k q,
      )
]

recorded_after :
    (s : CatalogState) (c : CatalogCommand) (s' : CatalogState)
    → apply s c ≡ ok s'
    → IsWellFormed s
    → (k : ℕ × ℕ) (q : ShardPlacement) (g d : ℕ) → get k s'.placements ≡ some q
    → get g (generation_classes q) ≡ some d
    → class_known s' k.0 k.1 g ≡ some d
recorded_after s c s' e w k q g d h i = elim (placements-cases s c s' e) [
  | inl same ↦
      apply_keeps s c s' k.0 k.1 g d e (w.recorded k q g d (subst (λ m. get k m ≡ some q) same h) i)
  | inr (v, p, is_put, valid, changed) ↦
      let h' : get k (insert (p.graph_id, p.shard_id) p s.placements) ≡ some q =
        subst (λ m. get k m ≡ some q) changed h in
      let at = get-insert (p.graph_id, p.shard_id) k p s.placements in
      elim (Bool-cases (pair_key.same (p.graph_id, p.shard_id) k)) [
        | inl hit ↦
            let here : (p.graph_id, p.shard_id) ≡ k =
              (pair_key.same_iff (p.graph_id, p.shard_id) k).0 hit in
            let same : p ≡ q = ground arith in
            let e' = subst (λ x. apply s x ≡ ok s') is_put e in
            let put_here =
              put_records s v p s' g d e'
                (subst (λ x. get g (generation_classes x) ≡ some d) (sym same) i) in
            subst (λ x. class_known s' x.0 x.1 g ≡ some d) here put_here
        | inr miss ↦ apply_keeps s c s' k.0 k.1 g d e (w.recorded k q g d (ground arith) i)
      ]
]

module _ {N : Type 0} ⦃e : Key N⦄ where
  insert_filled : (n : N) (xs : Set N) → is_nil (insert n tt xs) ≡ false
  unfolding insert
  insert_filled n [] = refl
  insert_filled n ((m, u) ∷ xs) = ground arith

module _ {K N : Type 0} ⦃o : Key K⦄ ⦃e : Key N⦄ where
  -- A generation that has pins after a pin or an unpin has a pin, and is the pinned one or had pins.
  get-add_pin :
      (pins : Map K (Set N)) (key k : K) (name : N) (names : Set N)
      → get k (add_pin key name pins) ≡ some names
      → ((is_nil names ≡ false) × (key ≡ k)) ⊎ (get k pins ≡ some names)
  get-add_pin pins key k name names h =
      let at = get-insert key k (insert name tt (or_empty (get key pins))) pins in
      let filled = insert_filled name (or_empty (get key pins)) in
      elim (Bool-cases (o.same key k)) [
        | inl hit ↦ inl (ground arith, (o.same_iff key k).0 hit)
        | inr miss ↦ inr (ground arith)
      ]

  get-drop_pin :
      (pins : Map K (Set N)) (key k : K) (name : N) (held : Option (Set N)) (names : Set N)
      → get key pins ≡ held
      → get k (drop_pin key name held pins) ≡ some names
      → ((is_nil names ≡ false) × (is_some (get k pins) ≡ true)) ⊎ (get k pins ≡ some names)
  get-drop_pin pins key k name none names missing h = inr h
  get-drop_pin pins key k name (some held) names found h =
      let same_key = o.same_iff key k in
      let removed = get-remove key k pins in
      let replaced = get-replace key k (remove name held) pins in
      elim (Bool-cases (o.same key k)) [
        | inl hit ↦ inl (ground arith, ground arith)
        | inr miss ↦ inr (ground arith)
      ]

-- Seen from the state before: the lineage of a pinned generation was known there.
pinned_after :
    (s : CatalogState) (c : CatalogCommand) (s' : CatalogState) (k : ℕ × (ℕ × ℕ))
    (names : Set String)
    → apply s c ≡ ok s'
    → IsWellFormed s
    → get k s'.retention_pins ≡ some names
    → (is_nil names ≡ false) × (is_some (class_known s k.0 k.1.0 k.1.1) ≡ true)
unfolding pin unpin
pinned_after s (put_placement v p) s' k names e w h =
    let applied = apply-Applied s (put_placement v p) s' e in
    let change = put-Put s p applied.next applied.ran in
    let same : s'.retention_pins ≡ s.retention_pins =
      ap (λ x. x.retention_pins) applied.same ∙ change.pins in
    w.pinned k.0 k.1.0 k.1.1 names (subst (λ m. get k m ≡ some names) same h)
pinned_after s (pin_retention v g sh gen name) s' k names e w h =
    let applied = apply-Applied s (pin_retention v g sh gen name) s' e in
    let ran = applied.ran in
    let same = applied.same in
    let key : ℕ × (ℕ × ℕ) = (g, (sh, gen)) in
    let pins : s'.retention_pins ≡ add_pin key name s.retention_pins = ground arith in
    elim (get-add_pin s.retention_pins key k name names
      (subst (λ m. get k m ≡ some names) pins h)) [
        | inl (filled, here) ↦
            let known : is_some (class_known s g sh gen) ≡ true =
              ground (arith, known_any gen (lineage_of s g sh)) in
            (filled, subst (λ x. is_some (class_known s x.0 x.1.0 x.1.1) ≡ true) here known)
        | inr old ↦ w.pinned k.0 k.1.0 k.1.1 names old
      ]
pinned_after s (unpin_retention v g sh gen name) s' k names e w h =
    let applied = apply-Applied s (unpin_retention v g sh gen name) s' e in
    let ran = applied.ran in
    let same = applied.same in
    let key : ℕ × (ℕ × ℕ) = (g, (sh, gen)) in
    let pins : s'.retention_pins ≡ drop_pin key name (get key s.retention_pins) s.retention_pins =
      ground arith in
    elim (get-drop_pin s.retention_pins key k name (get key s.retention_pins) names refl
      (subst (λ m. get k m ≡ some names) pins h)) [
        | inl (filled, had) ↦ elim (Option-cases (get k s.retention_pins)) [
          | inl missing ↦ let no_way : ⊥ = ground arith in absurd no_way
          | inr (old_names, old) ↦ (filled, (w.pinned k.0 k.1.0 k.1.1 old_names old).1)
        ]
        | inr old ↦ w.pinned k.0 k.1.0 k.1.1 names old
      ]

-- A command that is applied to a well-formed catalog leaves one: every placement is valid and stands
-- under its own key, its classes are in the lineage of its shard, and a generation that has pins is
-- in that lineage and has one pin at least.
pub apply-IsWellFormed :
    (s : CatalogState) (c : CatalogCommand) (s' : CatalogState)
    → apply s c ≡ ok s'
    → IsWellFormed s
    → IsWellFormed s'
apply-IsWellFormed s c s' e w = record {
  valid = valid_after s c s' e w;
  keyed = keyed_after s c s' e w;
  recorded = recorded_after s c s' e w;
  pinned = λ graph_id shard_id g names h.
      let (filled, known) = pinned_after s c s' (graph_id, (shard_id, g)) names e w h in
      (
        filled,
        known_kept (class_known s graph_id shard_id g) (class_known s' graph_id shard_id g)
            (λ d. apply_keeps s c s' graph_id shard_id g d e) known,
      );
}
