-- ===== src/Control/Catalog/Retention.antt =====
-- Retention pins: what they hold on to.
use dtgproxy.Base.{
  ℕ, ◌≡◌, ◌↔◌, ◌⊎◌, refl, ap, ◌∙◌, subst, inl, inr, Bool, true, false, not, ◌&&◌, ◌||◌, [], ◌∷◌,
  any, is_nil, arith, ◌==◌, String, Option, none, some, ok, Bool-cases,
}
use dtgproxy.Base.Map.{
  or_empty, Map, Set, Key, get, insert, remove, keys, contains_key, nat_key, pair_key, get-insert,
  get-remove, get-replace,
}
use dtgproxy.Base.Strings.{text_key}
use dtgproxy.Control.Placement.{ShardPlacement, generation_classes}
use dtgproxy.Control.Catalog.{
  CatalogCommand, put_placement, pin_retention, unpin_retention, CatalogState, is_generation_pinned,
  add_pin, drop_pin, drops_pinned, run_command, pin, unpin, apply,
}
use dtgproxy.Control.Catalog.Lineage.{put-Put, apply-Applied}

any-keys :
    (t : ℕ → Bool) (g : ℕ) (m : Map ℕ ℕ)
    → contains_key g m ≡ true
    → any t (keys m) ≡ false
    → t g ≡ false
unfolding get
any-keys t g [] c a = cc
any-keys t g ((k, v) ∷ m) c a = elim (Bool-cases (k == g)) [
  | inl hit ↦
      let same : k ≡ g = ground arith in let first : t k ≡ false = ground arith in ground arith
  | inr miss ↦ any-keys t g m (ground arith) (ground arith)
]

-- A generation that a retention pin holds and that the shard's placement has is one of every
-- placement that replaces it.
pub pinned_generation_stays :
    (s s' : CatalogState) (v : ℕ) (previous p : ShardPlacement) (g : ℕ)
    → apply s (put_placement v p) ≡ ok s'
    → get (p.graph_id, p.shard_id) s.placements ≡ some previous
    → is_generation_pinned s p.graph_id p.shard_id g ≡ true
    → contains_key g (generation_classes previous) ≡ true
    → contains_key g (generation_classes p) ≡ true
pinned_generation_stays s s' v previous p g e placed pinned had =
    let applied = apply-Applied s (put_placement v p) s' e in
    let change = put-Put s p applied.next applied.ran in
    let permitted : drops_pinned s p (some previous) ≡ false =
      subst (λ o. drops_pinned s p o ≡ false) placed change.permitted in
    let kept =
      any-keys
        (λ h.
          not (contains_key h (generation_classes p))
          && is_generation_pinned s p.graph_id p.shard_id h)
        g (generation_classes previous) had permitted in
    ground arith

module _ {N : Type 0} ⦃e : Key N⦄ where
  nothing_in_nil : (n : N) (xs : Set N) → is_nil xs ≡ true → get n xs ≡ none
  unfolding get
  nothing_in_nil n [] h = refl
  nothing_in_nil n (x ∷ xs) h = cc

module _ {K N : Type 0} ⦃o : Key K⦄ ⦃e : Key N⦄ where
  abbrev pub has_pin : Map K (Set N) → K → N → Bool
  has_pin pins k n = contains_key n (or_empty (get k pins))

  has_pin-add_pin :
      (pins : Map K (Set N)) (key k : K) (name n : N)
      → has_pin (add_pin key name pins) k n ≡ ((o.same key k && e.same name n) || has_pin pins k n)
  has_pin-add_pin pins key k name n = ground (
    arith,
    get-insert key k (insert name tt (or_empty (get key pins))) pins,
    get-insert name n tt (or_empty (get key pins)),
    o.same_iff key k,
  )

  has_pin-drop_pin :
      (pins : Map K (Set N)) (key k : K) (name n : N) (held : Option (Set N))
      → get key pins ≡ held
      → has_pin (drop_pin key name held pins) k n
        ≡ (not (o.same key k && e.same name n) && has_pin pins k n)
  has_pin-drop_pin pins key k name n none missing =
      ground (arith, nothing_in_nil n (or_empty (get k pins)), o.same_iff key k)
  has_pin-drop_pin pins key k name n (some held) found = ground (
    arith,
    get-remove key k pins,
    get-replace key k (remove name held) pins,
    get-remove name n held,
    nothing_in_nil n (remove name held),
    o.same_iff key k,
  )

-- The pins as a set of names for each generation, and what a command does to it.
abbrev pub Held : CatalogState → ℕ × (ℕ × ℕ) → String → Type 0
Held s k n = has_pin s.retention_pins k n ≡ true

abbrev pub PinSpec :
    CatalogCommand → (ℕ × (ℕ × ℕ) → String → Type 0) → ℕ × (ℕ × ℕ) → String → Type 0
PinSpec (put_placement _ _) Old k n = Old k n
PinSpec (pin_retention _ g sh gen name) Old k n = ((k ≡ (g, (sh, gen))) × (n ≡ name)) ⊎ Old k n
PinSpec (unpin_retention _ g sh gen name) Old k n =
    (¬ ((k ≡ (g, (sh, gen))) × (n ≡ name))) × Old k n

-- A command that is applied changes the set of pins as its specification says: a placement not at
-- all, a pin by its own pair, an unpin by taking that pair out.
pub pins_refine :
    (s : CatalogState) (c : CatalogCommand) (s' : CatalogState) (k : ℕ × (ℕ × ℕ)) (n : String)
    → apply s c ≡ ok s'
    → Held s' k n ↔ PinSpec c (Held s) k n
unfolding pin unpin
pins_refine s c s' k n e =
    let applied = apply-Applied s c s' e in
    let same : s'.retention_pins ≡ applied.next.retention_pins =
      ap (λ x. x.retention_pins) applied.same in
    run_pins c applied.next applied.ran same
  where
    run_pins :
        (c : CatalogCommand) (next : CatalogState)
        → run_command s c ≡ ok next
        → s'.retention_pins ≡ next.retention_pins
        → Held s' k n ↔ PinSpec c (Held s) k n
    run_pins (put_placement v p) next ran same =
        let change = put-Put s p next ran in
        let kept : s'.retention_pins ≡ s.retention_pins = same ∙ change.pins in ground arith
    run_pins (pin_retention v g sh gen name) next ran same =
        let key : ℕ × (ℕ × ℕ) = (g, (sh, gen)) in
        let kept : s'.retention_pins ≡ add_pin key name s.retention_pins = ground arith in
        let exact : has_pin s'.retention_pins k n
            ≡ ((pair_key.same key k && text_key.same name n) || has_pin s.retention_pins k n) =
          rw (kept, has_pin-add_pin s.retention_pins key k name n) in
        ground (arith, pair_key.same_iff key k, text_key.same_iff name n)
    run_pins (unpin_retention v g sh gen name) next ran same =
        let key : ℕ × (ℕ × ℕ) = (g, (sh, gen)) in
        let kept : s'.retention_pins
            ≡ drop_pin key name (get key s.retention_pins) s.retention_pins =
          ground arith in
        let exact : has_pin s'.retention_pins k n
            ≡ (not (pair_key.same key k && text_key.same name n) && has_pin s.retention_pins k n) =
          rw (
            kept,
            has_pin-drop_pin s.retention_pins key k name n (get key s.retention_pins) refl,
          ) in
        ground (arith, pair_key.same_iff key k, text_key.same_iff name n)
