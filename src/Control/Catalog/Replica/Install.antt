-- ===== src/Control/Catalog/Replica/Install.antt =====
-- What a catalog replica accepts, and what it never undoes.
use dtgproxy.Base.{
  ℕ, ◌≡◌, ◌≤◌, ◌<◌, refl, sym, ap, subst, inl, inr, Bool, true, false, List, [], ◌∷◌, arith, ◌==◌,
  is_dec, some, ok, u64_max, Result-cases, Bool-cases,
}
use dtgproxy.Base.Map.{Map, get, values, nat_key, pair_key, get-insert_self, AllValues}
use dtgproxy.Control.Placement.{ShardPlacement, validate, generation_classes}
use dtgproxy.Control.Catalog.{CatalogCommand, put_placement, CatalogState, new_catalog, apply}
use dtgproxy.Control.Catalog.Lineage.{apply-Applied, put-Put}
use dtgproxy.Control.Catalog.History.{run}
use dtgproxy.Control.Catalog.Invariant.{IsWellFormed, initial-IsWellFormed, apply-IsWellFormed}
use dtgproxy.Control.Catalog.Acceptance.{apply_accepts}
use dtgproxy.Control.Catalog.Replica.{
  CatalogReplica, CatalogState-discrete, validate_all, catalog_replica, check_entries, install,
}

validate_all-values :
    (m : Map (ℕ × ℕ) ShardPlacement)
    → AllValues (λ p. validate p ≡ ok tt) m
    → validate_all (values m) ≡ ok tt
unfolding validate_all
validate_all-values [] h = refl
validate_all-values ((k, p) ∷ m) h = let rest = validate_all-values m h.1 in ground arith

run-IsWellFormed :
    (cs : List CatalogCommand) (s s' : CatalogState)
    → run s cs ≡ ok s'
    → IsWellFormed s
    → IsWellFormed s'
unfolding run
run-IsWellFormed [] s s' e w = let same : s ≡ s' = ground arith in subst IsWellFormed same w
run-IsWellFormed (c ∷ cs) s s' e w = elim (Result-cases (apply s c)) [
  | inl (mid, first) ↦
      run-IsWellFormed cs mid s' (ground arith) (apply-IsWellFormed s c mid first w)
  | inr (_, failed) ↦ let no_way : ⊥ = ground arith in absurd no_way
]

-- Every state that commands make from the empty catalog is one that a replica starts from.
pub replica_accepts_runs :
    (cs : List CatalogCommand) (s : CatalogState)
    → run new_catalog cs ≡ ok s
    → catalog_replica s ≡ ok (record { snapshot = s })
unfolding catalog_replica
replica_accepts_runs cs s e =
    let w = run-IsWellFormed cs new_catalog s e initial-IsWellFormed in
    rw (validate_all-values s.placements w.valid)

check_entries-get :
    (current next : Map (ℕ × ℕ) ShardPlacement) (k : ℕ × ℕ) (p q : ShardPlacement)
    → check_entries current next ≡ ok tt
    → get k current ≡ some p
    → get k next ≡ some q
    → p.placement_epoch ≤ q.placement_epoch
unfolding check_entries get
check_entries-get current [] k p q e had has = cc
check_entries-get current ((j, n) ∷ rest) k p q e had has = elim (Bool-cases (pair_key.same j k)) [
  | inl hit ↦
      let here : j ≡ k = (pair_key.same_iff j k).0 hit in
      let same : n ≡ q = ground arith in
      let had' = subst (λ x. get x current ≡ some p) (sym here) had in ground arith
  | inr miss ↦ check_entries-get current rest k p q (ground arith) had (ground arith)
]

check_entries_valid :
    (current next : Map (ℕ × ℕ) ShardPlacement)
    → check_entries current next ≡ ok tt
    → AllValues (λ p. validate p ≡ ok tt) next
unfolding check_entries
check_entries_valid current [] e = tt
check_entries_valid current ((k, p) ∷ rest) e =
    (ground arith, check_entries_valid current rest (ground arith))

-- What `install` does where it succeeds.
pub record Installed (r : CatalogReplica) (snapshot : CatalogState) (r' : CatalogReplica)
    (moved : Bool) : Type 0 where
  pub now : r'.snapshot ≡ snapshot
  pub idle : moved ≡ false → r' ≡ r
  pub forward : moved ≡ true → r.snapshot.version < snapshot.version
  pub epochs :
      (k : ℕ × ℕ) (p q : ShardPlacement)
      → get k r.snapshot.placements ≡ some p
      → get k r'.snapshot.placements ≡ some q
      → p.placement_epoch ≤ q.placement_epoch
  pub valid :
      AllValues (λ p. validate p ≡ ok tt) r.snapshot.placements
      → AllValues (λ p. validate p ≡ ok tt) r'.snapshot.placements

decided : {A : Type 0} (d : Dec A) → is_dec d ≡ true → A
decided (yes a) h = a
decided (no _) h = cc

idle_install :
    (r : CatalogReplica) (snapshot : CatalogState) (moved : Bool)
    → snapshot ≡ r.snapshot
    → moved ≡ false
    → Installed r snapshot r moved
idle_install r snapshot moved same quiet = record {
  now = sym same;
  idle = λ _. refl;
  forward = λ h. cc;
  epochs = λ k p q had has. let one : p ≡ q = ground arith in ground arith;
  valid = λ h. h;
}

new_install :
    (r : CatalogReplica) (snapshot : CatalogState) (moved : Bool)
    → r.snapshot.version < snapshot.version
    → check_entries r.snapshot.placements snapshot.placements ≡ ok tt
    → moved ≡ true
    → Installed r snapshot (record { snapshot = snapshot }) moved
new_install r snapshot moved later checked changed = record {
  now = refl;
  idle = λ h. cc;
  forward = λ _. later;
  epochs = λ k p q. check_entries-get r.snapshot.placements snapshot.placements k p q checked;
  valid = λ _. check_entries_valid r.snapshot.placements snapshot.placements checked;
}

-- A replica that accepts a snapshot then holds it. Where it reports no change it is the replica that
-- it was, and where it reports one the version has grown; no shard that is in both has a smaller
-- epoch than before; and if the placements were valid they still are.
pub install-Installed :
    (r : CatalogReplica) (snapshot : CatalogState) (r' : CatalogReplica) (moved : Bool)
    → install r snapshot ≡ ok (r', moved)
    → Installed r snapshot r' moved
unfolding install
install-Installed r snapshot r' moved e =
    elim (Bool-cases (snapshot.version == r.snapshot.version)) [
      | inl level ↦
          let equal : is_dec (CatalogState-discrete snapshot r.snapshot) ≡ true = ground arith in
          let same = decided (CatalogState-discrete snapshot r.snapshot) equal in
          let stayed : r ≡ r' = ground arith in
          let quiet : moved ≡ false = ground arith in
          subst (λ x. Installed r snapshot x moved) stayed
            (idle_install r snapshot moved same quiet)
      | inr newer ↦
          let later : r.snapshot.version < snapshot.version = ground arith in
          let checked : check_entries r.snapshot.placements snapshot.placements ≡ ok tt =
            ground arith in
          let changed : moved ≡ true = ground arith in
          let new : r' ≡ record { snapshot = snapshot } = ground arith in
          subst (λ x. Installed r snapshot x moved) (sym new)
            (new_install r snapshot moved later checked changed)
    ]

older_epoch_refused :
    (r : CatalogReplica) (snapshot : CatalogState) (k : ℕ × ℕ) (p q : ShardPlacement)
    (r' : CatalogReplica) (moved : Bool)
    → get k r.snapshot.placements ≡ some p
    → get k snapshot.placements ≡ some q
    → q.placement_epoch < p.placement_epoch
    → ¬ (install r snapshot ≡ ok (r', moved))
older_epoch_refused r snapshot k p q r' moved had has older e =
    let i = install-Installed r snapshot r' moved e in
    let has' : get k r'.snapshot.placements ≡ some q = rw (i.now, has) in
    let kept = i.epochs k p q had has' in ground arith

older_refused :
    (s s' : CatalogState) (v : ℕ) (p q : ShardPlacement)
    → get (q.graph_id, q.shard_id) s.placements ≡ some p
    → q.placement_epoch < p.placement_epoch
    → apply s (put_placement v q) ≡ ok s'
    → ¬ (
        (r' : CatalogReplica) × (moved : Bool) × (install (record { snapshot = s }) s'
          ≡ ok (r', moved)))
older_refused s s' v p q had older e (r', moved, went) =
    let applied = apply-Applied s (put_placement v q) s' e in
    let change = put-Put s q applied.next applied.ran in
    let has : get (q.graph_id, q.shard_id) s'.placements ≡ some q = rw (
      ap (λ x. x.placements) applied.same,
      change.placements,
      get-insert_self (q.graph_id, q.shard_id) q s.placements,
    ) in
    older_epoch_refused (record { snapshot = s }) s' (q.graph_id, q.shard_id) p q r' moved had has
      older went

-- A well-formed catalog with a version left accepts a valid placement of an older epoch than the one
-- that it replaces, where the two have the same generations and classes; and a replica that holds the
-- catalog before refuses the catalog after.
pub older_epoch_strands :
    (s : CatalogState) (p q : ShardPlacement)
    → IsWellFormed s
    → s.version < u64_max
    → get (q.graph_id, q.shard_id) s.placements ≡ some p
    → validate q ≡ ok tt
    → generation_classes q ≡ generation_classes p
    → q.placement_epoch < p.placement_epoch
    → (s' : CatalogState) × (apply s (put_placement s.version q) ≡ ok s')
      × (¬ (
          (r' : CatalogReplica) × (moved : Bool) × (install (record { snapshot = s }) s'
            ≡ ok (r', moved))))
older_epoch_strands s p q w fits had valid same older =
    let (s', accepted) = apply_accepts s p q w had same fits valid in
    (s', accepted, older_refused s s' s.version p q had older accepted)
