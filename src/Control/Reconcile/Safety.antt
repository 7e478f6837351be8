-- ===== src/Control/Reconcile/Safety.antt =====
-- What the reconciler deletes of one placement.
use dtgproxy.Base.{
  ℕ, ◌≡◌, ◌≢◌, refl, subst, ◌∙◌, inl, inr, Bool, true, false, not, ◌||◌, String, List, [], ◌∷◌,
  ◌++◌, any, flat_map, any-append, arith, if◌then◌else◌, if_intro, Option, none, some, ok, IsIn,
  any-IsIn, IsIn-append, IsIn-flat_map, IsIn-sort_by, All-IsIn, Bool-cases, Option-cases,
}
use dtgproxy.Base.Map.{keys, nat_key, pair_key}
use dtgproxy.Control.{ReplicaBindingRecord}
use dtgproxy.Control.Placement.{ShardPlacement, generation_of, is_retiring, validate}
use dtgproxy.Control.Placement.Valid.{Fits, validate-IsValid}
use dtgproxy.Control.Catalog.{CatalogState, is_generation_pinned}
use dtgproxy.Control.Observation.{ObservedReplicaState}
use dtgproxy.Control.Reconcile.{
  ReconcileAction, delete_namespace, Observations, observed, start_or_promote, active_voter,
  transfers, transfer_from, seal_retiring, migrations, migrate_from, old_generations,
  active_incomplete, delete_unpinned, delete_one, is_sealed, key_before, sorted_replicas,
  reconcile_placement,
}

abbrev is_delete : ReconcileAction → Bool
is_delete (delete_namespace _ _ _ _ _ _) = true
is_delete _ = false

any-flat_map :
    {A : Type 0} (f : A → List ReconcileAction) (xs : List A)
    → ((x : A) → any is_delete (f x) ≡ false)
    → any is_delete (flat_map f xs) ≡ false
any-flat_map f [] h = refl
any-flat_map f (x ∷ xs) h =
    ground (arith, any-append is_delete (f x) (flat_map f xs), h x, any-flat_map f xs h)

not_here :
    (a : ReconcileAction) (xs ys : List ReconcileAction)
    → is_delete a ≡ true
    → any is_delete xs ≡ false
    → IsIn a (xs ++ ys)
    → IsIn a ys
not_here a xs ys deletes none_there i = elim (IsIn-append a xs ys i) [
  | inl left ↦
      let hit = any-IsIn is_delete a xs left deletes in
      let no_way : ⊥ = ground arith in absurd no_way
  | inr right ↦ right
]

module _ (p : ShardPlacement) (observations : Observations) where
  start_no_delete :
      (r : ReplicaBindingRecord) → any is_delete (start_or_promote p observations r) ≡ false
  start_no_delete r = ground arith

  seal_no_delete :
      (r : ReplicaBindingRecord) → any is_delete (seal_retiring p observations r) ≡ false
  seal_no_delete r = ground arith

  transfers_no_delete :
      (o : Option ℕ) (rs : List ReplicaBindingRecord)
      → any is_delete (transfers p observations o rs) ≡ false
  transfers_no_delete none rs = refl
  transfers_no_delete (some to) rs =
      any-flat_map
        (λ r.
          if is_retiring r.binding.role
          then transfer_from p observations to r (observed p observations r)
          else [])
        rs (λ r. ground arith)

  migrations_no_delete :
      (rs : List ReplicaBindingRecord) → any is_delete (migrations p observations rs) ≡ false
  migrations_no_delete rs =
      if_intro (λ l. any is_delete l ≡ false) (active_incomplete p observations rs)
        (flat_map (migrate_from p observations) (keys (old_generations p observations rs []))) []
        (λ _.
          any-flat_map (migrate_from p observations) (keys (old_generations p observations rs []))
            (λ g. refl))
        (λ _. refl)

  -- Why a record's namespace is deleted.
  pub record IsDeletable (catalog : CatalogState) (r : ReplicaBindingRecord) : Type 0 where
    pub retiring : is_retiring r.binding.role ≡ true
    pub unpinned : is_generation_pinned catalog p.graph_id p.shard_id (generation_of r) ≡ false
    pub observation : ObservedReplicaState
    pub seen : observed p observations r ≡ some observation
    pub is_sealed_there : is_sealed observation.lifecycle ≡ true

  abbrev deletion_of : ReplicaBindingRecord → ReconcileAction
  deletion_of r =
      delete_namespace p.graph_id p.shard_id p.placement_epoch (generation_of r)
        r.binding.replica_id r.binding.namespace_id

  delete_unpinned_lem :
      (catalog : CatalogState) (r : ReplicaBindingRecord) (a : ReconcileAction)
      → IsIn a (delete_unpinned p observations catalog r)
      → IsDeletable catalog r × (deletion_of r ≡ a)
  delete_unpinned_lem catalog r a i =
      elim (Bool-cases (
        not (is_retiring r.binding.role)
        || is_generation_pinned catalog p.graph_id p.shard_id (generation_of r))) [
          | inl kept ↦
              let there =
                subst
                  (λ b.
                    IsIn a
                      (if b then [] else delete_one p observations r (observed p observations r)))
                  kept i in
              absurd there
          | inr gone ↦
              let there =
                subst
                  (λ b.
                    IsIn a
                      (if b then [] else delete_one p observations r (observed p observations r)))
                  gone i in
              elim (Option-cases (observed p observations r)) [
                | inl missing ↦
                    absurd (subst (λ o. IsIn a (delete_one p observations r o)) missing there)
                | inr (o, seen) ↦ elim (Bool-cases (is_sealed o.lifecycle)) [
                  | inl sealed_there ↦
                      let one = subst (λ x. IsIn a (delete_one p observations r x)) seen there in
                      let same =
                        subst (λ b. IsIn a (if b then deletion_of r ∷ [] else [])) sealed_there
                          one in
                      (
                        record {
                          retiring = ground arith;
                          unpinned = ground arith;
                          observation = o;
                          seen = seen;
                          is_sealed_there = sealed_there;
                        },
                        only same,
                      )
                  | inr open_there ↦
                      let one = subst (λ x. IsIn a (delete_one p observations r x)) seen there in
                      absurd
                        (subst (λ b. IsIn a (if b then deletion_of r ∷ [] else [])) open_there one)
                ]
              ]
        ]
    where
      only : {b : ReconcileAction} → IsIn a (b ∷ []) → b ≡ a
      only (inl same) = same
      only (inr i) = absurd i

-- A namespace is deleted only where it is that of a retiring replica of the placement, seen sealed, in a
-- generation that no pin holds, and, in a placement that is valid, not the active one.
pub deletes_only_retired :
    (catalog : CatalogState) (p : ShardPlacement) (observations : Observations) (g sh e gen rep : ℕ)
    (ns : String)
    → validate p ≡ ok tt
    → IsIn (delete_namespace g sh e gen rep ns) (reconcile_placement catalog p observations)
    → (r : ReplicaBindingRecord) × IsIn r p.replicas
      × IsDeletable p observations catalog r
      × (generation_of r ≡ gen)
      × (r.binding.namespace_id ≡ ns)
      × (gen ≢ p.active_generation)
unfolding reconcile_placement
deletes_only_retired catalog p observations g sh e gen rep ns valid i =
    let a : ReconcileAction = delete_namespace g sh e gen rep ns in
    let rs = sorted_replicas p in
    let i1 =
      not_here a (flat_map (start_or_promote p observations) rs)
        (transfers p observations (active_voter p observations rs) rs
          ++ (flat_map (seal_retiring p observations) rs
              ++ (migrations p observations rs
                  ++ flat_map (delete_unpinned p observations catalog) rs)))
        refl (any-flat_map (start_or_promote p observations) rs (start_no_delete p observations))
        i in
    let i2 =
      not_here a (transfers p observations (active_voter p observations rs) rs)
        (flat_map (seal_retiring p observations) rs
          ++ (migrations p observations rs ++ flat_map (delete_unpinned p observations catalog) rs))
        refl (transfers_no_delete p observations (active_voter p observations rs) rs) i1 in
    let i3 =
      not_here a (flat_map (seal_retiring p observations) rs)
        (migrations p observations rs ++ flat_map (delete_unpinned p observations catalog) rs) refl
        (any-flat_map (seal_retiring p observations) rs (seal_no_delete p observations)) i2 in
    let i4 =
      not_here a (migrations p observations rs)
        (flat_map (delete_unpinned p observations catalog) rs) refl
        (migrations_no_delete p observations rs) i3 in
    let (r, within, there) = IsIn-flat_map a (delete_unpinned p observations catalog) rs i4 in
    let (why, same) = delete_unpinned_lem p observations catalog r a there in
    let in_p = IsIn-sort_by key_before r p.replicas within in
    let fits = All-IsIn (Fits p) r p.replicas (validate-IsValid p valid).fits in_p in
    let same_generation : generation_of r ≡ gen = ground arith in
    let same_namespace : r.binding.namespace_id ≡ ns = ground arith in
    let other = fits.role.0 why.retiring in
    (
      r,
      in_p,
      why,
      same_generation,
      same_namespace,
      λ is_active. other (same_generation ∙ is_active),
    )
