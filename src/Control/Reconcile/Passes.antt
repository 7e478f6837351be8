-- ===== src/Control/Reconcile/Passes.antt =====
-- What a whole pass of the reconciler deletes.
use dtgproxy.Base.{
  ℕ, ◌≡◌, ◌≢◌, subst, inl, inr, String, List, [], ◌∷◌, flat_map, arith, ◌==◌, ok, IsIn,
  IsIn-flat_map, Bool-cases, Result-cases,
}
use dtgproxy.Base.Map.{
  Map, insert, contains_key, values, nat_key, pair_key, AllValues, AllValues-insert, AllValues-get,
}
use dtgproxy.Control.{ReplicaBindingRecord}
use dtgproxy.Control.Placement.{ShardPlacement, generation_of, validate}
use dtgproxy.Control.Catalog.{CatalogState}
use dtgproxy.Control.Catalog.Invariant.{IsWellFormed}
use dtgproxy.Control.Observation.{
  ObservedReplicaState, ObservedNodeState, observation_key, key_for_binding, validate_node,
}
use dtgproxy.Control.Reconcile.{
  ReconcileAction, delete_namespace, Observations, collect_replicas, collect_observations,
  reconcile_placement, reconcile,
}
use dtgproxy.Control.Reconcile.Safety.{IsDeletable, deletes_only_retired}

module _ (version : ℕ) where
  abbrev IsCurrent : ObservedReplicaState → Type 0
  IsCurrent o = o.catalog_version ≡ version

  collect_replicas-IsCurrent :
      (seen : Observations) (rs : List ObservedReplicaState) (out : Observations)
      → collect_replicas version seen rs ≡ ok out
      → AllValues IsCurrent seen
      → AllValues IsCurrent out
  unfolding collect_replicas
  collect_replicas-IsCurrent seen [] out e h =
      let same : seen ≡ out = ground arith in subst (AllValues IsCurrent) same h
  collect_replicas-IsCurrent seen (r ∷ rs) out e h =
      elim (Bool-cases (r.catalog_version == version)) [
        | inr stale ↦ let no_way : ⊥ = ground arith in absurd no_way
        | inl current ↦ elim (Bool-cases (contains_key (observation_key r) seen)) [
          | inl twice ↦ let no_way : ⊥ = ground arith in absurd no_way
          | inr fresh ↦
              let here : r.catalog_version ≡ version = ground arith in
              collect_replicas-IsCurrent (insert (observation_key r) r seen) rs out (ground arith)
                (AllValues-insert IsCurrent (observation_key r) r seen here h)
        ]
      ]

  collect_observations-IsCurrent :
      (seen : Observations) (nodes : List ObservedNodeState) (out : Observations)
      → collect_observations version seen nodes ≡ ok out
      → AllValues IsCurrent seen
      → AllValues IsCurrent out
  unfolding collect_observations
  collect_observations-IsCurrent seen [] out e h =
      let same : seen ≡ out = ground arith in subst (AllValues IsCurrent) same h
  collect_observations-IsCurrent seen (n ∷ nodes) out e h = elim (Result-cases (validate_node n)) [
    | inr (error, refused) ↦ let no_way : ⊥ = ground arith in absurd no_way
    | inl (unit, valid) ↦ elim (Bool-cases (n.catalog_version == version)) [
      | inr stale ↦ let no_way : ⊥ = ground arith in absurd no_way
      | inl current ↦ elim (Result-cases (collect_replicas version seen n.replicas)) [
        | inr (error, refused) ↦ let no_way : ⊥ = ground arith in absurd no_way
        | inl (more, collected) ↦
            collect_observations-IsCurrent more nodes out (ground arith)
              (collect_replicas-IsCurrent seen n.replicas more collected h)
      ]
    ]
  ]

AllValues-IsIn :
    (P : ShardPlacement → Type 0) (m : Map (ℕ × ℕ) ShardPlacement) (p : ShardPlacement)
    → AllValues P m
    → IsIn p (values m)
    → P p
AllValues-IsIn P ((k, q) ∷ m) p h (inl same) = subst P same h.0
AllValues-IsIn P ((k, q) ∷ m) p h (inr later) = AllValues-IsIn P m p h.1 later
AllValues-IsIn P [] p h i = absurd i

-- The namespace is that of a retiring replica that a placement of the catalog holds and that is seen
-- sealed at the version of the catalog, in a generation without a pin that is not the active one.
pub record IsSafeDeletion (catalog : CatalogState) (nodes : List ObservedNodeState) (generation : ℕ)
    (namespace_id : String) : Type 0 where
  pub placement : ShardPlacement
  pub placed : IsIn placement (values catalog.placements)
  pub observations : Observations
  pub collected : collect_observations catalog.version [] nodes ≡ ok observations
  pub replica : ReplicaBindingRecord
  pub bound_there : IsIn replica placement.replicas
  pub deletable : IsDeletable placement observations catalog replica
  pub current : deletable.observation.catalog_version ≡ catalog.version
  pub of_generation : generation_of replica ≡ generation
  pub of_namespace : replica.binding.namespace_id ≡ namespace_id
  pub not_active : generation ≢ placement.active_generation

-- In a catalog that is well formed, a pass deletes a namespace only where it is that of a retiring
-- replica that a placement of the catalog holds and that a node reports as sealed at the version of
-- the catalog, in a generation that has no pin and is not the active one.
pub reconcile-IsSafeDeletion :
    (catalog : CatalogState) (nodes : List ObservedNodeState) (actions : List ReconcileAction)
    (g sh e gen rep : ℕ) (ns : String)
    → IsWellFormed catalog
    → reconcile catalog nodes ≡ ok actions
    → IsIn (delete_namespace g sh e gen rep ns) actions
    → IsSafeDeletion catalog nodes gen ns
unfolding reconcile
reconcile-IsSafeDeletion catalog nodes actions g sh e gen rep ns w planned i =
    elim (Result-cases (collect_observations catalog.version [] nodes)) [
      | inr (error, refused) ↦ let no_way : ⊥ = ground arith in absurd no_way
      | inl (observations, collected) ↦
          let plan : ShardPlacement → List ReconcileAction =
            λ p. reconcile_placement catalog p observations in
          let all_of : actions ≡ flat_map plan (values catalog.placements) = ground arith in
          let (p, placed, there) =
            IsIn-flat_map (delete_namespace g sh e gen rep ns) plan (values catalog.placements)
              (subst (IsIn (delete_namespace g sh e gen rep ns)) all_of i) in
          let valid =
            AllValues-IsIn (λ q. validate q ≡ ok tt) catalog.placements p w.valid placed in
          let (r, within, why, generation, namespace, other) =
            deletes_only_retired catalog p observations g sh e gen rep ns valid there in
          record {
            placement = p;
            placed = placed;
            observations = observations;
            collected = collected;
            replica = r;
            bound_there = within;
            deletable = why;
            current =
                AllValues-get (IsCurrent catalog.version) (key_for_binding r.binding) observations
                  (collect_observations-IsCurrent catalog.version [] nodes observations collected
                    tt)
                  why.seen;
            of_generation = generation;
            of_namespace = namespace;
            not_active = other;
          }
    ]
