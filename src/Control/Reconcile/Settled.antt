-- ===== src/Control/Reconcile/Settled.antt =====
-- The reconciler has nothing to do where the placement is what is observed.
use dtgproxy.Base.{
  ℕ, ◌≡◌, refl, false, List, [], ◌∷◌, All, All-map, All-sort_by, flat_map, arith, if◌then◌else◌,
  Option, none, some,
}
use dtgproxy.Base.Map.{nat_key, pair_key}
use dtgproxy.Control.{ReplicaBindingRecord}
use dtgproxy.Control.Placement.{ShardPlacement, is_retiring}
use dtgproxy.Control.Catalog.{CatalogState}
use dtgproxy.Control.Observation.{ObservedReplicaState, voter}
use dtgproxy.Control.Reconcile.{
  ReconcileAction, Observations, observed, start_or_promote, active_voter, transfers, transfer_from,
  seal_retiring, migrations, active_incomplete, delete_unpinned, votes_not, key_before,
  sorted_replicas, reconcile_placement,
}

flat_map_nil :
    (f : ReplicaBindingRecord → List ReconcileAction) (rs : List ReplicaBindingRecord)
    → All (λ r. f r ≡ []) rs
    → flat_map f rs ≡ []
flat_map_nil f [] h = refl
flat_map_nil f (r ∷ rs) h = rw (h.0, flat_map_nil f rs h.1)

module _ (p : ShardPlacement) (observations : Observations) where
  -- The replica is to stay, and is seen to vote.
  pub record IsServing (r : ReplicaBindingRecord) : Type 0 where
    pub stays : is_retiring r.binding.role ≡ false
    pub observation : ObservedReplicaState
    pub seen : observed p observations r ≡ some observation
    pub votes : observation.lifecycle ≡ voter

  nothing_to_start :
      (r : ReplicaBindingRecord) → IsServing r → start_or_promote p observations r ≡ []
  nothing_to_start r h = rw (h.stays, h.seen, h.votes)

  nothing_to_seal : (r : ReplicaBindingRecord) → IsServing r → seal_retiring p observations r ≡ []
  nothing_to_seal r h = rw h.stays

  nothing_to_delete :
      (catalog : CatalogState) (r : ReplicaBindingRecord)
      → IsServing r
      → delete_unpinned p observations catalog r ≡ []
  nothing_to_delete catalog r h = rw h.stays

  nothing_to_transfer :
      (to : Option ℕ) (rs : List ReplicaBindingRecord)
      → All IsServing rs
      → transfers p observations to rs ≡ []
  nothing_to_transfer none rs h = refl
  nothing_to_transfer (some to) rs h =
      flat_map_nil
        (λ r.
          if is_retiring r.binding.role
          then transfer_from p observations to r (observed p observations r)
          else [])
        rs
        (All-map IsServing
          (λ r.
            (if is_retiring r.binding.role
              then transfer_from p observations to r (observed p observations r)
              else [])
            ≡ [])
          (λ r k. rw k.stays) rs h)

  complete :
      (rs : List ReplicaBindingRecord)
      → All IsServing rs
      → active_incomplete p observations rs ≡ false
  complete [] h = refl
  complete (r ∷ rs) h =
      let vote : votes_not p observations (observed p observations r) ≡ false =
        rw (h.0.seen, h.0.votes) in
      ground (arith, complete rs h.1)

  nothing_to_migrate :
      (rs : List ReplicaBindingRecord) → All IsServing rs → migrations p observations rs ≡ []
  nothing_to_migrate rs h = rw (complete rs h)

-- Where no replica of a placement is to retire and every one is seen to vote, there is no action,
-- whatever else is observed and pinned.
pub serving_placement-unchanged :
    (catalog : CatalogState) (p : ShardPlacement) (observations : Observations)
    → All (IsServing p observations) p.replicas
    → reconcile_placement catalog p observations ≡ []
unfolding reconcile_placement
serving_placement-unchanged catalog p observations h =
    let rs = sorted_replicas p in
    let sorted = All-sort_by (IsServing p observations) key_before p.replicas h in
    rw (
      flat_map_nil (start_or_promote p observations) rs (
          All-map (IsServing p observations) (λ r. start_or_promote p observations r ≡ [])
            (nothing_to_start p observations) rs sorted),
      nothing_to_transfer p observations (active_voter p observations rs) rs sorted,
      flat_map_nil (seal_retiring p observations) rs (
          All-map (IsServing p observations) (λ r. seal_retiring p observations r ≡ [])
            (nothing_to_seal p observations) rs sorted),
      nothing_to_migrate p observations rs sorted,
      flat_map_nil (delete_unpinned p observations catalog) rs (
          All-map (IsServing p observations) (λ r. delete_unpinned p observations catalog r ≡ [])
            (nothing_to_delete p observations catalog) rs sorted),
    )
