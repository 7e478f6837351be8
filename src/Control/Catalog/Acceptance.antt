-- ===== src/Control/Catalog/Acceptance.antt =====
-- Placements that the catalog of crates/execution/dtg-control/src/catalog.rs accepts: those of the
-- generations that the shard has.
use dtgproxy.Base.{
  ℕ, ◌+◌, ◌≡◌, ◌<◌, refl, inl, inr, Bool, true, false, not, ◌&&◌, List, [], ◌∷◌, any, All, All-map,
  arith, ◌==◌, some, ok, Bool-cases, ==_iff, u64_max, checked_add,
}
use dtgproxy.Base.Map.{Map, get, insert, keys, contains_key, nat_key, pair_key}
use dtgproxy.Control.{ReplicaBindingRecord}
use dtgproxy.Control.Placement.{
  ShardPlacement, validate, generation_classes, insert_classes, generation_of, class_of,
}
use dtgproxy.Control.Catalog.{
  LineageEntry, CatalogState, put_placement, lineage_of, find_digest, merge_classes,
  sort_by_generation, drops_pinned, put, apply, is_generation_pinned,
}
use dtgproxy.Control.Catalog.Invariant.{IsWellFormed}

-- The keys of a map stand in their order.
abbrev IsAscending : Map ℕ ℕ → Type 0
IsAscending [] = Unit
IsAscending ((j, w) ∷ m) = All (λ e. j < e.0) m × IsAscending m

insert-All :
    (P : ℕ × ℕ → Type 0) (k v : ℕ) (m : Map ℕ ℕ) → P (k, v) → All P m → All P (insert k v m)
unfolding insert
insert-All P k v [] h all = (h, tt)
insert-All P k v ((j, w) ∷ m) h all = let rest = insert-All P k v m h all.1 in ground arith

insert-IsAscending : (k v : ℕ) (m : Map ℕ ℕ) → IsAscending m → IsAscending (insert k v m)
unfolding insert
insert-IsAscending k v [] h = (tt, tt)
insert-IsAscending k v ((j, w) ∷ m) (below, rest) = elim (Bool-cases (nat_key.same j k)) [
  | inl hit ↦
      let here : j ≡ k = (==_iff j k).0 hit in
      rw (hit, insert) (All-map (λ e. j < e.0) (λ e. k < e.0) (λ e h. omega arith) m below, rest)
  | inr miss ↦ elim (Bool-cases (nat_key.less k j)) [
    | inl before ↦
        let less : k < j = ground arith in
        rw (miss, before, insert)
          (
            (less, All-map (λ e. j < e.0) (λ e. k < e.0) (λ e h. omega arith) m below),
            (below, rest),
          )
    | inr after ↦
        let less : j < k = ground (arith, ==_iff j k) in
        rw (miss, after, insert)
          (insert-All (λ e. j < e.0) k v m less below, insert-IsAscending k v m rest)
  ]
]

insert_classes-IsAscending :
    (classes : Map ℕ ℕ) (rs : List ReplicaBindingRecord)
    → IsAscending classes
    → IsAscending (insert_classes classes rs)
insert_classes-IsAscending classes [] h = h
insert_classes-IsAscending classes (r ∷ rs) h =
    insert_classes-IsAscending (insert (generation_of r) (class_of r) classes) rs
      (insert-IsAscending (generation_of r) (class_of r) classes h)

later_found :
    (j w : ℕ) (m xs : Map ℕ ℕ)
    → All (λ e. j < e.0) xs
    → All (λ e. get e.0 m ≡ some e.1) xs
    → All (λ e. get e.0 ((j, w) ∷ m) ≡ some e.1) xs
unfolding get
later_found j w m [] above found = tt
later_found j w m (e ∷ xs) above found =
    (ground (arith, ==_iff j e.0, above.0), later_found j w m xs above.1 found.1)

own_entries : (m : Map ℕ ℕ) → IsAscending m → All (λ e. get e.0 m ≡ some e.1) m
unfolding get
own_entries [] h = tt
own_entries ((j, w) ∷ m) h =
    (ground (arith, ==_iff j j), later_found j w m m h.0 (own_entries m h.1))

kept_keys :
    (f : ℕ → Bool) (m xs : Map ℕ ℕ)
    → All (λ e. get e.0 m ≡ some e.1) xs
    → any (λ g. not (contains_key g m) && f g) (keys xs) ≡ false
kept_keys f m [] found = refl
kept_keys f m (e ∷ xs) found = ground (arith, found.0, kept_keys f m xs found.1)

merge_known :
    (lineage : List LineageEntry) (xs : Map ℕ ℕ)
    → All (λ e. find_digest e.0 lineage ≡ some e.1) xs
    → merge_classes lineage xs ≡ ok lineage
unfolding merge_classes
merge_known lineage [] known = refl
merge_known lineage (e ∷ xs) known = ground (arith, known.0, merge_known lineage xs known.1)

classes_found :
    (p : ShardPlacement)
    → All (λ e. get e.0 (generation_classes p) ≡ some e.1) (generation_classes p)
unfolding generation_classes
classes_found p = own_entries (generation_classes p) (
    insert_classes-IsAscending (insert p.active_generation p.backend_class.digest []) p.replicas
      (insert-IsAscending p.active_generation p.backend_class.digest [] tt))

module _ (s : CatalogState) (p q : ShardPlacement) (w : IsWellFormed s)
    (had : get (q.graph_id, q.shard_id) s.placements ≡ some p)
    (same : generation_classes q ≡ generation_classes p) where
  drops_nothing : drops_pinned s q (get (q.graph_id, q.shard_id) s.placements) ≡ false
  drops_nothing =
      rw (had, same)
        (kept_keys (λ g. is_generation_pinned s q.graph_id q.shard_id g) (generation_classes p)
          (generation_classes p) (classes_found p))

  lineage_stays :
      merge_classes (lineage_of s q.graph_id q.shard_id) (generation_classes q)
      ≡ ok (lineage_of s q.graph_id q.shard_id)
  lineage_stays = rw same (
      merge_known (lineage_of s q.graph_id q.shard_id) (generation_classes p) (
        All-map (λ e. get e.0 (generation_classes p) ≡ some e.1)
          (λ e. find_digest e.0 (lineage_of s q.graph_id q.shard_id) ≡ some e.1)
          (λ e found. w.recorded (q.graph_id, q.shard_id) p e.0 e.1 had found)
          (generation_classes p) (classes_found p)))

  -- A valid placement with the generations and classes of the one that it replaces is accepted, whatever
  -- its epoch.
  pub apply_accepts :
      s.version < u64_max
      → validate q ≡ ok tt
      → (s' : CatalogState) × (apply s (put_placement s.version q) ≡ ok s')
  unfolding apply put
  apply_accepts fits valid =
      let room : checked_add u64_max s.version 1 ≡ some (s.version + 1) = ground arith in
      let current : (s.version == s.version) ≡ true = ground arith in
      (
        record {
          version = s.version + 1;
          placements = insert (q.graph_id, q.shard_id) q s.placements;
          lineage =
              insert (q.graph_id, q.shard_id)
                (sort_by_generation (lineage_of s q.graph_id q.shard_id)) s.lineage;
          retention_pins = s.retention_pins;
        },
        rw (current, valid, drops_nothing, lineage_stays, room) refl,
      )
