-- ===== src/Txn/Conflict/Exact.antt =====
-- The conflict check rejects exactly the writes that a newer commit to the same entity has
-- overtaken.
use dtgproxy.Base.{
  ◌<◌, ◌≡◌, ◌↔◌, refl, inl, inr, true, Option, none, some, List, [], ◌∷◌, arith, All, ==_iff,
  Result, ok, err, ◌>>◌, Bool-cases, Option-cases,
}
use dtgproxy.Kernel.{TransactionTime}
use dtgproxy.Kernel.Intervals.{IsInterval, Meets, overlaps-Meets}
use dtgproxy.Storage.Mutation.{
  LogicalMutation, put_vertex, delete_vertex, put_edge, delete_edge, put_transaction,
  put_replica_metadata,
}
use dtgproxy.Txn.{TxnError}
use dtgproxy.Txn.Conflict.{
  EntityIdentity, vertex, edge, same_identity, WriteExtent, interval, complete_identity,
  IntervalWrite, extents_overlap, conflicts, detect_conflict, write_from_mutation, committed_writes,
  detect_staged, detect_all, detect_mutation_conflicts,
}

-- Two extents share an instant; a deletion takes the entity at every instant.
abbrev pub Touch : WriteExtent → WriteExtent → Type 0
Touch (interval a) (interval b) = Meets a b
Touch complete_identity _ = Unit
Touch _ complete_identity = Unit

abbrev pub IsExtent : WriteExtent → Type 0
IsExtent (interval a) = IsInterval a
IsExtent complete_identity = Unit

-- A committed write overtakes a staged one.
pub record Overtakes (staged candidate : IntervalWrite) : Type 0 where
  pub same : candidate.identity ≡ staged.identity
  pub newer : staged.transaction_time < candidate.transaction_time
  pub touch : Touch candidate.extent staged.extent

same_identity_iff : (a b : EntityIdentity) → (same_identity a b ≡ true) ↔ (a ≡ b)
same_identity_iff (vertex a) (vertex b) = ground (arith, ==_iff a b)
same_identity_iff (vertex a) (edge b) = ground arith
same_identity_iff (edge a) (vertex b) = ground arith
same_identity_iff (edge a) (edge b) = ground (arith, ==_iff a b)

extents_overlap_iff :
    (a b : WriteExtent) → IsExtent a → IsExtent b → (extents_overlap a b ≡ true) ↔ Touch a b
unfolding extents_overlap
extents_overlap_iff (interval a) (interval b) ha hb = overlaps-Meets a b ha hb
extents_overlap_iff (interval a) complete_identity ha hb = (λ _. tt, λ _. refl)
extents_overlap_iff complete_identity (interval b) ha hb = (λ _. tt, λ _. refl)
extents_overlap_iff complete_identity complete_identity ha hb = (λ _. tt, λ _. refl)

conflicts_iff :
    (s c : IntervalWrite)
    → IsExtent s.extent
    → IsExtent c.extent
    → (conflicts s c ≡ true) ↔ Overtakes s c
unfolding conflicts
conflicts_iff s c hs hc =
    let same = same_identity_iff c.identity s.identity in
    let touch = extents_overlap_iff c.extent s.extent hc hs in
    (
      λ h. record {
        same = same.0 (ground arith);
        newer = ground arith;
        touch = touch.0 (ground arith);
      },
      λ h. let a = same.1 h.same in let b = touch.1 h.touch in let lt = h.newer in ground arith,
    )

-- The check passes exactly when no committed write overtakes the staged one.
pub detect_conflict_iff :
    (s : IntervalWrite) (committed : List IntervalWrite)
    → IsExtent s.extent
    → All (λ c. IsExtent c.extent) committed
    → (detect_conflict s committed ≡ ok tt) ↔ All (λ c. ¬ Overtakes s c) committed
unfolding detect_conflict
detect_conflict_iff s [] hs hc = (λ _. tt, λ _. refl)
detect_conflict_iff s (c ∷ committed) hs hc =
    let head = conflicts_iff s c hs hc.0 in
    let rest = detect_conflict_iff s committed hs hc.1 in
    elim (Bool-cases (conflicts s c)) [
      | inl hit ↦
          (λ h. let no_way : ⊥ = ground arith in absurd no_way, λ h. absurd (h.0 (head.0 hit)))
      | inr miss ↦ (
        λ h. (λ o. let hit = head.1 o in cc, rest.0 (ground arith)),
        λ h. let passed = rest.1 h.1 in ground arith,
      )
    ]

abbrev pub IsValidTime : LogicalMutation → Type 0
IsValidTime (put_vertex v) = IsInterval v.valid_time
IsValidTime (put_edge e) = IsInterval e.valid_time
IsValidTime _ = Unit

abbrev AreWrites : Option IntervalWrite → Type 0
AreWrites none = Unit
AreWrites (some w) = IsExtent w.extent

write-IsExtent :
    (m : LogicalMutation) (t : Option TransactionTime)
    → IsValidTime m
    → AreWrites (write_from_mutation m t)
unfolding write_from_mutation
write-IsExtent (put_vertex v) t h = h
write-IsExtent (put_edge e) t h = h
write-IsExtent (delete_vertex v) t h = tt
write-IsExtent (delete_edge e) t h = tt
write-IsExtent (put_transaction r) t h = tt
write-IsExtent (put_replica_metadata r) t h = tt

-- What a mutation writes, if it writes an entity, is overtaken by what another one wrote.
abbrev pub Overtaken : Option IntervalWrite → Option IntervalWrite → Type 0
Overtaken (some s) (some c) = Overtakes s c
Overtaken _ _ = ⊥

-- No committed mutation overtakes a staged one that reads at `start_time`.
abbrev pub IsFree : List LogicalMutation → TransactionTime → LogicalMutation → Type 0
IsFree committed start_time m =
    All (λ c. ¬ Overtaken (write_from_mutation m (some start_time)) (write_from_mutation c none))
      committed

committed_writes-IsExtent :
    (committed : List LogicalMutation)
    → All IsValidTime committed
    → All (λ c. IsExtent c.extent) (committed_writes committed)
unfolding committed_writes
committed_writes-IsExtent [] h = tt
committed_writes-IsExtent (m ∷ ms) h = elim (Option-cases (write_from_mutation m none)) [
  | inl silent ↦ rw (silent, committed_writes) (committed_writes-IsExtent ms h.1)
  | inr (w, writes) ↦
      rw (writes, committed_writes)
        (rw writes at (write-IsExtent m none h.0), committed_writes-IsExtent ms h.1)
]

-- Quantifying over the writes is quantifying over the mutations.
writes_iff :
    (s : IntervalWrite) (committed : List LogicalMutation)
    → All (λ c. ¬ Overtakes s c) (committed_writes committed)
      ↔ All (λ c. ¬ Overtaken (some s) (write_from_mutation c none)) committed
unfolding committed_writes
writes_iff s [] = (λ _. tt, λ _. tt)
writes_iff s (m ∷ ms) = elim (Option-cases (write_from_mutation m none)) [
  | inl silent ↦
      let rest = writes_iff s ms in
      rw (silent, committed_writes) (λ h. (λ o. o, rest.0 h), λ h. rest.1 h.1)
  | inr (w, writes) ↦
      let rest = writes_iff s ms in
      rw (writes, committed_writes) (λ h. (h.0, rest.0 h.1), λ h. (h.0, rest.1 h.1))
]

nothing-Overtaken :
    (committed : List LogicalMutation)
    → All (λ c. ¬ Overtaken none (write_from_mutation c none)) committed
nothing-Overtaken [] = tt
nothing-Overtaken (c ∷ committed) = (λ o. o, nothing-Overtaken committed)

detect_staged_iff :
    (m : LogicalMutation) (committed : List LogicalMutation) (start_time : TransactionTime)
    → IsValidTime m
    → All IsValidTime committed
    → (detect_staged (write_from_mutation m (some start_time)) (committed_writes committed) ≡ ok tt)
      ↔ IsFree committed start_time m
unfolding detect_staged
detect_staged_iff m committed start_time hm hc =
    elim (Option-cases (write_from_mutation m (some start_time))) [
      | inl silent ↦ rw (silent, detect_staged) (λ _. nothing-Overtaken committed, λ _. refl)
      | inr (w, writes) ↦
          let extent = rw writes at (write-IsExtent m (some start_time) hm) in
          let checked =
            detect_conflict_iff w (committed_writes committed) extent
              (committed_writes-IsExtent committed hc) in
          let same = writes_iff w committed in
          rw (writes, detect_staged) (λ h. same.0 (checked.0 h), λ h. checked.1 (same.1 h))
    ]

both_ok : (m k : Result TxnError (Unit {0})) → ((m >> k) ≡ ok tt) ↔ ((m ≡ ok tt) × (k ≡ ok tt))
both_ok (ok u) k = (λ h. (refl, h), λ h. h.1)
both_ok (err e) k =
    (λ h. absurd (let no_way : ⊥ = cc in no_way), λ h. absurd (let no_way : ⊥ = cc h.0 in no_way))

detect_all_iff :
    (staged committed : List LogicalMutation) (start_time : TransactionTime)
    → All IsValidTime staged
    → All IsValidTime committed
    → (detect_all staged (committed_writes committed) start_time ≡ ok tt)
      ↔ All (IsFree committed start_time) staged
unfolding detect_all
detect_all_iff [] committed start_time hs hc = (λ _. tt, λ _. refl)
detect_all_iff (m ∷ ms) committed start_time hs hc =
    let head = detect_staged_iff m committed start_time hs.0 hc in
    let rest = detect_all_iff ms committed start_time hs.1 hc in
    let both =
      both_ok (detect_staged (write_from_mutation m (some start_time)) (committed_writes committed))
        (detect_all ms (committed_writes committed) start_time) in
    (λ h. let p = both.0 h in (head.0 p.0, rest.0 p.1), λ h. both.1 (head.1 h.0, rest.1 h.1))

-- The check of a transaction passes exactly when no committed mutation is newer than its start
-- and touches the same entity at an instant that one of its own mutations writes; a deletion, on
-- either side, touches every instant. The intervals are assumed not empty.
pub detect_mutation_conflicts_iff :
    (staged committed : List LogicalMutation) (start_time : TransactionTime)
    → All IsValidTime staged
    → All IsValidTime committed
    → (detect_mutation_conflicts staged committed start_time ≡ ok tt)
      ↔ All (IsFree committed start_time) staged
unfolding detect_mutation_conflicts
detect_mutation_conflicts_iff staged committed start_time hs hc =
    detect_all_iff staged committed start_time hs hc
