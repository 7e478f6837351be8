-- ===== src/Txn/Authority/Stage.antt =====
-- `stage_operation`: what it returns, what it changes and when it fails.
use mathlib.Core.Bool.{true≢false}
use dtgproxy.Base.{
  ℕ, ◌+◌, ◌≤◌, ◌<◌, ◌≡◌, refl, inl, inr, true, false, Option, none, some, [], ◌∷◌, arith, any, ok,
  err, i64_max, Bool-cases, Option-cases, sym, ◌∙◌, ltb, ltb→lt, if◌then◌else◌,
}
use dtgproxy.Base.Map.{Map, get, values, nat_key}
use dtgproxy.Kernel.{transaction_time}
use dtgproxy.Txn.{resource_limit}
use dtgproxy.Txn.Timestamp.{
  TimestampState, CommitTimeReservation, TimestampCommand, TimestampOperation, allocate_start,
  reserve_commit, resolve_commit, apply, next_timestamp, next_start_time, start_arm, reserve_arm,
  is_pending, resolves, apply_new_timestamp, start_allocated, commit_reserved,
}
use dtgproxy.Txn.Timestamp.Frontier.{IsConsistent, has_time}
use dtgproxy.Txn.Timestamp.Steps.{started_new, started_at, reserved}
use dtgproxy.Txn.Authority.{stage_operation, stage_resolve}

-- The command that is staged, if there is one, takes the state to the state that is returned.
abbrev pub Effect : TimestampState → Option TimestampCommand → TimestampState → Type 0
Effect s none s' = s' ≡ s
Effect s (some c) s' = apply s c ≡ ok s'

pub stage_operation-Effect :
    (s : TimestampState) (o : TimestampOperation) (t : ℕ) (c : Option TimestampCommand)
    (s' : TimestampState)
    → stage_operation s o ≡ ok (t, c, s')
    → Effect s c s'
unfolding stage_operation stage_resolve
stage_operation-Effect s (allocate_start id) t none s' e = ground arith
stage_operation-Effect s (allocate_start id) t (some c) s' e = ground arith
stage_operation-Effect s (reserve_commit id) t none s' e = ground arith
stage_operation-Effect s (reserve_commit id) t (some c) s' e = ground arith
stage_operation-Effect s (resolve_commit id u x) t none s' e = ground arith
stage_operation-Effect s (resolve_commit id u x) t (some c) s' e = ground arith

timed-resolves :
    (n : ℕ) (m : Map ℕ CommitTimeReservation)
    → any is_pending (values m) ≡ false
    → any (resolves n) (values m) ≡ any (has_time n) (values m)
timed-resolves n [] h = refl
timed-resolves n ((k, r) ∷ m) h = ground (arith, timed-resolves n m)

-- With nothing pending every issued time is published.
pub all_published :
    (s : TimestampState)
    → IsConsistent s
    → any is_pending (values s.reservations) ≡ false
    → s.published_frontier ≡ s.last_issued
all_published s h settled = elim (Bool-cases (ltb s.published_frontier s.last_issued)) [
  | inr reached ↦ ground (arith, h.ordered)
  | inl behind ↦
      let lt = ltb→lt s.published_frontier s.last_issued behind in
      absurd (
        true≢false (
          sym (h.covered (s.published_frontier + 1) (omega arith) (omega arith))
          ∙ (sym (timed-resolves (s.published_frontier + 1) s.reservations settled)
              ∙ h.maximal lt)))
]

new_start :
    (s : TimestampState) (id : ℕ)
    → s.last_issued < i64_max
    → s.published_frontier ≡ s.last_issued
    → start_arm s id (s.last_issued + 1) ≡ ok (started_new s id (s.last_issued + 1))
unfolding start_arm apply_new_timestamp
new_start s id lt e = ground arith

frontier_start :
    (s : TimestampState) (id : ℕ)
    → s.last_issued < i64_max
    → s.published_frontier ≤ s.last_issued
    → start_arm s id s.published_frontier ≡ ok (started_at s id s.published_frontier)
unfolding start_arm apply_new_timestamp
frontier_start s id lt e = ground arith

-- The start time that a consistent state allocates to a transaction that has none.
pub start_for : TimestampState → ℕ → ℕ × TimestampState
start_for s id =
    if any is_pending (values s.reservations)
    then (s.published_frontier, started_at s id s.published_frontier)
    else (s.last_issued + 1, started_new s id (s.last_issued + 1))

next_start_pending :
    (s : TimestampState)
    → any is_pending (values s.reservations) ≡ true
    → next_start_time s ≡ ok s.published_frontier
unfolding next_start_time transaction_time
next_start_pending s pending = rw pending

pub next_timestamp_lem :
    (s : TimestampState) → s.last_issued < i64_max → next_timestamp s ≡ ok (s.last_issued + 1)
unfolding next_timestamp transaction_time
next_timestamp_lem s lt = ground arith

next_start_settled :
    (s : TimestampState)
    → any is_pending (values s.reservations) ≡ false
    → next_start_time s ≡ next_timestamp s
unfolding next_start_time
next_start_settled s settled = rw settled

apply_start_free :
    (s : TimestampState) (id t : ℕ)
    → get id s.start_times ≡ none
    → apply s (start_allocated id t) ≡ start_arm s id t
unfolding apply
apply_start_free s id t free = rw (free, apply)

stage_start_free :
    (s : TimestampState) (id : ℕ)
    → IsConsistent s
    → s.last_issued < i64_max
    → get id s.start_times ≡ none
    → stage_operation s (allocate_start id)
      ≡ ok ((start_for s id).0, some (start_allocated id (start_for s id).0), (start_for s id).1)
unfolding stage_operation start_for
stage_start_free s id h lt free = elim (Bool-cases (any is_pending (values s.reservations))) [
  | inl pending ↦ rw (
    free,
    stage_operation,
    next_start_pending s pending,
    apply_start_free s id _ free,
    frontier_start s id lt h.ordered,
    pending,
    start_for,
  )
  | inr settled ↦ rw (
    free,
    stage_operation,
    next_start_settled s settled,
    next_timestamp_lem s lt,
    apply_start_free s id _ free,
    new_start s id lt (all_published s h settled),
    settled,
    start_for,
  )
]

-- A consistent state that has a time left gives every transaction a start time: the one that it
-- has, the published frontier while a commit is pending, and a new time otherwise.
pub allocate_start_total :
    (s : TimestampState) (id : ℕ)
    → IsConsistent s
    → s.last_issued < i64_max
    → stage_operation s (allocate_start id) ≡ elim (get id s.start_times) [
      | some t ↦ ok (t, none, s)
      | none ↦
          ok ((start_for s id).0, some (start_allocated id (start_for s id).0), (start_for s id).1)
    ]
allocate_start_total s id h lt = elim (Option-cases (get id s.start_times)) [
  | inl free ↦ rw (stage_start_free s id h lt free, free)
  | inr (t, old) ↦ unfold stage_operation in rw (old, stage_operation)
]

reserve_free :
    (s : TimestampState) (id : ℕ)
    → s.last_issued < i64_max
    → get id s.reservations ≡ none
    → apply s (commit_reserved id (s.last_issued + 1)) ≡ ok (reserved s id (s.last_issued + 1))
unfolding apply reserve_arm apply_new_timestamp
reserve_free s id lt free = ground arith

-- `reserve_commit` returns the reservation that the transaction has, and otherwise reserves the
-- time after the last one issued, or reports that no time is left. The last time issued is in
-- range.
pub reserve_commit_cases :
    (s : TimestampState) (id : ℕ)
    → s.last_issued ≤ i64_max
    → stage_operation s (reserve_commit id) ≡ elim (get id s.reservations) [
      | some r ↦ ok (r.commit_time, none, s)
      | none ↦
          if ltb s.last_issued i64_max
          then ok (
            s.last_issued + 1,
            some (commit_reserved id (s.last_issued + 1)),
            reserved s id (s.last_issued + 1),
          )
          else err resource_limit
    ]
unfolding stage_operation
reserve_commit_cases s id le = elim (Option-cases (get id s.reservations)) [
  | inr (r, old) ↦ rw (old, stage_operation)
  | inl free ↦ elim (Bool-cases (ltb s.last_issued i64_max)) [
    | inl some_left ↦
        let lt = ltb→lt s.last_issued i64_max some_left in
        rw (free, stage_operation, next_timestamp_lem s lt, reserve_free s id lt free, some_left)
    | inr full ↦ rw (free, full, stage_operation) (unfold next_timestamp in ground arith)
  ]
]
