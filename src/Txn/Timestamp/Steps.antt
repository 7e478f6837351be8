-- ===== src/Txn/Timestamp/Steps.antt =====
-- What `apply` does when it accepts a command, as a step relation.
use dtgproxy.Base.{
  ℕ, ◌+◌, ◌≤◌, ◌≡◌, ◌⊎◌, ap, ◌∙◌, inl, inr, none, some, arith, ok, i64_max, Option-cases,
}
use dtgproxy.Base.Map.{get, insert, replace, nat_key}
use dtgproxy.Txn.Timestamp.{
  TimestampState, CommitTimeReservation, CommitResolution, TimestampCommand, start_allocated,
  commit_reserved, commit_resolved, apply, start_arm, reserve_arm, resolve_arm,
  advance_published_frontier,
}

-- The two ways to allocate a start time: a new time that is published at once, or the frontier.
abbrev pub started_new : TimestampState → ℕ → ℕ → TimestampState
started_new s id t = record s {
  last_issued = t;
  published_frontier = t;
  start_times = insert id t s.start_times;
}

abbrev pub started_at : TimestampState → ℕ → ℕ → TimestampState
started_at s id t = record s { start_times = insert id t s.start_times }

pub start_arm_cases :
    (s s' : TimestampState) (id t : ℕ)
    → start_arm s id t ≡ ok s'
    → ((t ≡ s.last_issued + 1)
        × (s.published_frontier ≡ s.last_issued)
        × (t ≤ i64_max)
        × (s' ≡ started_new s id t))
      ⊎ ((t ≡ s.published_frontier) × (s' ≡ started_at s id t))
unfolding start_arm
start_arm_cases s s' id t e = ground arith

abbrev pub pending_at : ℕ → CommitTimeReservation
pending_at t = record { commit_time = t; resolution = none }

abbrev pub reserved : TimestampState → ℕ → ℕ → TimestampState
reserved s id t = record s {
  last_issued = t;
  reservations = insert id (pending_at t) s.reservations;
}

pub reserve_arm_cases :
    (s s' : TimestampState) (id t : ℕ)
    → reserve_arm s id t ≡ ok s'
    → (t ≡ s.last_issued + 1) × (t ≤ i64_max) × (s' ≡ reserved s id t)
unfolding reserve_arm
reserve_arm_cases s s' id t e = ground arith

abbrev pub settled_at : ℕ → CommitResolution → CommitTimeReservation
settled_at t x = record { commit_time = t; resolution = some x }

abbrev pub settled : TimestampState → ℕ → ℕ → CommitResolution → TimestampState
settled s id t x = record s { reservations = replace id (settled_at t x) s.reservations }

pub data Step (s s' : TimestampState) : Type 0 where
  again : s' ≡ s → Step s s'
  start_new :
      (id t : ℕ)
      → get id s.start_times ≡ none
      → t ≡ s.last_issued + 1
      → s.published_frontier ≡ s.last_issued
      → t ≤ i64_max
      → s' ≡ started_new s id t
      → Step s s'
  start_at :
      (id : ℕ) → get id s.start_times ≡ none → s' ≡ started_at s id s.published_frontier → Step s s'
  reserve :
      (id t : ℕ)
      → get id s.reservations ≡ none
      → t ≡ s.last_issued + 1
      → t ≤ i64_max
      → s' ≡ reserved s id t
      → Step s s'
  resolve :
      (id : ℕ) (x : CommitResolution) (r : CommitTimeReservation)
      → get id s.reservations ≡ some r
      → r.resolution ≡ none
      → advance_published_frontier (settled s id r.commit_time x) ≡ ok s'
      → Step s s'

start-Step : (s s' : TimestampState) (id t : ℕ) → apply s (start_allocated id t) ≡ ok s' → Step s s'
unfolding apply
start-Step s s' id t e = elim (Option-cases (get id s.start_times)) [
  | inr (u, old) ↦ again (ground arith)
  | inl free ↦ elim (start_arm_cases s s' id t (rw (free, apply) at e)) [
    | inl (e', f, le, r) ↦ start_new id t free e' f le r
    | inr (e', r) ↦ start_at id free (r ∙ ap (started_at s id) e')
  ]
]

reserve-Step :
    (s s' : TimestampState) (id t : ℕ) → apply s (commit_reserved id t) ≡ ok s' → Step s s'
unfolding apply
reserve-Step s s' id t e = elim (Option-cases (get id s.reservations)) [
  | inr (u, old) ↦ again (ground arith)
  | inl free ↦
      let (e', le, r) = reserve_arm_cases s s' id t (rw (free, apply) at e) in
      reserve id t free e' le r
]

resolve-Step :
    (s s' : TimestampState) (id t : ℕ) (x : CommitResolution)
    → apply s (commit_resolved id t x) ≡ ok s'
    → Step s s'
unfolding apply resolve_arm
resolve-Step s s' id t x e = elim (Option-cases (get id s.reservations)) [
  | inl free ↦ ground arith
  | inr (r, found) ↦ elim (Option-cases r.resolution) [
    | inl pending ↦ resolve id x r found pending (ground arith)
    | inr (y, settled) ↦ again (ground arith)
  ]
]

pub apply-Step : (s s' : TimestampState) (c : TimestampCommand) → apply s c ≡ ok s' → Step s s'
apply-Step s s' (start_allocated id t) e = start-Step s s' id t e
apply-Step s s' (commit_reserved id t) e = reserve-Step s s' id t e
apply-Step s s' (commit_resolved id t x) e = resolve-Step s s' id t x e
