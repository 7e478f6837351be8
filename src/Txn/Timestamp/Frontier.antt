-- ===== src/Txn/Timestamp/Frontier.antt =====
-- The invariant of the timestamp state, and the loop that moves the published frontier.
use dtgproxy.Base.{
  ℕ, zero, suc, ◌+◌, ◌-◌, ◌≤◌, ◌<◌, ◌≡◌, ◌≢◌, refl, inl, inr, Bool, true, false, some, [], ◌∷◌,
  arith, any, ◌==◌, Result, ok, err, i64_max, Bool-cases, ltb, ltb→lt, checked_add,
}
use dtgproxy.Base.Map.{Map, values, AllValues}
use dtgproxy.Txn.{TxnError}
use dtgproxy.Txn.Timestamp.{
  TimestampState, CommitTimeReservation, is_pending, resolves, advance_loop,
  advance_published_frontier,
}

abbrev pub Reservations : Type 0
Reservations = Map ℕ CommitTimeReservation

-- No two reservations share a commit time.
abbrev pub Distinct : Reservations → Type 0
Distinct [] = Unit {0}
Distinct ((k, r) ∷ m) = AllValues (λ q. q.commit_time ≢ r.commit_time) m × Distinct m

-- A commit time is one that was issued, and is settled once the frontier has passed it.
abbrev pub IsTimed : ℕ → ℕ → CommitTimeReservation → Type 0
IsTimed frontier last r =
    (1 ≤ r.commit_time) × (r.commit_time ≤ last) × (r.commit_time ≤ frontier → is_pending r ≡ false)

abbrev pub has_time : ℕ → CommitTimeReservation → Bool
has_time t r = r.commit_time == t

pub record IsCovered (s : TimestampState) : Type 0 where
  pub ordered : s.published_frontier ≤ s.last_issued
  pub in_range : s.last_issued ≤ i64_max
  pub started : AllValues (λ t. t ≤ s.published_frontier) s.start_times
  pub timed : AllValues (IsTimed s.published_frontier s.last_issued) s.reservations
  pub distinct : Distinct s.reservations
  -- The times beyond the frontier are those of reservations.
  pub covered :
      (t : ℕ)
      → s.published_frontier < t
      → t ≤ s.last_issued
      → any (has_time t) (values s.reservations) ≡ true

-- The frontier is as far as the settled reservations let it be.
pub record IsConsistent (s : TimestampState) : Type 0 where
  pub base : IsCovered s
  pub open base use *
  pub maximal :
      s.published_frontier < s.last_issued
      → any (resolves (s.published_frontier + 1)) (values s.reservations) ≡ false

SettledAt : (n : ℕ) → CommitTimeReservation → Type 0
SettledAt n r = r.commit_time ≡ n → is_pending r ≡ false

none_at :
    (n : ℕ) (r : CommitTimeReservation) (m : Reservations)
    → r.commit_time ≡ n
    → AllValues (λ q. q.commit_time ≢ r.commit_time) m
    → AllValues (SettledAt n) m
unfolding SettledAt
none_at n r [] e h = tt
none_at n r ((k, q) ∷ m) e h = (λ e'. absurd (omega arith), none_at n r m e h.1)

none_resolves :
    (n : ℕ) (r : CommitTimeReservation) (m : Reservations)
    → r.commit_time ≡ n
    → AllValues (λ q. q.commit_time ≢ r.commit_time) m
    → any (resolves n) (values m) ≡ false
none_resolves n r [] e h = refl
none_resolves n r ((k, q) ∷ m) e h = ground (arith, none_resolves n r m e h.1)

-- One settled reservation at a time settles the time, since no other has it.
all_settled :
    (n : ℕ) (m : Reservations)
    → Distinct m
    → any (resolves n) (values m) ≡ true
    → AllValues (SettledAt n) m
unfolding SettledAt
all_settled n [] d h = tt
all_settled n ((k, r) ∷ m) d h = elim (Bool-cases (resolves n r)) [
  | inl hit ↦ (λ e. ground arith, none_at n r m (ground arith) d.0)
  | inr miss ↦ (λ e. ground (arith, none_resolves n r m e d.0), all_settled n m d.1 (ground arith))
]

IsTimed-further :
    (f last : ℕ) (m : Reservations)
    → AllValues (IsTimed f last) m
    → AllValues (SettledAt (f + 1)) m
    → AllValues (IsTimed (f + 1) last) m
unfolding SettledAt
IsTimed-further f last [] h k = tt
IsTimed-further f last ((i, r) ∷ m) h k =
    ((h.0.0, h.0.1, λ le. grind arith), IsTimed-further f last m h.1 k.1)

pub started_further :
    (f g : ℕ) (m : Map ℕ ℕ) → f ≤ g → AllValues (λ t. t ≤ f) m → AllValues (λ t. t ≤ g) m
started_further f g [] le h = tt
started_further f g ((i, t) ∷ m) le h = (omega arith, started_further f g m le h.1)

move_frontier-IsCovered :
    {s : TimestampState}
    → IsCovered s
    → s.published_frontier < s.last_issued
    → any (resolves (s.published_frontier + 1)) (values s.reservations) ≡ true
    → IsCovered (record s { published_frontier = s.published_frontier + 1 })
move_frontier-IsCovered {s} h lt hit = record {
  ordered = omega arith;
  in_range = h.in_range;
  started = started_further s.published_frontier _ s.start_times (omega arith) h.started;
  timed =
      IsTimed-further s.published_frontier s.last_issued s.reservations h.timed
        (all_settled (s.published_frontier + 1) s.reservations h.distinct hit);
  distinct = h.distinct;
  covered = λ t above below. h.covered t (omega arith) below;
}

-- The loop ends with the frontier as far as it goes, and changes nothing else.
abbrev pub Advances : TimestampState → Result TxnError TimestampState → Type 0
Advances s (ok s') =
    IsConsistent s'
    × (s.published_frontier ≤ s'.published_frontier)
    × (s' ≡ record s { published_frontier = s'.published_frontier })
Advances s (err e) = ⊥

Advances-next :
    (s : TimestampState) (r : Result TxnError TimestampState)
    → Advances (record s { published_frontier = s.published_frontier + 1 }) r
    → Advances s r
Advances-next s (ok s') h = (h.0, omega arith, h.2)
Advances-next s (err e) h = h

room :
    (s : TimestampState)
    → IsCovered s
    → s.published_frontier < s.last_issued
    → checked_add i64_max s.published_frontier 1 ≡ some (s.published_frontier + 1)
room s h lt = ground (arith, h.in_range)

stays :
    (s : TimestampState)
    → IsCovered s
    → (s.published_frontier < s.last_issued
        → any (resolves (s.published_frontier + 1)) (values s.reservations) ≡ false)
    → Advances s (ok s)
stays s h stop = (record { base = h; maximal = stop }, omega arith, refl)

advance_loop-Advances :
    (rounds : ℕ) (s : TimestampState)
    → IsCovered s
    → s.last_issued - s.published_frontier ≤ rounds
    → Advances s (advance_loop rounds s)
unfolding advance_loop
advance_loop-Advances zero s h le = stays s h (λ lt. absurd (omega (arith, h.ordered)))
advance_loop-Advances (suc rounds) s h le =
    elim (Bool-cases (ltb s.published_frontier s.last_issued)) [
      | inr done ↦ rw done (stays s h (λ lt. ground arith))
      | inl more ↦
          elim (Bool-cases (any (resolves (s.published_frontier + 1)) (values s.reservations))) [
            | inl hit ↦
                rw (more, room s h (ltb→lt _ _ more), hit)
                  (Advances-next s _ (
                    advance_loop-Advances rounds _ (move_frontier-IsCovered h (ltb→lt _ _ more) hit)
                      (omega arith)))
            | inr stop ↦ rw (more, room s h (ltb→lt _ _ more), stop) (stays s h (λ lt. stop))
          ]
    ]

-- Where the reservations cover the times beyond the frontier, the loop ends without an error. It
-- leaves a consistent state, in which the time after the frontier is not one of a settled
-- reservation, and which differs from the first state in the frontier at most, which has not moved
-- back.
pub advance_published_frontier-Advances :
    (s : TimestampState) → IsCovered s → Advances s (advance_published_frontier s)
unfolding advance_published_frontier
advance_published_frontier-Advances s h =
    advance_loop-Advances (s.last_issued - s.published_frontier) s h (omega arith)
