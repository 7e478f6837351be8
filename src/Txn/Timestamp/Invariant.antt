-- ===== src/Txn/Timestamp/Invariant.antt =====
-- Every command keeps the timestamp state consistent.
use dtgproxy.Base.{
  ℕ, ◌+◌, ◌≤◌, ◌<◌, ◌≡◌, ◌≢◌, refl, ap, sym, subst, ◌∙◌, inl, inr, false, none, some, [], ◌∷◌,
  arith, any, ◌==◌, ok, i64_max, Bool-cases, ltb,
}
use dtgproxy.Base.Map.{
  get, insert, replace, values, AllValues, AllValues-insert, AllValues-replace, AllValues-get,
  any-insert, any-replace, nat_key,
}
use dtgproxy.Txn.Timestamp.{
  TimestampState, CommitTimeReservation, CommitResolution, TimestampCommand, is_pending, resolves,
  apply, advance_published_frontier,
}
use dtgproxy.Txn.Timestamp.Steps.{
  again, start_new, start_at, reserve, resolve, apply-Step, started_new, started_at, pending_at,
  reserved, settled_at, settled,
}
use dtgproxy.Txn.Timestamp.Frontier.{
  Reservations, Distinct, IsTimed, has_time, IsCovered, IsConsistent, Advances, started_further,
  advance_published_frontier-Advances,
}

IsTimed-later :
    (f l g k : ℕ) (m : Reservations)
    → l ≤ k
    → AllValues (IsTimed f l) m
    → AllValues (λ r. is_pending r ≡ false) m
    → AllValues (IsTimed g k) m
IsTimed-later f l g k [] le h settled = tt
IsTimed-later f l g k ((i, r) ∷ m) le h settled =
    ((h.0.0, omega arith, λ _. settled.0), IsTimed-later f l g k m le h.1 settled.1)

IsTimed-issued :
    (f l k : ℕ) (m : Reservations) → l ≤ k → AllValues (IsTimed f l) m → AllValues (IsTimed f k) m
IsTimed-issued f l k [] le h = tt
IsTimed-issued f l k ((i, r) ∷ m) le h =
    ((h.0.0, omega arith, h.0.2), IsTimed-issued f l k m le h.1)

all_published :
    (f l : ℕ) (m : Reservations)
    → f ≡ l
    → AllValues (IsTimed f l) m
    → AllValues (λ r. is_pending r ≡ false) m
all_published f l [] e h = tt
all_published f l ((i, r) ∷ m) e h = (h.0.2 (omega arith), all_published f l m e h.1)

start_new-IsConsistent :
    (s : TimestampState) (id t : ℕ)
    → IsConsistent s
    → t ≡ s.last_issued + 1
    → s.published_frontier ≡ s.last_issued
    → t ≤ i64_max
    → IsConsistent (started_new s id t)
start_new-IsConsistent s id t h e f le = record {
  base = record {
    ordered = omega arith;
    in_range = le;
    started =
        AllValues-insert (λ u. u ≤ t) id t s.start_times (omega arith)
          (started_further s.published_frontier t s.start_times (omega arith) h.started);
    timed =
        IsTimed-later s.published_frontier s.last_issued t t s.reservations (omega arith) h.timed
          (all_published s.published_frontier s.last_issued s.reservations f h.timed);
    distinct = h.distinct;
    covered = λ u above below. absurd (omega arith);
  };
  maximal = λ lt. absurd (omega arith);
}

start_at-IsConsistent :
    (s : TimestampState) (id : ℕ)
    → IsConsistent s
    → IsConsistent (started_at s id s.published_frontier)
start_at-IsConsistent s id h = record {
  base = record {
    ordered = h.ordered;
    in_range = h.in_range;
    started =
        AllValues-insert (λ u. u ≤ s.published_frontier) id s.published_frontier s.start_times
          (omega arith) h.started;
    timed = h.timed;
    distinct = h.distinct;
    covered = h.covered;
  };
  maximal = h.maximal;
}

issued_distinct :
    (f l t : ℕ) (m : Reservations)
    → l < t
    → AllValues (IsTimed f l) m
    → AllValues (λ q. q.commit_time ≢ t) m
issued_distinct f l t [] lt h = tt
issued_distinct f l t ((i, r) ∷ m) lt h = (λ e. omega arith, issued_distinct f l t m lt h.1)

Distinct-insert :
    (k : ℕ) (r : CommitTimeReservation) (m : Reservations)
    → get k m ≡ none
    → AllValues (λ q. q.commit_time ≢ r.commit_time) m
    → Distinct m
    → Distinct (insert k r m)
unfolding get insert
Distinct-insert k r [] e fresh h = (tt, tt)
Distinct-insert k r ((j, q) ∷ m) e fresh h = elim (Bool-cases (j == k)) [
  | inl hit ↦ cc (hit, e)
  | inr miss ↦
      let rest = Distinct-insert k r m (ground arith) fresh.1 h.1 in
      let apart : r.commit_time ≢ q.commit_time = λ e'. fresh.0 (sym e') in
      let below = AllValues-insert (λ u. u.commit_time ≢ q.commit_time) k r m apart h.0 in
      elim (Bool-cases (ltb k j)) [
        | inl first ↦ rw (miss, first) (fresh, h)
        | inr later ↦ rw (miss, later) (below, rest)
      ]
]

unresolved_beyond :
    (f l n : ℕ) (m : Reservations)
    → l < n
    → AllValues (IsTimed f l) m
    → any (resolves n) (values m) ≡ false
unresolved_beyond f l n [] lt h = refl
unresolved_beyond f l n ((i, r) ∷ m) lt h = ground (arith, unresolved_beyond f l n m lt h.1, h.0.1)

reserve-IsConsistent :
    (s : TimestampState) (id t : ℕ)
    → IsConsistent s
    → t ≡ s.last_issued + 1
    → t ≤ i64_max
    → get id s.reservations ≡ none
    → IsConsistent (reserved s id t)
reserve-IsConsistent s id t h e le free = record {
  base = record {
    ordered = omega (arith, h.ordered);
    in_range = le;
    started = h.started;
    timed =
        AllValues-insert (IsTimed s.published_frontier t) id (pending_at t) s.reservations
          (omega arith, omega arith, λ below. absurd (omega (arith, h.ordered)))
          (IsTimed-issued s.published_frontier s.last_issued t s.reservations (omega arith)
            h.timed);
    distinct =
        Distinct-insert id (pending_at t) s.reservations free
          (issued_distinct s.published_frontier s.last_issued t s.reservations (omega arith)
            h.timed)
          h.distinct;
    covered = λ u above below.
        rw (any-insert (has_time u) id (pending_at t) s.reservations free)
          (ground (arith, h.covered u));
  };
  maximal = λ lt.
      rw (any-insert (resolves (s.published_frontier + 1)) id (pending_at t) s.reservations free) (
        ground (
          arith,
          h.maximal,
          unresolved_beyond s.published_frontier s.last_issued (s.published_frontier + 1)
              s.reservations,
        ));
}

apart-replace :
    (k : ℕ) (r v : CommitTimeReservation) (t : ℕ) (m : Reservations)
    → get k m ≡ some r
    → v.commit_time ≡ r.commit_time
    → AllValues (λ q. q.commit_time ≢ t) m
    → AllValues (λ q. q.commit_time ≢ t) (replace k v m)
apart-replace k r v t m e same h =
    AllValues-replace (λ q. q.commit_time ≢ t) k v m
      (rw same (AllValues-get (λ q. q.commit_time ≢ t) k m h e)) h

Distinct-replace :
    (k : ℕ) (r v : CommitTimeReservation) (m : Reservations)
    → get k m ≡ some r
    → v.commit_time ≡ r.commit_time
    → Distinct m
    → Distinct (replace k v m)
unfolding get replace
Distinct-replace k r v [] e same h = tt
Distinct-replace k r v ((j, q) ∷ m) e same h = elim (Bool-cases (j == k)) [
  | inl hit ↦ rw hit (subst (λ t. AllValues (λ u. u.commit_time ≢ t) m) (ground arith) h.0, h.1)
  | inr miss ↦ rw miss (
    apart-replace k r v q.commit_time m (ground arith) same h.0,
    Distinct-replace k r v m (ground arith) same h.1,
  )
]

pub settle-IsCovered :
    (s : TimestampState) (id t : ℕ) (x : CommitResolution) (r : CommitTimeReservation)
    → IsConsistent s
    → get id s.reservations ≡ some r
    → t ≡ r.commit_time
    → IsCovered (settled s id t x)
settle-IsCovered s id t x r h e same = record {
  ordered = h.ordered;
  in_range = h.in_range;
  started = h.started;
  timed =
      AllValues-replace (IsTimed s.published_frontier s.last_issued) id (settled_at t x)
        s.reservations
        (let old =
            AllValues-get (IsTimed s.published_frontier s.last_issued) id s.reservations h.timed
              e in
          (omega arith, omega arith, λ _. refl))
        h.timed;
  distinct = Distinct-replace id r (settled_at t x) s.reservations e same h.distinct;
  covered = λ u above below.
      any-replace (has_time u) id (settled_at t x) r s.reservations e (ap (λ v. v == u) same)
      ∙ h.covered u above below;
}

resolve-IsConsistent :
    (s s' : TimestampState) (id t : ℕ) (x : CommitResolution) (r : CommitTimeReservation)
    → IsConsistent s
    → get id s.reservations ≡ some r
    → t ≡ r.commit_time
    → advance_published_frontier (settled s id t x) ≡ ok s'
    → IsConsistent s'
resolve-IsConsistent s s' id t x r h e same done =
    (subst (Advances (settled s id t x)) done (
      advance_published_frontier-Advances (settled s id t x)
        (settle-IsCovered s id t x r h e same))).0

-- A command that a consistent state accepts leaves it consistent.
pub apply-IsConsistent :
    (s s' : TimestampState) (c : TimestampCommand)
    → IsConsistent s
    → apply s c ≡ ok s'
    → IsConsistent s'
apply-IsConsistent s s' c h e = elim (apply-Step s s' c e) [
  | again e' ↦ rw e' h
  | start_new id t _ e' f le r ↦ rw r (start_new-IsConsistent s id t h e' f le)
  | start_at id _ r ↦ rw r (start_at-IsConsistent s id h)
  | reserve id t free e' le r ↦ rw r (reserve-IsConsistent s id t h e' le free)
  | resolve id x r found pending done ↦
      resolve-IsConsistent s s' id r.commit_time x r h found refl done
]
