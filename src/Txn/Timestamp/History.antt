-- ===== src/Txn/Timestamp/History.antt =====
-- What stays true of a timestamp state in every later one.
use dtgproxy.Base.{
  ℕ, ◌≤◌, ◌<◌, ◌≡◌, ◌≢◌, refl, sym, ap, subst, ◌∙◌, inl, inr, false, none, some, [], ◌∷◌, arith,
  ◌==◌, ==_iff, ok, Bool-cases,
}
use dtgproxy.Base.Map.{get, replace, AllValues, AllValues-get, get-insert, get-replace, nat_key}
use dtgproxy.Txn.Timestamp.{
  TimestampState, CommitTimeReservation, CommitResolution, TimestampCommand, is_pending, apply,
  initial, advance_published_frontier,
}
use dtgproxy.Txn.Timestamp.Frontier.{
  Reservations, Distinct, IsTimed, IsConsistent, Advances, advance_published_frontier-Advances,
}
use dtgproxy.Txn.Timestamp.Steps.{
  Step, again, start_new, start_at, reserve, resolve, apply-Step, pending_at, settled, settled_at,
}
use dtgproxy.Txn.Timestamp.Invariant.{apply-IsConsistent, settle-IsCovered}

-- The states that commands lead to.
pub data Reach (s : TimestampState) : TimestampState → Type 0 where
  here : Reach s s
  next : {t u : TimestampState} → Reach s t → (c : TimestampCommand) → apply t c ≡ ok u → Reach s u

pub initial-IsConsistent : IsConsistent initial
initial-IsConsistent = record {
  base = record {
    ordered = omega arith;
    in_range = omega arith;
    started = tt;
    timed = tt;
    distinct = tt;
    covered = λ t above below. absurd (omega arith);
  };
  maximal = λ lt. refl;
}

pub Reach-IsConsistent : {s s' : TimestampState} → IsConsistent s → Reach s s' → IsConsistent s'
Reach-IsConsistent h here = h
Reach-IsConsistent h (next r c e) = apply-IsConsistent _ _ c (Reach-IsConsistent h r) e

-- A resolution moves the frontier and writes one reservation.
pub resolved_lem :
    (s s' : TimestampState) (id : ℕ) (x : CommitResolution) (r : CommitTimeReservation)
    → IsConsistent s
    → get id s.reservations ≡ some r
    → advance_published_frontier (settled s id r.commit_time x) ≡ ok s'
    → (s.published_frontier ≤ s'.published_frontier)
      × (s'.reservations ≡ replace id (settled_at r.commit_time x) s.reservations)
      × (s'.start_times ≡ s.start_times)
      × (s'.last_issued ≡ s.last_issued)
resolved_lem s s' id x r h found done =
    let moved = settled s id r.commit_time x in
    let advances = subst (Advances moved) done (
      advance_published_frontier-Advances moved
        (settle-IsCovered s id r.commit_time x r h found refl)) in
    let same = advances.2 in
    (
      advances.1,
      ap (λ u. u.reservations) same,
      ap (λ u. u.start_times) same,
      ap (λ u. u.last_issued) same,
    )

frontier_le :
    {s s' : TimestampState}
    → IsConsistent s
    → Step s s'
    → s.published_frontier ≤ s'.published_frontier
frontier_le h (again e) = rw e (omega arith)
frontier_le h (start_new id t free e f le e') = rw e' (omega arith)
frontier_le h (start_at id free e) = rw e (omega arith)
frontier_le h (reserve id t free e le e') = rw e' (omega arith)
frontier_le {s} {s'} h (resolve id x r found pending done) =
    (resolved_lem s s' id x r h found done).0

-- A reservation at or below the frontier is settled, so a pending one lies beyond it.
pub pending_beyond :
    (s : TimestampState) (id : ℕ) (r : CommitTimeReservation)
    → IsConsistent s
    → get id s.reservations ≡ some r
    → r.resolution ≡ none
    → s.published_frontier < r.commit_time
pending_beyond s id r h found pending =
    let timed =
      AllValues-get (IsTimed s.published_frontier s.last_issued) id s.reservations h.timed found in
    ground (arith, timed.2)

old_reservation :
    (s s' : TimestampState) (id : ℕ) (r : CommitTimeReservation)
    → IsConsistent s
    → Step s s'
    → get id s'.reservations ≡ some r
    → r.commit_time ≤ s.published_frontier
    → get id s.reservations ≡ some r
old_reservation s s' id r h (again e) found le = rw e at found
old_reservation s s' id r h (start_new i t free e f le' e') found le = rw e' at found
old_reservation s s' id r h (start_at i free e) found le = rw e at found
old_reservation s s' id r h (reserve i t free e le' e') found le =
    let found' = rw (e', get-insert i id (pending_at t) s.reservations) at found in
    ground (arith, h.ordered)
old_reservation s s' id r h (resolve i x q held pending done) found le =
    let changed = (resolved_lem s s' i x q h held done).1 in
    let found' =
      rw (changed, get-replace i id (settled_at q.commit_time x) s.reservations) at found in
    let beyond = pending_beyond s i q h held pending in ground arith

pub Reach-frontier :
    {s s' : TimestampState}
    → IsConsistent s
    → Reach s s'
    → s.published_frontier ≤ s'.published_frontier
Reach-frontier h here = omega arith
Reach-frontier h (next r c e) =
    omega (arith, Reach-frontier h r, frontier_le (Reach-IsConsistent h r) (apply-Step _ _ c e))

-- In every state that a consistent state leads to, a reservation whose commit time is at or below
-- the frontier of the first state is one that the first state held already, and it is settled.
pub snapshot_stable :
    {s s' : TimestampState} (id : ℕ) (r : CommitTimeReservation)
    → IsConsistent s
    → Reach s s'
    → get id s'.reservations ≡ some r
    → r.commit_time ≤ s.published_frontier
    → (get id s.reservations ≡ some r) × (is_pending r ≡ false)
snapshot_stable {s} id r h here found le = (
  found,
  (AllValues-get (IsTimed s.published_frontier s.last_issued) id s.reservations h.timed found).2 le,
)
snapshot_stable {s} id r h (next {t = t} {u = u} reach c e) found le =
    let at_t = Reach-IsConsistent h reach in
    snapshot_stable id r h reach
      (old_reservation t u id r at_t (apply-Step t u c e) found
        (omega (arith, Reach-frontier h reach)))
      le

-- What a later state may say of a reservation.
pub record IsKept (r q : CommitTimeReservation) : Type 0 where
  pub same_time : q.commit_time ≡ r.commit_time
  pub same_resolution : (x : CommitResolution) → r.resolution ≡ some x → q.resolution ≡ some x

abbrev pub KeptAt : TimestampState → ℕ → CommitTimeReservation → Type 0
KeptAt s id r = (q : CommitTimeReservation) × (get id s.reservations ≡ some q) × IsKept r q

unchanged :
    (s : TimestampState) (id : ℕ) (r : CommitTimeReservation)
    → get id s.reservations ≡ some r
    → KeptAt s id r
unchanged s id r found = (r, found, record { same_time = refl; same_resolution = λ x e. e })

settled_kept :
    (s s' : TimestampState) (id i : ℕ) (x : CommitResolution) (r q : CommitTimeReservation)
    → get id s.reservations ≡ some r
    → get i s.reservations ≡ some q
    → q.resolution ≡ none
    → s'.reservations ≡ replace i (settled_at q.commit_time x) s.reservations
    → KeptAt s' id r
settled_kept s s' id i x r q found held pending e = elim (Bool-cases (i == id)) [
  | inl hit ↦ (
    settled_at q.commit_time x,
    rw (e, get-replace i id (settled_at q.commit_time x) s.reservations, hit, held) refl,
    record { same_time = ground arith; same_resolution = λ y was. ground arith },
  )
  | inr miss ↦
      unchanged s' id r
        (rw (e, get-replace i id (settled_at q.commit_time x) s.reservations, miss) found)
]

Step-kept :
    (s s' : TimestampState) (id : ℕ) (r : CommitTimeReservation)
    → IsConsistent s
    → Step s s'
    → get id s.reservations ≡ some r
    → KeptAt s' id r
Step-kept s s' id r h (again e) found = unchanged s' id r (rw e found)
Step-kept s s' id r h (start_new i t free e f le' e') found = unchanged s' id r (rw e' found)
Step-kept s s' id r h (start_at i free e) found = unchanged s' id r (rw e found)
Step-kept s s' id r h (reserve i t free e le' e') found =
    unchanged s' id r
      (rw (e', get-insert i id (pending_at t) s.reservations) (ground (arith, ==_iff i id)))
Step-kept s s' id r h (resolve i x q held pending done) found =
    settled_kept s s' id i x r q found held pending (resolved_lem s s' i x q h held done).1

-- In every state that a consistent state leads to, each reservation of the first state is there,
-- with its commit time, and with its resolution if it had one.
pub reservation_kept :
    {s s' : TimestampState} (id : ℕ) (r : CommitTimeReservation)
    → IsConsistent s
    → Reach s s'
    → get id s.reservations ≡ some r
    → KeptAt s' id r
reservation_kept {s} id r h here found = unchanged s id r found
reservation_kept id r h (next {t = t} {u = u} reach c e) found =
    let (q, held, k) = reservation_kept id r h reach found in
    let (p, held', l) = Step-kept t u id q (Reach-IsConsistent h reach) (apply-Step t u c e) held in
    (
      p,
      held',
      record {
        same_time = l.same_time ∙ k.same_time;
        same_resolution = λ x was. l.same_resolution x (k.same_resolution x was);
      },
    )

distinct_apart :
    (i : ℕ) (r q : CommitTimeReservation) (m : Reservations)
    → AllValues (λ p. p.commit_time ≢ r.commit_time) m
    → get i m ≡ some q
    → q.commit_time ≢ r.commit_time
distinct_apart i r q m h found = AllValues-get (λ p. p.commit_time ≢ r.commit_time) i m h found

Distinct-ids :
    (i j : ℕ) (r q : CommitTimeReservation) (m : Reservations)
    → Distinct m
    → get i m ≡ some r
    → get j m ≡ some q
    → r.commit_time ≡ q.commit_time
    → i ≡ j
unfolding get
Distinct-ids i j r q [] d a b same = cc
Distinct-ids i j r q ((k, p) ∷ m) d a b same = elim (Bool-cases (k == i)) [
  | inl hit ↦ elim (Bool-cases (k == j)) [
    | inl hit' ↦ ground arith
    | inr miss' ↦
        let held : get j m ≡ some q = ground arith in
        let this : p ≡ r = ground arith in
        absurd (distinct_apart j p q m d.0 held (rw this (sym same)))
  ]
  | inr miss ↦ elim (Bool-cases (k == j)) [
    | inl hit' ↦
        let held : get i m ≡ some r = ground arith in
        let this : p ≡ q = ground arith in absurd (distinct_apart i p r m d.0 held (rw this same))
    | inr miss' ↦ Distinct-ids i j r q m d.1 (ground arith) (ground arith) same
  ]
]

-- In every state that commands lead to from the start, two transactions never hold the same commit
-- time.
pub commit_times_unique :
    {s : TimestampState} (i j : ℕ) (r q : CommitTimeReservation)
    → Reach initial s
    → get i s.reservations ≡ some r
    → get j s.reservations ≡ some q
    → r.commit_time ≡ q.commit_time
    → i ≡ j
commit_times_unique {s} i j r q reach a b same =
    Distinct-ids i j r q s.reservations (Reach-IsConsistent initial-IsConsistent reach).distinct a b
      same
