-- ===== src/Txn/Authority/Replay.antt =====
-- The log and the state of the authority stay in step: opening the log gives the state back.
use dtgproxy.Base.{
  ℕ, ◌≤◌, ◌<◌, ◌≡◌, ◌≢◌, ◌^◌, refl, subst, ◌∙◌, inl, inr, Option, none, some, List, [], ◌∷◌, ◌++◌,
  arith, length, All, ok, ◌>>=◌, Result-cases, >>=-eq-ok, i64_max, Option-cases,
}
use dtgproxy.Base.Map.{get, AllValues-get, nat_key}
use dtgproxy.Kernel.{transaction_time}
use dtgproxy.Txn.{TxnError}
use dtgproxy.Txn.Timestamp.{
  TimestampState, TimestampOperation, allocate_start, reserve_commit, resolve_commit,
  TimestampCommand, apply, initial, next_timestamp, next_start_time,
}
use dtgproxy.Txn.Timestamp.Frontier.{IsConsistent, IsTimed}
use dtgproxy.Txn.Timestamp.Invariant.{apply-IsConsistent}
use dtgproxy.Txn.Timestamp.History.{Reach, here, next, initial-IsConsistent, Reach-IsConsistent}
use dtgproxy.Base.Bytes.{Bytes}
use dtgproxy.Txn.Codec.{encode_command, decode_command, transaction_id, timestamp}
use dtgproxy.Txn.Codec.RoundTrip.{IsEncodable, decode-encode_command}
use dtgproxy.Txn.Authority.{
  Authority, Batch, stage_operation, stage_resolve, persist, stage_one, stage_all, finish,
  empty_batch, apply_batch, replay, open_log,
}
use dtgproxy.Txn.Authority.Stage.{Effect, stage_operation-Effect}

abbrev pub operation_id : TimestampOperation → ℕ
operation_id (allocate_start id) = id
operation_id (reserve_commit id) = id
operation_id (resolve_commit id _ _) = id

-- A `TransactionId` is a `u128` that is not zero.
abbrev pub HasId : TimestampOperation → Type 0
HasId o = (operation_id o ≢ 0) × (operation_id o < 256 ^ 16)

staged_id :
    (s : TimestampState) (o : TimestampOperation) (t : ℕ) (c : TimestampCommand)
    (s' : TimestampState)
    → stage_operation s o ≡ ok (t, some c, s')
    → transaction_id c ≡ operation_id o
unfolding stage_operation stage_resolve
staged_id s (allocate_start id) t c s' e = ground arith
staged_id s (reserve_commit id) t c s' e = ground arith
staged_id s (resolve_commit id u x) t c s' e = ground arith

staged_time :
    (s : TimestampState) (o : TimestampOperation) (t : ℕ) (c : TimestampCommand)
    (s' : TimestampState)
    → IsConsistent s
    → stage_operation s o ≡ ok (t, some c, s')
    → timestamp c ≤ i64_max
unfolding stage_operation stage_resolve next_timestamp next_start_time transaction_time
staged_time s (allocate_start id) t c s' h e = ground (arith, h.ordered, h.in_range)
staged_time s (reserve_commit id) t c s' h e = ground (arith, h.in_range)
staged_time s (resolve_commit id u x) t c s' h e = elim (Option-cases (get id s.reservations)) [
  | inl free ↦ ground arith
  | inr (r, found) ↦
      let timed =
        AllValues-get (IsTimed s.published_frontier s.last_issued) id s.reservations h.timed
          found in
      ground (arith, h.in_range)
]

module _ (blake3 : Bytes → Bytes)
    (length-blake3 : (bytes : Bytes) → length (blake3 bytes) ≡ 32) where
  replay-append :
      (s : TimestampState) (xs ys : List Bytes)
      → replay blake3 s (xs ++ ys) ≡ (replay blake3 s xs >>= λ t. replay blake3 t ys)
  unfolding replay
  replay-append s [] ys = refl
  replay-append s (x ∷ xs) ys = elim (Result-cases (decode_command blake3 x)) [
    | inr (e, failed) ↦ rw failed
    | inl (c, read) ↦ elim (Result-cases (apply s c)) [
      | inr (e, refused) ↦ rw (read, refused)
      | inl (t, accepted) ↦ rw (read, accepted) (replay-append t xs ys)
    ]
  ]

  -- What the loop of `apply_batch` keeps, from the state where the batch began.
  pub record IsStaged (s : TimestampState) (b : Batch) : Type 0 where
    pub replays : replay blake3 s b.commands ≡ ok b.staged
    pub consistent : IsConsistent b.staged

  staged-IsEncodable :
      (s : TimestampState) (o : TimestampOperation) (t : ℕ) (c : TimestampCommand)
      (s' : TimestampState)
      → IsConsistent s
      → HasId o
      → stage_operation s o ≡ ok (t, some c, s')
      → IsEncodable c
  staged-IsEncodable s o t c s' h id e = record {
    id_set = rw (staged_id s o t c s' e) id.0;
    id_bound = rw (staged_id s o t c s' e) id.1;
    time_bound = omega (arith, staged_time s o t c s' h e);
  }

  persist-IsStaged :
      (s : TimestampState) (b : Batch) (t : ℕ) (c : Option TimestampCommand) (s' : TimestampState)
      → IsStaged s b
      → Effect b.staged c s'
      → ((d : TimestampCommand) → c ≡ some d → IsEncodable d)
      → IsStaged s (persist blake3 b t c s')
  unfolding persist
  persist-IsStaged s b t none s' h e k = record {
    replays = rw e h.replays;
    consistent = rw e h.consistent;
  }
  persist-IsStaged s b t (some c) s' h e k = record {
    replays =
        rw (replay-append s b.commands (encode_command blake3 c ∷ []), h.replays)
          (unfold replay in rw (decode-encode_command blake3 length-blake3 c (k c refl), e));
    consistent = apply-IsConsistent b.staged s' c h.consistent e;
  }

  stage_one-IsStaged :
      (s : TimestampState) (b : Batch) (o : TimestampOperation)
      → HasId o
      → IsStaged s b
      → IsStaged s (stage_one blake3 b o)
  unfolding stage_one
  stage_one-IsStaged s b o id h = elim (Result-cases (stage_operation b.staged o)) [
    | inr (e, failed) ↦
        rw (failed, stage_one) (record { replays = h.replays; consistent = h.consistent })
    | inl ((t, c, s'), staged) ↦
        rw (staged, stage_one)
          (persist-IsStaged s b t c s' h (stage_operation-Effect b.staged o t c s' staged)
            (λ d e. staged-IsEncodable b.staged o t d s' h.consistent id (rw (← e) staged)))
  ]

  stage_all-IsStaged :
      (s : TimestampState) (b : Batch) (operations : List TimestampOperation)
      → All HasId operations
      → IsStaged s b
      → IsStaged s (stage_all blake3 b operations)
  unfolding stage_all
  stage_all-IsStaged s b [] ids h = h
  stage_all-IsStaged s b (o ∷ operations) ids h =
      stage_all-IsStaged s (stage_one blake3 b o) operations ids.1
        (stage_one-IsStaged s b o ids.0 h)

  replay-Reach :
      (s s' : TimestampState) (t : TimestampState) (log : List Bytes)
      → Reach s t
      → replay blake3 t log ≡ ok s'
      → Reach s s'
  unfolding replay
  replay-Reach s s' t [] r e = let same : t ≡ s' = ground arith in subst (Reach s) same r
  replay-Reach s s' t (x ∷ log) r e =
      let (c, read, e') =
        >>=-eq-ok (decode_command blake3 x) (λ c. apply t c >>= λ u. replay blake3 u log) e in
      let (u, accepted, e'') = >>=-eq-ok (apply t c) (λ u. replay blake3 u log) e' in
      replay-Reach s s' u log (next r c accepted) e''

  -- The log of an authority, opened again, gives the authority.
  abbrev pub IsDurable : Authority → Type 0
  IsDurable a = open_log blake3 a.log ≡ ok a

  replays_of : (a : Authority) → IsDurable a → replay blake3 initial a.log ≡ ok a.state
  unfolding open_log
  replays_of a h =
      let (s, e, same) =
        >>=-eq-ok (replay blake3 initial a.log) (λ s. ok (record { log = a.log; state = s })) h in
      e ∙ ground arith

  IsDurable-of : (a : Authority) → replay blake3 initial a.log ≡ ok a.state → IsDurable a
  unfolding open_log
  IsDurable-of a h = rw h

  -- A state that a log replays to is one that its commands lead to from the start.
  pub durable-Reach : (a : Authority) → IsDurable a → Reach initial a.state
  durable-Reach a h = replay-Reach initial a.state initial a.log here (replays_of a h)

  finish-IsDurable :
      (a : Authority) (failure : Option TxnError) (b : Batch) (cs : List Bytes)
      → IsDurable a
      → b.commands ≡ cs
      → replay blake3 a.state cs ≡ ok b.staged
      → IsDurable (finish blake3 a failure b).1
  unfolding finish
  finish-IsDurable a failure b [] h e r = rw (e, finish) h
  finish-IsDurable a (some error) b (c ∷ cs) h e r = rw (e, finish) h
  finish-IsDurable a none b (c ∷ cs) h e r =
      rw (e, finish)
        (IsDurable-of (record { log = a.log ++ b.commands; state = b.staged })
          (rw (replay-append initial a.log b.commands, replays_of a h, e) r))

  -- Where opening the log of an authority gives the authority back, it does so too after a batch
  -- of operations, whether its append succeeded or failed. The transaction ids are 128-bit numbers
  -- other than zero, and a digest has 32 bytes.
  pub apply_batch-IsDurable :
      (a : Authority) (failure : Option TxnError) (operations : List TimestampOperation)
      → All HasId operations
      → IsDurable a
      → IsDurable (apply_batch blake3 a failure operations).1
  unfolding apply_batch
  apply_batch-IsDurable a failure operations ids h =
      let begun : IsStaged a.state (empty_batch blake3 a.state) = record {
        replays = unfold replay in refl;
        consistent = Reach-IsConsistent initial-IsConsistent (durable-Reach a h);
      } in
      let b = stage_all blake3 (empty_batch blake3 a.state) operations in
      finish-IsDurable a failure b b.commands h refl
        (stage_all-IsStaged a.state (empty_batch blake3 a.state) operations ids begun).replays
