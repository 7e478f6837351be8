-- ===== src/Txn/Authority/Batching.antt =====
-- Batches against single calls, and what a failed append returns.
use dtgproxy.Base.{
  ℕ, ◌+◌, ◌<◌, ◌≡◌, ◌≢◌, refl, sym, ◌∙◌, inl, inr, Option, none, some, List, [], ◌∷◌, ◌++◌, arith,
  Result, ok, err, i64_max, Result-cases, lt→ltb, ◌≤◌,
}
use mathlib.Core.List.{append_assoc, append-nil}
use dtgproxy.Base.Map.{get, nat_key, get-insert_self}
use dtgproxy.Kernel.{TransactionTime}
use dtgproxy.Txn.{TxnError}
use dtgproxy.Txn.Timestamp.{
  TimestampState, TimestampOperation, reserve_commit, TimestampCommand, commit_reserved,
}
use dtgproxy.Txn.Timestamp.Steps.{reserved, pending_at}
use dtgproxy.Base.Bytes.{Bytes}
use dtgproxy.Txn.Authority.Stage.{Effect, stage_operation-Effect, reserve_commit_cases}
use dtgproxy.Txn.Authority.{
  Authority, Batch, stage_operation, persist, stage_one, stage_all, finish, empty_batch,
  apply_batch,
}

append-ne-nil {ℓ} : {A : Type ℓ} (xs : List A) (y : A) → xs ++ y ∷ [] ≢ []
append-ne-nil [] y e = cc
append-ne-nil (x ∷ xs) y e = cc

first_reservation :
    (s : TimestampState) (id : ℕ)
    → s.last_issued < i64_max
    → get id s.reservations ≡ none
    → stage_operation s (reserve_commit id)
      ≡ ok (
        s.last_issued + 1,
        some (commit_reserved id (s.last_issued + 1)),
        reserved s id (s.last_issued + 1),
      )
first_reservation s id lt free = reserve_commit_cases s id (omega arith) ∙ rw (free, lt→ltb _ _ lt)

again_reserved :
    (s : TimestampState) (id t : ℕ)
    → t ≤ i64_max
    → stage_operation (reserved s id t) (reserve_commit id) ≡ ok (t, none, reserved s id t)
again_reserved s id t le =
    reserve_commit_cases (reserved s id t) id le
    ∙ rw (get-insert_self id (pending_at t) s.reservations)

module _ (blake3 : Bytes → Bytes) where
  -- A batch whose loop began with something staged differs only by what was there before.
  record Extends (b c d : Batch) : Type 0 where
    staged : d.staged ≡ c.staged
    commands : d.commands ≡ b.commands ++ c.commands
    results : d.results ≡ b.results ++ c.results

  persist-Extends :
      (b c d : Batch) (t : ℕ) (command : Option TimestampCommand) (s' : TimestampState)
      → Extends b c d
      → Extends b (persist blake3 c t command s') (persist blake3 d t command s')
  unfolding persist
  persist-Extends b c d t none s' h = record {
    staged = refl;
    commands = h.commands;
    results = rw h.results (append_assoc b.results c.results _);
  }
  persist-Extends b c d t (some command) s' h = record {
    staged = refl;
    commands = rw h.commands (append_assoc b.commands c.commands _);
    results = rw h.results (append_assoc b.results c.results _);
  }

  stage_one-Extends :
      (b c d : Batch) (o : TimestampOperation)
      → Extends b c d
      → Extends b (stage_one blake3 c o) (stage_one blake3 d o)
  unfolding stage_one persist
  stage_one-Extends b c d o h = elim (Result-cases (stage_operation c.staged o)) [
    | inr (e, failed) ↦
        rw (h.staged, failed, stage_one)
          (record {
            staged = h.staged;
            commands = h.commands;
            results = rw h.results (append_assoc b.results c.results _);
          })
    | inl ((t, command, s'), done) ↦
        rw (h.staged, done, stage_one) (persist-Extends b c d t command s' h)
  ]

  stage_all-Extends :
      (b c d : Batch) (operations : List TimestampOperation)
      → Extends b c d
      → Extends b (stage_all blake3 c operations) (stage_all blake3 d operations)
  unfolding stage_all
  stage_all-Extends b c d [] h = h
  stage_all-Extends b c d (o ∷ operations) h =
      stage_all-Extends b (stage_one blake3 c o) (stage_one blake3 d o) operations
        (stage_one-Extends b c d o h)

  stage_all-append :
      (b : Batch) (xs ys : List TimestampOperation)
      → stage_all blake3 b (xs ++ ys) ≡ stage_all blake3 (stage_all blake3 b xs) ys
  unfolding stage_all
  stage_all-append b [] ys = refl
  stage_all-append b (x ∷ xs) ys = stage_all-append (stage_one blake3 b x) xs ys

  from_empty : (b : Batch) → Extends b (empty_batch blake3 b.staged) b
  from_empty b = record {
    staged = refl;
    commands = sym (append-nil b.commands);
    results = sym (append-nil b.results);
  }

  -- Where nothing was written nothing was changed.
  abbrev IsQuiet : TimestampState → Batch → Type 0
  IsQuiet s b = b.commands ≡ [] → b.staged ≡ s

  persist-IsQuiet :
      (s : TimestampState) (b : Batch) (t : ℕ) (c : Option TimestampCommand) (s' : TimestampState)
      → IsQuiet s b
      → Effect b.staged c s'
      → IsQuiet s (persist blake3 b t c s')
  unfolding persist
  persist-IsQuiet s b t none s' h e quiet = e ∙ h quiet
  persist-IsQuiet s b t (some c) s' h e quiet = absurd (append-ne-nil b.commands _ quiet)

  stage_one-IsQuiet :
      (s : TimestampState) (b : Batch) (o : TimestampOperation)
      → IsQuiet s b
      → IsQuiet s (stage_one blake3 b o)
  unfolding stage_one
  stage_one-IsQuiet s b o h = elim (Result-cases (stage_operation b.staged o)) [
    | inr (e, failed) ↦ rw (failed, stage_one) h
    | inl ((t, c, s'), done) ↦
        rw (done, stage_one)
          (persist-IsQuiet s b t c s' h (stage_operation-Effect b.staged o t c s' done))
  ]

  stage_all-IsQuiet :
      (s : TimestampState) (b : Batch) (operations : List TimestampOperation)
      → IsQuiet s b
      → IsQuiet s (stage_all blake3 b operations)
  unfolding stage_all
  stage_all-IsQuiet s b [] h = h
  stage_all-IsQuiet s b (o ∷ operations) h =
      stage_all-IsQuiet s (stage_one blake3 b o) operations (stage_one-IsQuiet s b o h)

  abbrev written : Authority → Batch → Authority
  written a b = record { log = a.log ++ b.commands; state = b.staged }

  finish-written :
      (a : Authority) (b : Batch) (cs : List Bytes)
      → b.commands ≡ cs
      → IsQuiet a.state b
      → finish blake3 a none b ≡ (b.results, written a b)
  unfolding finish
  finish-written a b [] e quiet = rw (e, quiet e, append-nil, finish)
  finish-written a b (c ∷ cs) e quiet = rw (e, finish, e)

  staged_batch : Authority → List TimestampOperation → Batch
  staged_batch a operations = stage_all blake3 (empty_batch blake3 a.state) operations

  apply_batch-written :
      (a : Authority) (operations : List TimestampOperation)
      → apply_batch blake3 a none operations
        ≡ ((staged_batch a operations).results, written a (staged_batch a operations))
  unfolding apply_batch staged_batch
  apply_batch-written a operations =
      finish-written a (stage_all blake3 (empty_batch blake3 a.state) operations) _ refl
        (stage_all-IsQuiet a.state (empty_batch blake3 a.state) operations (λ _. refl))

  -- The results and the authority of two batches, one after the other.
  abbrev pub then_batch :
      List (Result TxnError TransactionTime) × Authority
      → List TimestampOperation
      → List (Result TxnError TransactionTime) × Authority
  then_batch (results, a) operations =
      let (more, a') = apply_batch blake3 a none operations in (results ++ more, a')

  -- Where the appends succeed, one batch does what its parts do one after the other, so that how
  -- calls are grouped into batches cannot be seen in the results, the log or the state.
  pub apply_batch-append :
      (a : Authority) (xs ys : List TimestampOperation)
      → apply_batch blake3 a none (xs ++ ys) ≡ then_batch (apply_batch blake3 a none xs) ys
  unfolding staged_batch
  apply_batch-append a xs ys =
      let b = stage_all blake3 (empty_batch blake3 a.state) xs in
      let c = stage_all blake3 (empty_batch blake3 b.staged) ys in
      let d = stage_all blake3 b ys in
      let ext = stage_all-Extends b (empty_batch blake3 b.staged) b ys (from_empty b) in
      rw
        (
          apply_batch-written a (xs ++ ys),
          apply_batch-written a xs,
          apply_batch-written (written a b) ys,
          stage_all-append (empty_batch blake3 a.state) xs ys,
        )
        (rw (ext.staged, ext.commands, ext.results, append_assoc a.log b.commands c.commands))

  -- When the append fails, a second reservation of a transaction in the same batch still returns
  -- the time that the first one would have had, though nothing was written and the authority,
  -- which is unchanged, holds no reservation for it. The transaction has no reservation before,
  -- and a time is left.
  pub failed_append_returns_time :
      (a : Authority) (id : ℕ) (error : TxnError)
      → a.state.last_issued < i64_max
      → get id a.state.reservations ≡ none
      → apply_batch blake3 a (some error) (reserve_commit id ∷ reserve_commit id ∷ [])
        ≡ (err error ∷ ok (a.state.last_issued + 1) ∷ [], a)
  unfolding apply_batch stage_all stage_one finish persist
  failed_append_returns_time a id error lt free = rw (
    stage_one,
    first_reservation a.state id lt free,
    again_reserved a.state id (a.state.last_issued + 1) (omega arith),
    stage_one,
    first_reservation a.state id lt free,
  )
