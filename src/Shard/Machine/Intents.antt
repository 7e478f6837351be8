-- ===== src/Shard/Machine/Intents.antt =====
-- What applying a command does to the active intents and to the closed timestamp of a shard.
use dtgproxy.Base.{
  ℕ, ◌≡◌, ◌⊎◌, refl, sym, ap, ◌∙◌, subst, inl, inr, false, not, ◌&&◌, List, [], ◌∷◌, ◌++◌, arith,
  length, ltb, if◌then◌else◌, ◌==◌, Option, none, some, Result, ok, >>=-eq-ok, Bool-cases,
  Result-cases, Option-cases,
}
use dtgproxy.Base.Bytes.{Bytes}
use dtgproxy.Base.Map.{Map, get, insert, remove, nat_key}
use dtgproxy.Storage.Mutation.{LogicalMutation, put_replica_metadata}
use dtgproxy.Storage.Replica.{ReplicaStateStore}
use dtgproxy.Shard.{ShardError, ApplyRejection, committed_rejection}
use dtgproxy.Shard.Command.{
  max_intent_items, ParticipantIntent, FinalizeParticipant, ShardCommand, commit_single_shard,
  commit_transaction, prewrite_intent, record_home_decision, finalize_participant,
  advance_closed_timestamp, install_snapshot, migration, header_of,
}
use dtgproxy.Shard.Codec.{refuse}
use dtgproxy.Shard.Durable.{corrupt_if}
use dtgproxy.Shard.History.{mutations_at_index}
use dtgproxy.Shard.Machine.{
  ShardStateMachine, IntentTransition, replay_intent, prepare_intent, finalize_intent, cuts_over,
  validate_command, accept, accept_prewrite, accept_finalize, may_prewrite, may_finalize,
  is_present, durable_transaction_state, single_shard_transaction_is_durable,
  home_decision_is_durable, conflicts_active, validate_write_conflicts,
}
use dtgproxy.Shard.Machine.Apply.{
  ApplyOutcome, after_transition, next_closed, submit, rejection_metadata, rejects, own_mutations,
  validate_historical_transaction_batch, accepted_or_rejected, replays_old, cutover_or,
  apply_rejected, extra_mutations, apply_accepted, replay_old_transaction_command, apply_valid,
  apply_committed,
}

module _ {S View : Type 0} (store : ReplicaStateStore S View)
    (digest_mutations : List LogicalMutation → ℕ) (blake3 : Bytes → ℕ) where
  -- A step that changes only the store and the applied index.
  pub record Kept (m m' : ShardStateMachine S) : Type 0 where
    pub same_binding : m.binding ≡ m'.binding
    pub same_closed : m.closed_timestamp ≡ m'.closed_timestamp
    pub same_intents : m.active_intents ≡ m'.active_intents
    pub same_stores : m.migration_stores ≡ m'.migration_stores

  pub apply_rejected-Kept :
      (m : ShardStateMachine S) (term index command : ℕ) (r : ApplyRejection) (o : ApplyOutcome)
      (m' : ShardStateMachine S)
      → apply_rejected store digest_mutations blake3 m term index command r ≡ ok (o, m')
      → Kept m m' × (o.rejection ≡ some r)
  unfolding apply_rejected
  apply_rejected-Kept m term index command r o m' went =
      let (metadata, made, went1) =
        >>=-eq-ok (rejection_metadata store digest_mutations blake3 command r) _ went in
      let (done, put, went2) =
        >>=-eq-ok
          (submit store digest_mutations blake3 m.state_store m.binding term index command
            (put_replica_metadata metadata ∷ []))
          _ went1 in
      (record { same_binding = cc; same_closed = cc; same_intents = cc; same_stores = cc }, cc)

  -- Where a step is a rejection, it is one that the error stands for.
  pub rejects-Kept :
      (m : ShardStateMachine S) (term index command : ℕ) (e : ShardError) (o : ApplyOutcome)
      (m' : ShardStateMachine S)
      → rejects store digest_mutations blake3 m term index command e ≡ ok (o, m')
      → (r : ApplyRejection) × (committed_rejection e ≡ some r)
        × (Kept m m' × (o.rejection ≡ some r))
  unfolding rejects
  rejects-Kept m term index command e o m' went = elim (Option-cases (committed_rejection e)) [
    | inl nothing ↦ let no_way : ⊥ = ground arith in absurd no_way
    | inr (r, is) ↦
        let same : apply_rejected store digest_mutations blake3 m term index command r
            ≡ ok (o, m') =
          ground arith in
        (r, is, apply_rejected-Kept m term index command r o m' same)
  ]

  -- What becomes of the active intents: nothing, one more that conflicts with none, or one less.
  pub data Change (intents : Map ℕ ParticipantIntent) : Map ℕ ParticipantIntent → Type 0 where
    kept : Change intents intents
    added :
        (i : ParticipantIntent)
        → conflicts_active i.transaction_id i.mutations intents ≡ false
        → get i.transaction_id intents ≡ none
        → Change intents (insert i.transaction_id i intents)
    removed : (id : ℕ) → Change intents (remove id intents)

  prewrite_conflicts :
      (m : ShardStateMachine S) (id start index : ℕ) (candidate : List LogicalMutation)
      {u : Unit {0}}
      → validate_write_conflicts store blake3 m id start index candidate ≡ ok u
      → conflicts_active id candidate m.active_intents ≡ false
  unfolding validate_write_conflicts
  prewrite_conflicts m id start index candidate went = ground arith

  may_prewrite-lem :
      (m : ShardStateMachine S) (i : ParticipantIntent) {u : Unit {0}}
      → may_prewrite store blake3 m i ≡ ok u
      → conflicts_active i.transaction_id i.mutations m.active_intents ≡ false
  unfolding may_prewrite
  may_prewrite-lem m i went =
      let (u1, small, went1) =
        >>=-eq-ok
          (refuse (length m.active_intents == max_intent_items)
            "active transaction intent count exceeds the supported bound")
          _ went in
      let (state, found, went2) =
        >>=-eq-ok (durable_transaction_state store blake3 m i.transaction_id) _ went1 in
      let (u2, fresh, went3) =
        >>=-eq-ok
          (corrupt_if (is_present store blake3 state)
            "new prewrite contradicts existing durable transaction state")
          _ went2 in
      prewrite_conflicts m i.transaction_id i.start_time i.snapshot_applied_index i.mutations went3

  accept_prewrite-Change :
      (m : ShardStateMachine S) (i : ParticipantIntent) (found : Option ParticipantIntent)
      (t : IntentTransition)
      → get i.transaction_id m.active_intents ≡ found
      → accept_prewrite store blake3 m i found ≡ ok t
      → Change m.active_intents (after_transition m.active_intents t)
  unfolding after_transition
  accept_prewrite-Change m i (some existing) t there went =
      let same : replay_intent ≡ t = ground arith in
      subst (λ x. Change m.active_intents (after_transition m.active_intents x)) same kept
  accept_prewrite-Change m i none t missing went =
      let (u, may, went1) = >>=-eq-ok (may_prewrite store blake3 m i) _ went in
      let same : prepare_intent i ≡ t = cc in
      subst (λ x. Change m.active_intents (after_transition m.active_intents x)) same
        (added i (may_prewrite-lem m i may) missing)

  accept_finalize-Change :
      (m : ShardStateMachine S) (c : FinalizeParticipant) (found : Option ParticipantIntent)
      (t : IntentTransition)
      → accept_finalize store blake3 m c found ≡ ok t
      → Change m.active_intents (after_transition m.active_intents t)
  unfolding after_transition
  accept_finalize-Change m c (some i) t went =
      let (u, may, went1) = >>=-eq-ok (may_finalize store blake3 c i) _ went in
      let same : finalize_intent c.terminal.id i ≡ t = cc in
      subst (λ x. Change m.active_intents (after_transition m.active_intents x)) same
        (removed c.terminal.id)
  accept_finalize-Change m c none t went =
      let (state, found, went1) =
        >>=-eq-ok (durable_transaction_state store blake3 m c.terminal.id) _ went in
      let same : replay_intent ≡ t = ground arith in
      subst (λ x. Change m.active_intents (after_transition m.active_intents x)) same kept

  unmoved :
      {intents intents' : Map ℕ ParticipantIntent} → intents' ≡ intents → Change intents intents'
  unmoved {intents} still = subst (λ x. Change intents x) (sym still) kept

  pub accept-Change :
      (m : ShardStateMachine S) (c : ShardCommand) (t : IntentTransition)
      → accept store blake3 m c ≡ ok t
      → Change m.active_intents (after_transition m.active_intents t)
  unfolding accept after_transition
  accept-Change m (commit_transaction c) t went =
      let (durable, is, went1) =
        >>=-eq-ok (single_shard_transaction_is_durable store blake3 m c) _ went in
      unmoved (ground arith)
  accept-Change m (record_home_decision c) t went =
      let (durable, is, went1) = >>=-eq-ok (home_decision_is_durable store blake3 m c) _ went in
      unmoved (ground arith)
  accept-Change m (prewrite_intent c) t went = accept_prewrite-Change m c.intent _ t refl went
  accept-Change m (finalize_participant c) t went = accept_finalize-Change m c _ t went
  accept-Change m (commit_single_shard c) t went = unmoved (ground arith)
  accept-Change m (advance_closed_timestamp c) t went = unmoved (ground arith)
  accept-Change m (install_snapshot c) t went = unmoved (ground arith)
  accept-Change m (migration c) t went = unmoved (ground arith)

  -- What a step does that applies a command or rejects it, where the command does not cut over.
  pub record Applied (m : ShardStateMachine S) (c : ShardCommand) (o : ApplyOutcome)
      (m' : ShardStateMachine S) : Type 0 where
    pub same_binding : m.binding ≡ m'.binding
    pub change : Change m.active_intents m'.active_intents
    pub closes :
        (m.closed_timestamp ≡ m'.closed_timestamp)
        ⊎ ((o.rejection ≡ none) × (next_closed m.closed_timestamp c ≡ m'.closed_timestamp))
    pub accepted : o.rejection ≡ none → validate_command store blake3 m c ≡ ok tt
    pub refused : (r : ApplyRejection) → o.rejection ≡ some r → Kept m m'

  Kept-Applied :
      (m : ShardStateMachine S) (c : ShardCommand) (o : ApplyOutcome) (m' : ShardStateMachine S)
      → Kept m m'
      → (o.rejection ≡ none → validate_command store blake3 m c ≡ ok tt)
      → Applied m c o m'
  Kept-Applied m c o m' k valid = record {
    same_binding = k.same_binding;
    change = unmoved (sym k.same_intents);
    closes = inl k.same_closed;
    accepted = valid;
    refused = λ r is. k;
  }

  rejects-Applied :
      (m : ShardStateMachine S) (term index command : ℕ) (e : ShardError) (c : ShardCommand)
      (o : ApplyOutcome) (m' : ShardStateMachine S)
      → rejects store digest_mutations blake3 m term index command e ≡ ok (o, m')
      → Applied m c o m'
  rejects-Applied m term index command e c o m' went =
      let (r, stands_for, (k, is)) = rejects-Kept m term index command e o m' went in
      Kept-Applied m c o m' k (λ nothing. let no_way : ⊥ = cc in absurd no_way)

  apply_accepted-Applied :
      (m : ShardStateMachine S) (term index : ℕ) (c : ShardCommand) (t : IntentTransition)
      (o : ApplyOutcome) (m' : ShardStateMachine S)
      → validate_command store blake3 m c ≡ ok tt
      → Change m.active_intents (after_transition m.active_intents t)
      → apply_accepted store digest_mutations blake3 m term index c t ≡ ok (o, m')
      → Applied m c o m'
  unfolding apply_accepted
  apply_accepted-Applied m term index c t o m' valid change went =
      let next = after_transition m.active_intents t in
      let (mutations, own, went1) =
        >>=-eq-ok (own_mutations store digest_mutations blake3 m index c t) _ went in
      let (extra, more, went2) =
        >>=-eq-ok (extra_mutations store digest_mutations blake3 m c t next) _ went1 in
      let (done, put, went3) =
        >>=-eq-ok
          (submit store digest_mutations blake3 m.state_store m.binding term index
            (header_of c).command_id (mutations ++ extra))
          _ went2 in
      let binding : m.binding ≡ m'.binding = cc in
      let closed : next_closed m.closed_timestamp c ≡ m'.closed_timestamp = cc in
      let unrejected : none ≡ o.rejection = cc in
      let moved : (if done.0.replayed then m.active_intents else next) ≡ m'.active_intents = cc in
      record {
        same_binding = binding;
        change = elim (Bool-cases done.0.replayed) [
          | inl again ↦ unmoved (sym moved ∙ rw again refl)
          | inr fresh ↦
              let same : next ≡ m'.active_intents = sym (rw fresh refl) ∙ moved in
              subst (λ x. Change m.active_intents x) same change
        ];
        closes = inr (sym unrejected, closed);
        accepted = λ _. valid;
        refused = λ r is. let no_way : ⊥ = cc in absurd no_way;
      }

  abbrev step :
      ApplyOutcome → ShardStateMachine S → Result ShardError (ApplyOutcome × ShardStateMachine S)
  step o m = ok (o, m)

  stepped :
      {o o' : ApplyOutcome} {m m' : ShardStateMachine S}
      → step o m ≡ ok (o', m')
      → (o ≡ o') × (m ≡ m')
  stepped went = (cc, cc)

  replay-Applied :
      (m : ShardStateMachine S) (term index : ℕ) (c : ShardCommand) (o : ApplyOutcome)
      (m' : ShardStateMachine S)
      → validate_command store blake3 m c ≡ ok tt
      → replay_old_transaction_command store digest_mutations blake3 m term index c ≡ ok (o, m')
      → Applied m c o m'
  unfolding replay_old_transaction_command
  replay-Applied m term index c o m' valid went =
      let (found, old, went1) =
        >>=-eq-ok (mutations_at_index store m.binding m.state_store m.applied_index index) _ went in
      let (u, holds, went2) =
        >>=-eq-ok (validate_historical_transaction_batch store digest_mutations blake3 c found) _
          went1 in
      let (done, put, went3) =
        >>=-eq-ok
          (submit store digest_mutations blake3 m.state_store m.binding term index
            (header_of c).command_id found)
          _ went2 in
      let (v, again, went4) =
        >>=-eq-ok
          (corrupt_if (not done.0.replayed)
            "old-index transaction replay unexpectedly applied a new batch")
          _ went3 in
      let (out, same) = stepped went4 in
      Kept-Applied m c o m'
        (record {
          same_binding = ap (λ x. x.binding) same;
          same_closed = ap (λ x. x.closed_timestamp) same;
          same_intents = ap (λ x. x.active_intents) same;
          same_stores = ap (λ x. x.migration_stores) same;
        })
        (λ _. valid)

  accepted_or_rejected-Applied :
      (m : ShardStateMachine S) (term index : ℕ) (c : ShardCommand) (o : ApplyOutcome)
      (m' : ShardStateMachine S)
      → validate_command store blake3 m c ≡ ok tt
      → accepted_or_rejected store digest_mutations blake3 m term index c (accept store blake3 m c)
        ≡ ok (o, m')
      → Applied m c o m'
  unfolding accepted_or_rejected
  accepted_or_rejected-Applied m term index c o m' valid went =
      elim (Result-cases (accept store blake3 m c)) [
        | inl (t, is) ↦
            let step_is : apply_accepted store digest_mutations blake3 m term index c t
                ≡ ok (o, m') =
              subst
                (λ x.
                  accepted_or_rejected store digest_mutations blake3 m term index c x ≡ ok (o, m'))
                is went in
            apply_accepted-Applied m term index c t o m' valid (accept-Change m c t is) step_is
        | inr (e, is) ↦
            let step_is : rejects store digest_mutations blake3 m term index
                  (header_of c).command_id e
                ≡ ok (o, m') =
              subst
                (λ x.
                  accepted_or_rejected store digest_mutations blake3 m term index c x ≡ ok (o, m'))
                is went in
            rejects-Applied m term index (header_of c).command_id e c o m' step_is
      ]

  cutover_or_lem :
      (m : ShardStateMachine S) (term index : ℕ) (c : ShardCommand)
      (other : Result ShardError (ApplyOutcome × ShardStateMachine S))
      → cuts_over m.binding c ≡ false
      → cutover_or store digest_mutations blake3 m term index c other ≡ other
  cutover_or_lem m term index (migration c) other stays = rw stays refl
  cutover_or_lem m term index (commit_single_shard c) other stays = refl
  cutover_or_lem m term index (commit_transaction c) other stays = refl
  cutover_or_lem m term index (prewrite_intent c) other stays = refl
  cutover_or_lem m term index (record_home_decision c) other stays = refl
  cutover_or_lem m term index (finalize_participant c) other stays = refl
  cutover_or_lem m term index (advance_closed_timestamp c) other stays = refl
  cutover_or_lem m term index (install_snapshot c) other stays = refl

  apply_valid-Applied :
      (m : ShardStateMachine S) (term index : ℕ) (c : ShardCommand) (o : ApplyOutcome)
      (m' : ShardStateMachine S)
      → cuts_over m.binding c ≡ false
      → validate_command store blake3 m c ≡ ok tt
      → apply_valid store digest_mutations blake3 m term index c ≡ ok (o, m')
      → Applied m c o m'
  unfolding apply_valid
  apply_valid-Applied m term index c o m' stays valid went =
      let on : (if ltb index m.applied_index && replays_old c
            then replay_old_transaction_command store digest_mutations blake3 m term index c
            else accepted_or_rejected store digest_mutations blake3 m term index c
                (accept store blake3 m c))
          ≡ ok (o, m') =
        sym (cutover_or_lem m term index c _ stays) ∙ went in
      elim (Bool-cases (ltb index m.applied_index && replays_old c)) [
        | inl old ↦ replay-Applied m term index c o m' valid (sym (rw old refl) ∙ on)
        | inr new ↦ accepted_or_rejected-Applied m term index c o m' valid (sym (rw new refl) ∙ on)
      ]

  pub apply_committed-Applied :
      (m : ShardStateMachine S) (term index : ℕ) (c : ShardCommand) (o : ApplyOutcome)
      (m' : ShardStateMachine S)
      → cuts_over m.binding c ≡ false
      → apply_committed store digest_mutations blake3 m term index c ≡ ok (o, m')
      → Applied m c o m'
  unfolding apply_committed
  apply_committed-Applied m term index c o m' stays went =
      elim (Result-cases (validate_command store blake3 m c)) [
        | inl (u, valid) ↦
            apply_valid-Applied m term index c o m' stays valid
              (rw (valid, apply_committed) at went)
        | inr (e, refused) ↦
            rejects-Applied m term index (header_of c).command_id e c o m'
              (rw (refused, apply_committed) at went)
      ]
