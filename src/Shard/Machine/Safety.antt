-- ===== src/Shard/Machine/Safety.antt =====
-- What holds of a shard over the commands that it applies
-- (crates/execution/dtg-shard/src/state_machine.rs).
use dtgproxy.Base.{
  ℕ, ◌≤◌, ◌<◌, ◌≡◌, ◌≢◌, ◌⊎◌, refl, sym, ◌∙◌, subst, inl, inr, Bool, false, not, ◌&&◌, List, [],
  ◌∷◌, arith, any, any_same, any_swap, All, All-map, All-any-false, ◌==◌, ==_iff, Option, none,
  some, ok, err, Bool-cases, Result-cases,
}
use dtgproxy.Base.Bytes.{Bytes}
use dtgproxy.Base.Map.{Map, get, insert, remove, nat_key, get-insert, get-remove}
use dtgproxy.Kernel.{overlaps}
use dtgproxy.Storage.Mutation.{LogicalMutation}
use dtgproxy.Storage.Replica.{ReplicaStateStore}
use dtgproxy.Txn.Conflict.{
  extents_overlap, same_identity, EntityIdentity, WriteExtent, interval, complete_identity, vertex,
  edge,
}
use dtgproxy.Shard.{
  ShardError, ApplyRejection, stale_epoch, stale_generation, stale_placement_epoch,
  stale_backend_generation, committed_rejection,
}
use dtgproxy.Shard.Command.{
  ParticipantIntent, ShardCommand, commit_single_shard, commit_transaction, prewrite_intent,
  record_home_decision, finalize_participant, advance_closed_timestamp, install_snapshot, migration,
  header_of,
}
use dtgproxy.Shard.History.{mutations_conflict, clash, graph_write, graph_mutation_time}
use dtgproxy.Shard.Machine.{
  ShardStateMachine, cuts_over, goes_back, is_reached, validate_command, conflicts_active,
  advance_allowed, is_fenced,
}
use dtgproxy.Shard.Machine.Apply.{ApplyOutcome, apply_committed, next_closed}
use dtgproxy.Shard.Machine.Intents.{
  Change, kept, added, removed, Kept, rejects-Kept, apply_committed-Applied,
}

same_identity_comm : (a b : EntityIdentity) → same_identity a b ≡ same_identity b a
same_identity_comm (vertex a) (vertex b) = ground (arith, ==_iff a b, ==_iff b a)
same_identity_comm (edge a) (edge b) = ground (arith, ==_iff a b, ==_iff b a)
same_identity_comm (vertex a) (edge b) = refl
same_identity_comm (edge a) (vertex b) = refl

extents_overlap_comm : (a b : WriteExtent) → extents_overlap a b ≡ extents_overlap b a
unfolding extents_overlap overlaps
extents_overlap_comm (interval a) (interval b) = ground arith
extents_overlap_comm (interval a) complete_identity = refl
extents_overlap_comm complete_identity (interval b) = refl
extents_overlap_comm complete_identity complete_identity = refl

clash_comm : (a b : Option (EntityIdentity × WriteExtent)) → clash a b ≡ clash b a
clash_comm none none = refl
clash_comm none (some b) = refl
clash_comm (some a) none = refl
clash_comm (some a) (some b) =
    ground (arith, same_identity_comm a.0 b.0, extents_overlap_comm a.1 b.1)

mutations_conflict_comm :
    (xs ys : List LogicalMutation) → mutations_conflict xs ys ≡ mutations_conflict ys xs
unfolding mutations_conflict
mutations_conflict_comm xs ys =
    any_swap (λ x y. clash (graph_write x) (graph_write y)) xs ys
    ∙ any_same (λ y. any (λ x. clash (graph_write x) (graph_write y)) xs)
        (λ y. any (λ x. clash (graph_write y) (graph_write x)) xs)
        (λ y.
          any_same (λ x. clash (graph_write x) (graph_write y))
            (λ x. clash (graph_write y) (graph_write x))
            (λ x. clash_comm (graph_write x) (graph_write y)) xs)
        ys

any-get :
    (q : ParticipantIntent → Bool) (intents : Map ℕ ParticipantIntent) (k : ℕ)
    (i : ParticipantIntent)
    → any (λ e. q e.1) intents ≡ false
    → get k intents ≡ some i
    → q i ≡ false
unfolding get
any-get q [] k i h there = cc
any-get q ((j, a) ∷ rest) k i h there = elim (Bool-cases (nat_key.same j k)) [
  | inl hit ↦ let found : a ≡ i = ground arith in subst (λ x. q x ≡ false) found (ground arith)
  | inr miss ↦ any-get q rest k i (ground arith) (ground arith)
]

-- A time that an optional one does not exceed, and one that lies before it.
abbrev pub NotAfter : Option ℕ → ℕ → Type 0
NotAfter none t' = Unit
NotAfter (some t) t' = t ≤ t'

abbrev pub IsBelow : ℕ → Option ℕ → Type 0
IsBelow t' none = Unit
IsBelow t' (some time) = t' < time

unreached-IsBelow : (t' : ℕ) (time : Option ℕ) → is_reached t' time ≡ false → IsBelow t' time
unreached-IsBelow t' none h = tt
unreached-IsBelow t' (some time) h = ground arith

goes_back-NotAfter : (closed : Option ℕ) (t' : ℕ) → goes_back t' closed ≡ false → NotAfter closed t'
goes_back-NotAfter none t' h = tt
goes_back-NotAfter (some t) t' h = ground arith

-- Active intents stand under the ids of their transactions, and those of two transactions have no writes
-- in conflict.
pub record IsDisjoint (intents : Map ℕ ParticipantIntent) : Type 0 where
  pub keyed : (k : ℕ) (i : ParticipantIntent) → get k intents ≡ some i → i.transaction_id ≡ k
  pub apart :
      (j k : ℕ) (a b : ParticipantIntent)
      → get j intents ≡ some a
      → get k intents ≡ some b
      → j ≢ k
      → mutations_conflict a.mutations b.mutations ≡ false

-- A new intent against an old one.
new_apart :
    (intents : Map ℕ ParticipantIntent) (i b : ParticipantIntent) (k : ℕ)
    → IsDisjoint intents
    → conflicts_active i.transaction_id i.mutations intents ≡ false
    → get k intents ≡ some b
    → i.transaction_id ≢ k
    → mutations_conflict i.mutations b.mutations ≡ false
unfolding conflicts_active
new_apart intents i b k d free there other =
    let clear =
      any-get
        (λ x.
          not (x.transaction_id == i.transaction_id) && mutations_conflict i.mutations x.mutations)
        intents k b free there in
    let own = d.keyed k b there in
    let differs : (b.transaction_id == i.transaction_id) ≡ false =
      elim (Bool-cases (b.transaction_id == i.transaction_id)) [
        | inl same ↦ absurd (other (sym ((==_iff b.transaction_id i.transaction_id).0 same) ∙ own))
        | inr apart ↦ apart
      ] in
    ground arith

insert-IsDisjoint :
    (intents : Map ℕ ParticipantIntent) (i : ParticipantIntent)
    → IsDisjoint intents
    → conflicts_active i.transaction_id i.mutations intents ≡ false
    → IsDisjoint (insert i.transaction_id i intents)
insert-IsDisjoint intents i d free = record { keyed = keyed; apart = apart }
  where
    keyed :
        (k : ℕ) (a : ParticipantIntent)
        → get k (insert i.transaction_id i intents) ≡ some a
        → a.transaction_id ≡ k
    keyed k a there =
        let at = get-insert i.transaction_id k i intents in
        elim (Bool-cases (nat_key.same i.transaction_id k)) [
          | inl hit ↦
              let found : i ≡ a = ground arith in
              subst (λ x. x.transaction_id ≡ k) found ((==_iff i.transaction_id k).0 hit)
          | inr miss ↦ d.keyed k a (ground arith)
        ]

    apart :
        (j k : ℕ) (a b : ParticipantIntent)
        → get j (insert i.transaction_id i intents) ≡ some a
        → get k (insert i.transaction_id i intents) ≡ some b
        → j ≢ k
        → mutations_conflict a.mutations b.mutations ≡ false
    apart j k a b there other differs =
        let at_j = get-insert i.transaction_id j i intents in
        let at_k = get-insert i.transaction_id k i intents in
        elim (Bool-cases (nat_key.same i.transaction_id j)) [
          | inl hit_j ↦
              let own : i.transaction_id ≡ j = (==_iff i.transaction_id j).0 hit_j in
              let found : i ≡ a = ground arith in
              elim (Bool-cases (nat_key.same i.transaction_id k)) [
                | inl hit_k ↦ absurd (differs (sym own ∙ (==_iff i.transaction_id k).0 hit_k))
                | inr miss_k ↦
                    subst (λ x. mutations_conflict x.mutations b.mutations ≡ false) found
                      (new_apart intents i b k d free (ground arith) (λ e. differs (sym own ∙ e)))
              ]
          | inr miss_j ↦ elim (Bool-cases (nat_key.same i.transaction_id k)) [
            | inl hit_k ↦
                let own : i.transaction_id ≡ k = (==_iff i.transaction_id k).0 hit_k in
                let found : i ≡ b = ground arith in
                subst (λ x. mutations_conflict a.mutations x.mutations ≡ false) found
                  (mutations_conflict_comm a.mutations i.mutations
                    ∙ new_apart intents i a j d free (ground arith) (λ e. differs (sym e ∙ own)))
            | inr miss_k ↦ d.apart j k a b (ground arith) (ground arith) differs
          ]
        ]

remove-IsDisjoint :
    (intents : Map ℕ ParticipantIntent) (id : ℕ)
    → IsDisjoint intents
    → IsDisjoint (remove id intents)
remove-IsDisjoint intents id d = record {
  keyed = λ k a there. let at = get-remove id k intents in d.keyed k a (ground arith);
  apart = λ j k a b there other differs.
      let at_j = get-remove id j intents in
      let at_k = get-remove id k intents in d.apart j k a b (ground arith) (ground arith) differs;
}

module _ {S View : Type 0} (store : ReplicaStateStore S View)
    (digest_mutations : List LogicalMutation → ℕ) (blake3 : Bytes → ℕ) where
  Change-IsDisjoint :
      (intents intents' : Map ℕ ParticipantIntent)
      → Change store digest_mutations blake3 intents intents'
      → IsDisjoint intents
      → IsDisjoint intents'
  Change-IsDisjoint intents intents' kept d = d
  Change-IsDisjoint intents intents' (added i free fresh) d = insert-IsDisjoint intents i d free
  Change-IsDisjoint intents intents' (removed id) d = remove-IsDisjoint intents id d

  -- A command that is applied or rejected, and does not cut over to another generation, keeps the active
  -- intents of two transactions free of writes in conflict, and each under the id of its transaction.
  pub apply_committed-IsDisjoint :
      (m : ShardStateMachine S) (term index : ℕ) (c : ShardCommand) (o : ApplyOutcome)
      (m' : ShardStateMachine S)
      → IsDisjoint m.active_intents
      → cuts_over m.binding c ≡ false
      → apply_committed store digest_mutations blake3 m term index c ≡ ok (o, m')
      → IsDisjoint m'.active_intents
  apply_committed-IsDisjoint m term index c o m' d stays went =
      let a =
        apply_committed-Applied store digest_mutations blake3 m term index c o m' stays went in
      Change-IsDisjoint m.active_intents m'.active_intents a.change d

  stale_step :
      (m : ShardStateMachine S) (term index : ℕ) (c : ShardCommand) (o : ApplyOutcome)
      (m' : ShardStateMachine S) (e : ShardError) (r : ApplyRejection)
      → validate_command store blake3 m c ≡ err e
      → committed_rejection e ≡ some r
      → apply_committed store digest_mutations blake3 m term index c ≡ ok (o, m')
      → Kept store digest_mutations blake3 m m' × (o.rejection ≡ some r)
  unfolding apply_committed
  stale_step m term index c o m' e r refused is went =
      let (r', stands_for, (k, was)) =
        rejects-Kept store digest_mutations blake3 m term index (header_of c).command_id e o m'
          (rw (refused, apply_committed) at went) in
      (k, was ∙ (sym stands_for ∙ is))

  -- A command of another placement epoch or of another generation that does not cut over is rejected as
  -- stale, where the store takes the batch that says so, and changes nothing but the store and the
  -- applied index.
  pub stale_command_fenced :
      (m : ShardStateMachine S) (term index : ℕ) (c : ShardCommand) (o : ApplyOutcome)
      (m' : ShardStateMachine S)
      → cuts_over m.binding c ≡ false
      → ((header_of c).placement_epoch ≢ m.binding.placement_epoch)
        ⊎ ((header_of c).backend_generation ≢ m.binding.backend_generation)
      → apply_committed store digest_mutations blake3 m term index c ≡ ok (o, m')
      → Kept store digest_mutations blake3 m m'
        × ((o.rejection ≡ some stale_epoch) ⊎ (o.rejection ≡ some stale_generation))
  unfolding validate_command committed_rejection
  stale_command_fenced m term index c o m' stays other went =
      elim (Bool-cases ((header_of c).placement_epoch == m.binding.placement_epoch)) [
        | inl same ↦
            elim (Bool-cases ((header_of c).backend_generation == m.binding.backend_generation)) [
              | inl same_generation ↦ elim other [
                | inl moved ↦ absurd (
                    moved ((==_iff (header_of c).placement_epoch m.binding.placement_epoch).0 same))
                | inr moved ↦ absurd (
                    moved (
                      (==_iff (header_of c).backend_generation m.binding.backend_generation).0
                        same_generation))
              ]
              | inr differs ↦
                  let refused : validate_command store blake3 m c
                      ≡ err (
                          stale_backend_generation m.binding.backend_generation
                            (header_of c).backend_generation) =
                    rw (stays, same, differs) refl in
                  let (k, was) =
                    stale_step m term index c o m' _ stale_generation refused refl went in
                  (k, inr was)
            ]
        | inr differs ↦
            let refused : validate_command store blake3 m c
                ≡ err (
                    stale_placement_epoch m.binding.placement_epoch (header_of c).placement_epoch) =
              rw (stays, differs) refl in
            let (k, was) = stale_step m term index c o m' _ stale_epoch refused refl went in
            (k, inl was)
      ]

  valid_advance :
      (m : ShardStateMachine S) (c : ShardCommand)
      → validate_command store blake3 m c ≡ ok tt
      → advance_allowed m.closed_timestamp m.active_intents c ≡ ok tt
  unfolding validate_command
  valid_advance m c valid =
      elim (Result-cases (advance_allowed m.closed_timestamp m.active_intents c)) [
        | inl (u, allowed) ↦ allowed
        | inr (e, refused) ↦ let no_way : ⊥ = ground arith in absurd no_way
      ]

  fenced_out :
      (t' : ℕ) (intents : Map ℕ ParticipantIntent)
      → is_fenced t' intents ≡ false
      → All (λ e. All (λ w. IsBelow t' (graph_mutation_time w)) e.1.mutations) intents
  unfolding is_fenced
  fenced_out t' intents free =
      All-map (λ e. any (λ w. is_reached t' (graph_mutation_time w)) e.1.mutations ≡ false)
        (λ e. All (λ w. IsBelow t' (graph_mutation_time w)) e.1.mutations)
        (λ e quiet.
          All-map (λ w. is_reached t' (graph_mutation_time w) ≡ false)
            (λ w. IsBelow t' (graph_mutation_time w))
            (λ w. unreached-IsBelow t' (graph_mutation_time w)) e.1.mutations
            (All-any-false (λ w. is_reached t' (graph_mutation_time w)) e.1.mutations quiet))
        intents
        (All-any-false (λ e. any (λ w. is_reached t' (graph_mutation_time w)) e.1.mutations) intents
          free)

  closes_later :
      (closed : Option ℕ) (intents : Map ℕ ParticipantIntent) (c : ShardCommand)
      → advance_allowed closed intents c ≡ ok tt
      → (next_closed closed c ≡ closed)
        ⊎ ((t' : ℕ) × (next_closed closed c ≡ some t')
            × NotAfter closed t'
            × All (λ e. All (λ w. IsBelow t' (graph_mutation_time w)) e.1.mutations) intents)
  unfolding advance_allowed
  closes_later closed intents (advance_closed_timestamp c) allowed = inr (
    c.closed_timestamp,
    refl,
    goes_back-NotAfter closed c.closed_timestamp (ground arith),
    fenced_out c.closed_timestamp intents (ground arith),
  )
  closes_later closed intents (commit_single_shard c) allowed = inl refl
  closes_later closed intents (commit_transaction c) allowed = inl refl
  closes_later closed intents (prewrite_intent c) allowed = inl refl
  closes_later closed intents (record_home_decision c) allowed = inl refl
  closes_later closed intents (finalize_participant c) allowed = inl refl
  closes_later closed intents (install_snapshot c) allowed = inl refl
  closes_later closed intents (migration c) allowed = inl refl

  -- A command that is applied or rejected, and does not cut over, leaves the closed timestamp as it was,
  -- also where there is none yet, or moves it to a time at or after the one that it had, which lies
  -- before every mutation of the intents that are active at the command.
  pub closed_timestamp_advances :
      (m : ShardStateMachine S) (term index : ℕ) (c : ShardCommand) (o : ApplyOutcome)
      (m' : ShardStateMachine S)
      → cuts_over m.binding c ≡ false
      → apply_committed store digest_mutations blake3 m term index c ≡ ok (o, m')
      → (m'.closed_timestamp ≡ m.closed_timestamp)
        ⊎ ((t' : ℕ) × (m'.closed_timestamp ≡ some t')
            × NotAfter m.closed_timestamp t'
            × All
                (λ e. All (λ w. IsBelow t' (graph_mutation_time w)) e.1.mutations)
                m.active_intents)
  closed_timestamp_advances m term index c o m' stays went =
      let a =
        apply_committed-Applied store digest_mutations blake3 m term index c o m' stays went in
      elim a.closes [
        | inl same ↦ inl (sym same)
        | inr (passed, moves) ↦
            elim (closes_later m.closed_timestamp m.active_intents c
              (valid_advance m c (a.accepted passed))) [
                | inl same ↦ inl (sym moves ∙ same)
                | inr (t', is, later, free) ↦ inr (t', sym moves ∙ is, later, free)
              ]
      ]
