-- ===== src/Shard/Machine/Group.antt =====
-- What the commands have in common that a shard applies at once
-- (crates/execution/dtg-shard/src/state_machine.rs).
use dtgproxy.Base.{
  ℕ, zero, suc, ◌+◌, ◌≡◌, ◌≤◌, ◌<◌, refl, ap, ◌∙◌, subst, inl, inr, Bool, true, false, ◌||◌, List,
  [], ◌∷◌, ◌++◌, arith, length, any, any_pair, any_same, any_none, any-All-false, any-append, All,
  All-map, ==_iff, Option, none, some, Result, ok, >>=-eq-ok, Bool-cases, Option-cases, u64_max,
  ◌>>=◌,
}
use dtgproxy.Base.Bytes.{Bytes}
use dtgproxy.Storage.Mutation.{LogicalMutation, ReplicaMetadata, put_replica_metadata}
use dtgproxy.Storage.Replica.{CommittedShardBatch, ReplicaStateStore, new_batch}
use dtgproxy.Txn.Conflict.{EntityIdentity, WriteExtent}
use dtgproxy.Shard.{ShardError}
use dtgproxy.Shard.Command.{CommitSingleShardTransaction}
use dtgproxy.Shard.Durable.{single_shard_transaction_metadata}
use dtgproxy.Shard.History.{clash, graph_write, mutations_conflict}
use dtgproxy.Shard.Machine.{ShardStateMachine}
use dtgproxy.Shard.Machine.Batch.{
  Entry, saturating_next, transaction_of, put_first, may_join, batch_of, join_batch,
}

conflict-append :
    (xs ys zs : List LogicalMutation)
    → mutations_conflict (xs ++ ys) zs ≡ (mutations_conflict xs zs || mutations_conflict ys zs)
unfolding mutations_conflict
conflict-append xs ys zs =
    any-append (λ l. any (λ r. clash (graph_write l) (graph_write r)) zs) xs ys

clash-none : (a : Option (EntityIdentity × WriteExtent)) → clash a none ≡ false
clash-none none = refl
clash-none (some a) = refl

-- Metadata is in conflict with nothing.
conflict_metadata :
    (xs ys : List LogicalMutation) (d : ReplicaMetadata)
    → mutations_conflict (xs ++ (put_replica_metadata d ∷ [])) ys ≡ mutations_conflict xs ys
unfolding mutations_conflict
conflict_metadata xs ys d =
    let both =
      any-append (λ l. any (λ r. clash (graph_write l) (graph_write r)) ys) xs
        (put_replica_metadata d ∷ []) in
    let free = any_none ys in ground arith

metadata_conflict :
    (xs ys : List LogicalMutation) (d : ReplicaMetadata)
    → mutations_conflict xs (ys ++ (put_replica_metadata d ∷ [])) ≡ mutations_conflict xs ys
unfolding mutations_conflict
metadata_conflict xs ys d =
    any_same
      (λ l. any (λ r. clash (graph_write l) (graph_write r)) (ys ++ (put_replica_metadata d ∷ [])))
      (λ l. any (λ r. clash (graph_write l) (graph_write r)) ys)
      (λ l.
        let both =
          any-append (λ r. clash (graph_write l) (graph_write r)) ys
            (put_replica_metadata d ∷ []) in
        let free = clash-none (graph_write l) in ground arith)
      xs

put_first_lem :
    (b : CommittedShardBatch) (later : Option (List CommittedShardBatch))
    (batches : List CommittedShardBatch)
    → put_first b later ≡ some batches
    → (bs : List CommittedShardBatch) × (later ≡ some bs) × (b ∷ bs ≡ batches)
put_first_lem b none batches h = cc
put_first_lem b (some bs) batches h = (bs, refl, cc)

-- n numbers from the first on.
abbrev pub numbers : ℕ → ℕ → List ℕ
numbers first zero = []
numbers first (suc n) = first ∷ numbers (first + 1) n

abbrev pub indices : List CommittedShardBatch → List ℕ
indices [] = []
indices (b ∷ bs) = b.raft_index ∷ indices bs

abbrev pub batches_conflict : CommittedShardBatch → CommittedShardBatch → Bool
batches_conflict a b = mutations_conflict a.mutations b.mutations

module _ {S View : Type 0} (store : ReplicaStateStore S View)
    (digest_mutations : List LogicalMutation → ℕ) (blake3 : Bytes → ℕ) where
  batch_of_lem :
      (m : ShardStateMachine S) (e : Entry) (c : CommitSingleShardTransaction)
      (b : CommittedShardBatch)
      → batch_of store digest_mutations blake3 m e c ≡ ok b
      → (b.raft_index ≡ e.entry_index)
        × ((d : ReplicaMetadata) × (b.mutations ≡ c.mutations ++ (put_replica_metadata d ∷ [])))
  unfolding batch_of new_batch
  batch_of_lem m e c b went =
      let (d, made, went1) = >>=-eq-ok (single_shard_transaction_metadata c) _ went in
      (ground arith, (d, ground arith))

  record Joined (first : ℕ) (prior : List LogicalMutation) (n : ℕ)
      (batches : List CommittedShardBatch) : Type 0 where
    numbered : indices batches ≡ numbers first n
    clear : All (λ b. mutations_conflict prior b.mutations ≡ false) batches
    pairwise : any_pair batches_conflict batches ≡ false

  Joined-one :
      (first : ℕ) (prior : List LogicalMutation) (n : ℕ) (b : CommittedShardBatch)
      (ms : List LogicalMutation) (d : ReplicaMetadata) (bs : List CommittedShardBatch)
      → b.raft_index ≡ first
      → b.mutations ≡ ms ++ (put_replica_metadata d ∷ [])
      → mutations_conflict prior ms ≡ false
      → Joined (first + 1) (prior ++ ms) n bs
      → Joined first prior (suc n) (b ∷ bs)
  Joined-one first prior n b ms d bs at has free later = record {
    numbered = cc;
    clear = (
      ap (mutations_conflict prior) has ∙ metadata_conflict prior ms d ∙ free,
      All-map (λ x. mutations_conflict (prior ++ ms) x.mutations ≡ false)
          (λ x. mutations_conflict prior x.mutations ≡ false)
          (λ x h. let both = conflict-append prior ms x.mutations in ground arith) bs later.clear,
    );
    pairwise =
        let own = any-All-false (batches_conflict b) bs (
          All-map (λ x. mutations_conflict (prior ++ ms) x.mutations ≡ false)
            (λ x. mutations_conflict b.mutations x.mutations ≡ false)
            (λ x h.
              let both = conflict-append prior ms x.mutations in
              let own = conflict_metadata ms x.mutations d in
              ap (λ k. mutations_conflict k x.mutations) has ∙ own ∙ ground arith)
            bs later.clear) in
        let rest = later.pairwise in ground arith;
  }

  may_join_lem :
      (m : ShardStateMachine S) (e : Entry) (c : CommitSingleShardTransaction) (expected : ℕ)
      (prior : List LogicalMutation) (ids : List ℕ)
      → may_join store digest_mutations blake3 m e c expected prior ids ≡ true
      → (e.entry_index ≡ expected) × (mutations_conflict prior c.mutations ≡ false)
  unfolding may_join
  may_join_lem m e c expected prior ids may =
      ((==_iff e.entry_index expected).0 (ground arith), ground arith)

  abbrev joined :
      ShardStateMachine S
      → Entry
      → CommitSingleShardTransaction
      → ℕ
      → List LogicalMutation
      → List ℕ
      → List Entry
      → Result ShardError (Option (List CommittedShardBatch))
  joined m e c first prior ids es = batch_of store digest_mutations blake3 m e c >>= (λ b.
      join_batch store digest_mutations blake3 m (saturating_next first) (prior ++ c.mutations)
        (c.transaction_id ∷ ids) es
      >>= (λ bs. ok (put_first b bs)))

  join_batch-Joined :
      (m : ShardStateMachine S) (first : ℕ) (prior : List LogicalMutation) (ids : List ℕ)
      (es : List Entry) (batches : List CommittedShardBatch)
      → join_batch store digest_mutations blake3 m first prior ids es ≡ ok (some batches)
      → first + length es ≤ u64_max
      → Joined first prior (length es) batches
  unfolding join_batch
  join_batch-Joined m first prior ids [] batches went fits =
      let none_left : [] ≡ batches = cc in
      subst (Joined first prior 0) none_left
        (record { numbered = refl; clear = tt; pairwise = refl })
  join_batch-Joined m first prior ids (e ∷ es) batches went fits =
      elim (Option-cases (transaction_of e.command)) [
        | inl other ↦ let no_way : ⊥ = ground arith in absurd no_way
        | inr (c, is) ↦
            elim (Bool-cases (may_join store digest_mutations blake3 m e c first prior ids)) [
              | inr stops ↦ let no_way : ⊥ = ground arith in absurd no_way
              | inl joins ↦
                  let free = may_join_lem m e c first prior ids joins in
                  let body : joined m e c first prior ids es ≡ ok (some batches) =
                    rw (is, joins, join_batch) at went in
                  let (b, made, body1) =
                    >>=-eq-ok (batch_of store digest_mutations blake3 m e c) _ body in
                  let (later, rest, body2) =
                    >>=-eq-ok
                      (join_batch store digest_mutations blake3 m (saturating_next first)
                        (prior ++ c.mutations) (c.transaction_id ∷ ids) es)
                      _ body1 in
                  let (bs, has, all) = put_first_lem b later batches cc in
                  let (at, (d, writes)) = batch_of_lem m e c b made in
                  let below : saturating_next first ≡ first + 1 = ground arith in
                  let next =
                    join_batch-Joined m (first + 1) (prior ++ c.mutations) (c.transaction_id ∷ ids)
                      es bs
                      (subst
                        (λ n.
                          join_batch store digest_mutations blake3 m n (prior ++ c.mutations)
                            (c.transaction_id ∷ ids) es
                          ≡ ok (some bs))
                        below (rest ∙ ap ok has))
                      (omega arith) in
                  subst (Joined first prior (suc (length es))) all (
                    Joined-one first prior (length es) b c.mutations d bs (at ∙ free.0) writes
                      free.1 next)
            ]
      ]

  -- The batches of the commands that a shard applies at once, where their indexes fit 64 bits, stand at
  -- the indexes that follow the applied one, one for each command, and no two of them conflict.
  pub joined_batches :
      (m : ShardStateMachine S) (es : List Entry) (batches : List CommittedShardBatch)
      → m.applied_index + length es < u64_max
      → join_batch store digest_mutations blake3 m (saturating_next m.applied_index) [] [] es
        ≡ ok (some batches)
      → (indices batches ≡ numbers (m.applied_index + 1) (length es))
        × (any_pair batches_conflict batches ≡ false)
  joined_batches m es batches fits went =
      let below : saturating_next m.applied_index ≡ m.applied_index + 1 = ground arith in
      let j =
        join_batch-Joined m (m.applied_index + 1) [] [] es batches
          (subst (λ n. join_batch store digest_mutations blake3 m n [] [] es ≡ ok (some batches))
            below went)
          (omega arith) in
      (j.numbered, j.pairwise)
