-- ===== src/Txn/Participants/Accepted.antt =====
-- What `validate_participants` accepts.
use dtgproxy.Base.{
  suc, ◌≡◌, ◌↔◌, refl, sym, ap, ◌∙◌, inl, inr, Bool, true, false, not, ◌||◌, List, [], ◌∷◌, length,
  length-append, any_pair, all, is_nil, arith, ◌==◌, some, ok, Option-cases, Bool-cases,
  Result-cases,
}
use dtgproxy.Base.Map.{contains_key, nat_key}
use dtgproxy.Storage.Mutation.{LogicalMutation}
use dtgproxy.Txn.Participants.{
  ParticipantWrite, TransactionContext, init_of, last_first, take_match, match_all, all_mutations,
  count_mutations, collect_ids, validate_participants, xor,
}
use dtgproxy.Txn.Participants.Matching.{
  SameCounts, match_all-SameCounts, SameCounts-match_all, is_same,
}
use dtgproxy.Txn.Participants.Shards.{same_shard, collect_ids-apart, all-collect_ids}

length-init_of :
    (y : LogicalMutation) (ys : List LogicalMutation) → length (init_of y ys) ≡ length ys
length-init_of y [] = refl
length-init_of y (z ∷ zs) = ap suc (length-init_of z zs)

length-last_first : (xs : List LogicalMutation) → length (last_first xs) ≡ length xs
length-last_first [] = refl
length-last_first (y ∷ ys) = ap suc (length-init_of y ys)

length-take_match :
    (m : LogicalMutation) (xs ys : List LogicalMutation)
    → take_match m xs ≡ some ys
    → length xs ≡ suc (length ys)
length-take_match m [] ys e = cc
length-take_match m (c ∷ cs) ys e = elim (Bool-cases (is_same c m)) [
  | inl hit ↦
      let taken : last_first cs ≡ ys = ground arith in
      ap suc (sym (length-last_first cs) ∙ ap length taken)
  | inr miss ↦ elim (Option-cases (take_match m cs)) [
    | inl missing ↦ let no_way : ⊥ = ground arith in absurd no_way
    | inr (rest, found) ↦
        let left : c ∷ rest ≡ ys = ground arith in
        ap suc (length-take_match m cs rest found ∙ ap length left)
  ]
]

length-match_all :
    (ms unmatched : List LogicalMutation)
    → match_all ms unmatched ≡ ok []
    → length ms ≡ length unmatched
unfolding match_all
length-match_all [] unmatched e =
    let all_gone : unmatched ≡ [] = ground arith in sym (ap length all_gone)
length-match_all (m ∷ ms) unmatched e = elim (Option-cases (take_match m unmatched)) [
  | inl missing ↦ let no_way : ⊥ = ground arith in absurd no_way
  | inr (rest, found) ↦
      let later = length-match_all ms rest (ground arith) in
      let one = length-take_match m unmatched rest found in omega arith
]

count_mutations-length :
    (ps : List ParticipantWrite) → count_mutations ps ≡ length (all_mutations ps)
count_mutations-length [] = refl
count_mutations-length (p ∷ ps) =
    let rest = count_mutations-length ps in
    let here = length-append p.mutations (all_mutations ps) in omega arith

-- The writes are the staged mutations, each as often, by shards that differ and that the snapshot
-- holds; and there is no write only where nothing is staged.
pub record IsSplitting (context : TransactionContext) (ps : List ParticipantWrite) : Type 0 where
  pub matched : SameCounts (all_mutations ps) context.overlay.mutations
  pub apart : any_pair same_shard ps ≡ false
  pub known : all (λ p. contains_key p.shard_id context.snapshot.shards) ps ≡ true
  pub together : is_nil ps ≡ is_nil context.overlay.mutations

module _ (context : TransactionContext) (ps : List ParticipantWrite) where
  abbrev shards_differ : Bool
  shards_differ =
      not (length (collect_ids ps []) == length ps)
      || not (all (λ id. contains_key id.0 context.snapshot.shards) (collect_ids ps []))
      || xor (is_nil ps) (is_nil context.overlay.mutations)

  validate_participants-IsSplitting :
      validate_participants context ps ≡ ok tt → IsSplitting context ps
  unfolding validate_participants
  validate_participants-IsSplitting accepted =
      let same_ids = all-collect_ids (λ id. contains_key id context.snapshot.shards) ps in
      let apart_iff = collect_ids-apart ps in
      elim (Result-cases (match_all (all_mutations ps) context.overlay.mutations)) [
        | inr (e, failed) ↦ let no_way : ⊥ = ground arith in absurd no_way
        | inl (unmatched, matched) ↦ elim (Bool-cases shards_differ) [
          | inl bad ↦ let no_way : ⊥ = ground arith in absurd no_way
          | inr good ↦
              let none_left : is_nil unmatched ≡ true = ground arith in
              let nothing : unmatched ≡ [] = ground arith in
              record {
                matched =
                    match_all-SameCounts (all_mutations ps) context.overlay.mutations
                      (matched ∙ ap ok nothing);
                apart = ground arith;
                known = ground arith;
                together = ground arith;
              }
        ]
      ]

  IsSplitting-validate_participants :
      IsSplitting context ps → validate_participants context ps ≡ ok tt
  unfolding validate_participants
  IsSplitting-validate_participants h =
      let same_ids = all-collect_ids (λ id. contains_key id context.snapshot.shards) ps in
      let apart_iff = collect_ids-apart ps in
      let matched = SameCounts-match_all (all_mutations ps) context.overlay.mutations h.matched in
      let size = length-match_all (all_mutations ps) context.overlay.mutations matched in
      let counted = count_mutations-length ps in
      let apart = h.apart in let known = h.known in let together = h.together in ground arith

-- The writes of the participants are accepted exactly when they are the staged mutations, each as
-- often, by shards that differ and that the snapshot holds, and there is no write only where nothing
-- is staged.
pub validate_participants_iff :
    (context : TransactionContext) (ps : List ParticipantWrite)
    → (validate_participants context ps ≡ ok tt) ↔ IsSplitting context ps
validate_participants_iff context ps =
    (validate_participants-IsSplitting context ps, IsSplitting-validate_participants context ps)
