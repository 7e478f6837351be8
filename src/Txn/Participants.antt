-- ===== src/Txn/Participants.antt =====
-- The writes of a transaction by shard: `ParticipantWrite` of
-- crates/execution/dtg-transaction/src/participant.rs, and `validate_participants` of coordinator.rs.
pub mod Matching
pub mod Accepted
pub mod Shards
use native.Mathlib.Decide.{ℕ_discrete}
use dtgproxy.Base.{
  ℕ, suc, Bool, true, false, not, ◌&&◌, ◌||◌, List, [], ◌∷◌, ◌++◌, length, map, any, all, is_nil,
  flat_map, ◌==◌, if◌then◌else◌, is_dec, ◌+◌, Option, none, some, Result, ok, err, ◌>>=◌, ◌>>◌,
  reject,
}
use dtgproxy.Base.Map.{Map, Set, insert, contains_key, nat_key}
use dtgproxy.Base.Strings.{String-discrete}
use dtgproxy.Kernel.{TransactionTime}
use dtgproxy.Storage.Mutation.{
  VertexVersion, EdgeVersion, Tombstone, LogicalMutation, put_vertex, delete_vertex, put_edge,
  delete_edge, put_transaction, put_replica_metadata, new_vertex, new_edge,
}
use dtgproxy.Txn.{TxnError, invalid_mutation, participants_mismatch}
use dtgproxy.Txn.Snapshot.{SnapshotToken}
use dtgproxy.Txn.Overlay.{TransactionOverlay, BaseGraphSnapshot, is_record}

-- The derived `PartialEq`.
pub LogicalMutation-discrete : Discrete LogicalMutation
LogicalMutation-discrete = hlevel (ℕ_discrete, String-discrete)

pub record ParticipantWrite : Type 0 where
  pub shard_id : ℕ
  pub mutations : List LogicalMutation

-- `ParticipantWrite::new`
unfoldable pub participant_write : ℕ → List LogicalMutation → Result TxnError ParticipantWrite
participant_write shard_id mutations = do
  reject (is_nil mutations || any is_record mutations) invalid_mutation
  ok (record { shard_id = shard_id; mutations = mutations })

pub record TransactionContext : Type 0 where
  pub snapshot : SnapshotToken
  pub base : BaseGraphSnapshot
  pub overlay : TransactionOverlay

module _ {A : Type 0} where
  abbrev last_of : A → List A → A
  last_of y [] = y
  last_of y (z ∷ zs) = last_of z zs

  abbrev init_of : A → List A → List A
  init_of y [] = []
  init_of y (z ∷ zs) = y ∷ init_of z zs

  -- What `swap_remove` leaves in the place of an element and of those after it: the last first.
  abbrev pub last_first : List A → List A
  last_first [] = []
  last_first (y ∷ ys) = last_of y ys ∷ init_of y ys

  abbrev pub cons_to : A → Option (List A) → Option (List A)
  cons_to x none = none
  cons_to x (some xs) = some (x ∷ xs)

-- `position` and `swap_remove`
abbrev pub take_match : LogicalMutation → List LogicalMutation → Option (List LogicalMutation)
take_match m [] = none
take_match m (c ∷ cs) =
    let later = cons_to c (take_match m cs) in
    if is_dec (LogicalMutation-discrete c m) then some (last_first cs) else later

-- The loop of `validate_participants`.
unfoldable pub match_all :
    List LogicalMutation → List LogicalMutation → Result TxnError (List LogicalMutation)
match_all [] unmatched = ok unmatched
match_all (m ∷ ms) unmatched = elim (take_match m unmatched) [
  | none ↦ err participants_mismatch
  | some rest ↦ match_all ms rest
]

abbrev pub all_mutations : List ParticipantWrite → List LogicalMutation
all_mutations participants = flat_map (λ p. p.mutations) participants

abbrev pub count_mutations : List ParticipantWrite → ℕ
count_mutations [] = 0
count_mutations (p ∷ rest) = length p.mutations + count_mutations rest

abbrev pub collect_ids : List ParticipantWrite → Set ℕ → Set ℕ
collect_ids [] ids = ids
collect_ids (p ∷ rest) ids = collect_ids rest (insert p.shard_id tt ids)

abbrev pub xor : Bool → Bool → Bool
xor a b = if a then not b else b

unfoldable pub validate_participants :
    TransactionContext → List ParticipantWrite → Result TxnError (Unit {0})
validate_participants context participants = do
  reject (not (count_mutations participants == length context.overlay.mutations))
      participants_mismatch
  unmatched ← match_all (all_mutations participants) context.overlay.mutations
  reject (not (is_nil unmatched)) participants_mismatch
  let shard_ids : Set ℕ = collect_ids participants []
  reject
      (not (length shard_ids == length participants)
        || not (all (λ id. contains_key id.0 context.snapshot.shards) shard_ids)
        || xor (is_nil participants) (is_nil context.overlay.mutations))
      participants_mismatch
