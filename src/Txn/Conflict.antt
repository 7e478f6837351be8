-- ===== src/Txn/Conflict.antt =====
-- crates/execution/dtg-transaction/src/conflict.rs
pub mod Exact
use dtgproxy.Base.{
  ℕ, Bool, true, false, ◌&&◌, Option, none, some, List, [], ◌∷◌, any, ltb, ◌==◌, if◌then◌else◌,
  Result, ok, err, ◌>>=◌, ◌>>◌,
}
use dtgproxy.Kernel.{TransactionTime, ValidInterval, overlaps}
use dtgproxy.Storage.Mutation.{
  LogicalMutation, put_vertex, delete_vertex, put_edge, delete_edge, put_transaction,
  put_replica_metadata,
}
use dtgproxy.Txn.{TxnError, write_conflict}

pub data EntityIdentity : Type 0 where
  vertex : ℕ → EntityIdentity
  edge : ℕ → EntityIdentity

abbrev pub same_identity : EntityIdentity → EntityIdentity → Bool
same_identity (vertex a) (vertex b) = a == b
same_identity (edge a) (edge b) = a == b
same_identity _ _ = false

pub data WriteExtent : Type 0 where
  interval : ValidInterval → WriteExtent
  complete_identity : WriteExtent

pub record IntervalWrite : Type 0 where
  pub identity : EntityIdentity
  pub extent : WriteExtent
  pub transaction_time : TransactionTime

-- `IntervalWrite::new`
abbrev pub interval_write : EntityIdentity → ValidInterval → TransactionTime → IntervalWrite
interval_write identity valid_time t = record {
  identity = identity;
  extent = interval valid_time;
  transaction_time = t;
}

-- `IntervalWrite::tombstone`
abbrev pub tombstone_write : EntityIdentity → TransactionTime → IntervalWrite
tombstone_write identity t = record {
  identity = identity;
  extent = complete_identity;
  transaction_time = t;
}

unfoldable pub extents_overlap : WriteExtent → WriteExtent → Bool
extents_overlap (interval left) (interval right) = overlaps left right
extents_overlap complete_identity _ = true
extents_overlap _ complete_identity = true

-- The test of the `any` in `detect_conflict`.
pub conflicts : IntervalWrite → IntervalWrite → Bool
conflicts staged candidate =
    same_identity candidate.identity staged.identity
    && (ltb staged.transaction_time candidate.transaction_time
        && extents_overlap candidate.extent staged.extent)

pub detect_conflict : IntervalWrite → List IntervalWrite → Result TxnError (Unit {0})
detect_conflict staged committed =
    if any (conflicts staged) committed then err write_conflict else ok tt

abbrev pub time_or : Option TransactionTime → TransactionTime → TransactionTime
time_or none own = own
time_or (some t) own = t

pub write_from_mutation : LogicalMutation → Option TransactionTime → Option IntervalWrite
write_from_mutation (put_vertex v) t =
    some (interval_write (vertex v.id) v.valid_time (time_or t v.transaction_time))
write_from_mutation (delete_vertex v) t =
    some (tombstone_write (vertex v.id) (time_or t v.transaction_time))
write_from_mutation (put_edge e) t =
    some (interval_write (edge e.id) e.valid_time (time_or t e.transaction_time))
write_from_mutation (delete_edge e) t =
    some (tombstone_write (edge e.id) (time_or t e.transaction_time))
write_from_mutation (put_transaction _) t = none
write_from_mutation (put_replica_metadata _) t = none

-- `filter_map(|mutation| write_from_mutation(mutation, None))`
pub committed_writes : List LogicalMutation → List IntervalWrite
committed_writes [] = []
committed_writes (m ∷ ms) = elim (write_from_mutation m none) [
  | none ↦ committed_writes ms
  | some w ↦ w ∷ committed_writes ms
]

-- The body of the loop over the staged mutations.
pub detect_staged : Option IntervalWrite → List IntervalWrite → Result TxnError (Unit {0})
detect_staged none committed = ok tt
detect_staged (some staged) committed = detect_conflict staged committed

pub detect_all :
    List LogicalMutation → List IntervalWrite → TransactionTime → Result TxnError (Unit {0})
detect_all [] committed start_time = ok tt
detect_all (m ∷ ms) committed start_time = do
  detect_staged (write_from_mutation m (some start_time)) committed
  detect_all ms committed start_time

pub detect_mutation_conflicts :
    List LogicalMutation → List LogicalMutation → TransactionTime → Result TxnError (Unit {0})
detect_mutation_conflicts staged committed start_time =
    detect_all staged (committed_writes committed) start_time
