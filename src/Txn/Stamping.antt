-- ===== src/Txn/Stamping.antt =====
-- `stamp_mutations` of crates/execution/dtg-transaction/src/coordinator.rs, with the conversion of
-- storage errors of lib.rs.
use dtgproxy.Base.{
  ◌≡◌, ◌↔◌, refl, ap, ◌∙◌, inl, inr, Bool, true, false, not, ◌&&◌, List, [], ◌∷◌, map, any, All,
  arith, Result, ok, err, ◌>>=◌, Result-cases,
}
use dtgproxy.Base.Map.{keys}
use dtgproxy.Base.Strings.{is_empty}
use dtgproxy.Kernel.{TransactionTime}
use dtgproxy.Storage.{StorageError}
use dtgproxy.Storage.Messages.{display}
use dtgproxy.Storage.Mutation.{
  LogicalMutation, put_vertex, delete_vertex, put_edge, delete_edge, put_transaction,
  put_replica_metadata, new_vertex, new_edge, validate_properties,
}
use dtgproxy.Txn.{TxnError, invalid_mutation, storage}

-- `?` on a storage error, by `From<StorageError>`.
abbrev pub from_storage : {A : Type 0} → Result StorageError A → Result TxnError A
from_storage (ok a) = ok a
from_storage (err e) = err (storage (display e))

-- The arms of the `match` in `stamp_mutations`.
unfoldable pub stamp : TransactionTime → LogicalMutation → Result TxnError LogicalMutation
stamp commit_time (put_vertex v) = do
  stamped ← from_storage (new_vertex (record v { transaction_time = commit_time }))
  ok (put_vertex stamped)
stamp commit_time (delete_vertex v) =
    ok (delete_vertex (record v { transaction_time = commit_time }))
stamp commit_time (put_edge e) = do
  stamped ← from_storage (new_edge (record e { transaction_time = commit_time }))
  ok (put_edge stamped)
stamp commit_time (delete_edge e) = ok (delete_edge (record e { transaction_time = commit_time }))
stamp commit_time (put_transaction _) = err invalid_mutation
stamp commit_time (put_replica_metadata _) = err invalid_mutation

unfoldable pub stamp_mutations :
    List LogicalMutation → TransactionTime → Result TxnError (List LogicalMutation)
stamp_mutations [] commit_time = ok []
stamp_mutations (m ∷ ms) commit_time = do
  stamped ← stamp commit_time m
  rest ← stamp_mutations ms commit_time
  ok (stamped ∷ rest)

-- The mutation at another time, and else as it is.
abbrev pub at_time : TransactionTime → LogicalMutation → LogicalMutation
at_time t (put_vertex v) = put_vertex (record v { transaction_time = t })
at_time t (delete_vertex v) = delete_vertex (record v { transaction_time = t })
at_time t (put_edge e) = put_edge (record e { transaction_time = t })
at_time t (delete_edge e) = delete_edge (record e { transaction_time = t })
at_time t (put_transaction r) = put_transaction r
at_time t (put_replica_metadata r) = put_replica_metadata r

-- A mutation of the graph whose names are not empty.
abbrev pub can_stamp : LogicalMutation → Bool
can_stamp (put_vertex v) = not (any is_empty (keys v.properties))
can_stamp (delete_vertex _) = true
can_stamp (put_edge e) = not (is_empty e.edge_type) && not (any is_empty (keys e.properties))
can_stamp (delete_edge _) = true
can_stamp (put_transaction _) = false
can_stamp (put_replica_metadata _) = false

stamp-ok :
    (t : TransactionTime) (m : LogicalMutation) → can_stamp m ≡ true → stamp t m ≡ ok (at_time t m)
unfolding stamp new_vertex new_edge validate_properties
stamp-ok t (put_vertex v) h = ground arith
stamp-ok t (delete_vertex v) h = refl
stamp-ok t (put_edge e) h = ground arith
stamp-ok t (delete_edge e) h = refl
stamp-ok t (put_transaction r) h = cc
stamp-ok t (put_replica_metadata r) h = cc

stamp-can_stamp :
    (t : TransactionTime) (m out : LogicalMutation)
    → stamp t m ≡ ok out
    → (can_stamp m ≡ true) × (at_time t m ≡ out)
unfolding stamp new_vertex new_edge validate_properties
stamp-can_stamp t (put_vertex v) out h = ground arith
stamp-can_stamp t (delete_vertex v) out h = ground arith
stamp-can_stamp t (put_edge e) out h = ground arith
stamp-can_stamp t (delete_edge e) out h = ground arith
stamp-can_stamp t (put_transaction r) out h = ground arith
stamp-can_stamp t (put_replica_metadata r) out h = ground arith

stamp_mutations-can_stamp :
    (ms : List LogicalMutation) (t : TransactionTime) (out : List LogicalMutation)
    → stamp_mutations ms t ≡ ok out
    → All (λ m. can_stamp m ≡ true) ms × (map (at_time t) ms ≡ out)
unfolding stamp_mutations
stamp_mutations-can_stamp [] t out h = (tt, ground arith)
stamp_mutations-can_stamp (m ∷ ms) t out h = elim (Result-cases (stamp t m)) [
  | inr (e, refused) ↦ let no_way : ⊥ = ground arith in absurd no_way
  | inl (m', stamped) ↦ elim (Result-cases (stamp_mutations ms t)) [
    | inr (e, refused) ↦ let no_way : ⊥ = ground arith in absurd no_way
    | inl (ms', later) ↦
        let (can, here) = stamp-can_stamp t m m' stamped in
        let (all_can, rest) = stamp_mutations-can_stamp ms t ms' later in
        ((can, all_can), ground arith)
  ]
]

stamp_mutations-ok :
    (ms : List LogicalMutation) (t : TransactionTime)
    → All (λ m. can_stamp m ≡ true) ms
    → stamp_mutations ms t ≡ ok (map (at_time t) ms)
unfolding stamp_mutations
stamp_mutations-ok [] t h = refl
stamp_mutations-ok (m ∷ ms) t h = rw (stamp-ok t m h.0, stamp_mutations-ok ms t h.1)

-- Stamping succeeds exactly where every mutation is one of the graph and has no empty name, and it
-- changes the time of each to the commit time and nothing else.
pub stamp_mutations_iff :
    (ms : List LogicalMutation) (t : TransactionTime) (out : List LogicalMutation)
    → (stamp_mutations ms t ≡ ok out)
      ↔ (All (λ m. can_stamp m ≡ true) ms × (map (at_time t) ms ≡ out))
stamp_mutations_iff ms t out =
    (stamp_mutations-can_stamp ms t out, λ h. stamp_mutations-ok ms t h.0 ∙ ap ok h.1)
