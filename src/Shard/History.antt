-- ===== src/Shard/History.antt =====
-- The reads of a shard from the history of changes of its store, and the conflicts of writes
-- (crates/execution/dtg-shard/src/state_machine.rs).
use dtgproxy.Base.{
  ℕ, zero, suc, ◌+◌, ◌-◌, ◌*◌, Bool, true, false, not, ◌&&◌, ◌||◌, List, [], ◌∷◌, ◌++◌, length, any,
  is_nil, ltb, leb, ◌==◌, if◌then◌else◌, Option, none, some, Result, ok, ◌>>=◌, ◌>>◌, u64_max,
}
use dtgproxy.Storage.{ReplicaBinding}
use dtgproxy.Storage.Mutation.{
  LogicalMutation, put_vertex, delete_vertex, put_edge, delete_edge, put_transaction,
  put_replica_metadata,
}
use dtgproxy.Storage.Replica.{
  ChangeCursor, cursor_before, same_cursor, ChangeRecord, new_changes_read, ReplicaStateStore,
}
use dtgproxy.Txn.Conflict.{
  EntityIdentity, vertex, edge, same_identity, WriteExtent, interval, complete_identity,
  extents_overlap,
}
use dtgproxy.Shard.{ShardError, from_storage}
use dtgproxy.Shard.Durable.{corrupt, corrupt_if}

abbrev pub page_limit : ℕ
page_limit = 256

abbrev pub page_budget : ℕ
page_budget = 256

abbrev pub record_budget : ℕ
record_budget = 256 * 256

-- `graph_write`: its two enumerations have the arms of those of conflict.rs.
abbrev pub graph_write : LogicalMutation → Option (EntityIdentity × WriteExtent)
graph_write (put_vertex v) = some (vertex v.id, interval v.valid_time)
graph_write (delete_vertex t) = some (vertex t.id, complete_identity)
graph_write (put_edge e) = some (edge e.id, interval e.valid_time)
graph_write (delete_edge t) = some (edge t.id, complete_identity)
graph_write (put_transaction _) = none
graph_write (put_replica_metadata _) = none

abbrev pub clash :
    Option (EntityIdentity × WriteExtent) → Option (EntityIdentity × WriteExtent) → Bool
clash (some left) (some right) = same_identity left.0 right.0 && extents_overlap left.1 right.1
clash _ _ = false

unfoldable pub mutations_conflict : List LogicalMutation → List LogicalMutation → Bool
mutations_conflict left right =
    any (λ l. any (λ r. clash (graph_write l) (graph_write r)) right) left

abbrev pub graph_mutation_time : LogicalMutation → Option ℕ
graph_mutation_time (put_vertex v) = some v.transaction_time
graph_mutation_time (delete_vertex t) = some t.transaction_time
graph_mutation_time (put_edge e) = some e.transaction_time
graph_mutation_time (delete_edge t) = some t.transaction_time
graph_mutation_time (put_transaction _) = none
graph_mutation_time (put_replica_metadata _) = none

abbrev not_after : ChangeCursor → Option ChangeCursor → Bool
not_after cursor none = false
not_after cursor (some after) = not (cursor_before after cursor)

abbrev ends_at : List ChangeRecord → ChangeCursor → Bool
ends_at [] cursor = false
ends_at (row ∷ []) cursor = same_cursor row.cursor cursor
ends_at (row ∷ next ∷ rows) cursor = ends_at (next ∷ rows) cursor

abbrev moves_on : Option ChangeCursor → ChangeCursor → Bool
moves_on none cursor = true
moves_on (some after) cursor = cursor_before after cursor

-- `after.is_some_and(|previous| previous < next)`
abbrev moves_beyond : Option ChangeCursor → ChangeCursor → Bool
moves_beyond none cursor = false
moves_beyond (some after) cursor = cursor_before after cursor

module _ {S View : Type 0} (store : ReplicaStateStore S View) where
  module _ (visit : ChangeRecord → Result ShardError (Unit {0})) where
    unfoldable pub visit_rows :
        Option ChangeCursor → ℕ → List ChangeRecord → Result ShardError (Unit {0})
    visit_rows after applied_index [] = ok tt
    visit_rows after applied_index (row ∷ rows) = do
      corrupt_if (not_after row.cursor after || ltb applied_index row.cursor.raft_index)
          "durable change history row is outside the requested range"
      visit row
      visit_rows after applied_index rows

    -- The rounds of the loop of `for_each_change`, of which as many are left as pages may be read.
    unfoldable pub visit_pages :
        View → ℕ → ℕ → Option ChangeCursor → ℕ → Result ShardError (Unit {0})
    visit_pages view applied_index zero after records =
        corrupt "durable change history exceeded the page budget"
    visit_pages view applied_index (suc pages) after records = do
      request ← from_storage (new_changes_read after applied_index page_limit)
      page ← from_storage (store.changes view request)
      corrupt_if (ltb record_budget (records + length page.rows))
          "durable change history exceeded the record budget"
      visit_rows after applied_index page.rows
      elim page.next_after [
        | none ↦ ok tt
        | some cursor ↦
            corrupt_if (not (ends_at page.rows cursor && moves_on after cursor))
              "durable change history pagination did not make progress"
            >> visit_pages view applied_index pages (some cursor) (records + length page.rows)
      ]

    unfoldable pub for_each_change :
        ReplicaBinding → S → ℕ → Option ChangeCursor → Result ShardError (Unit {0})
    for_each_change binding s applied_index after = if applied_index == 0 then ok tt else do
      view ← from_storage (store.begin_read_view s binding applied_index)
      visit_pages view applied_index page_budget after 0

  unfoldable pub collect_rows :
      ℕ → List ChangeRecord → List LogicalMutation → Result ShardError (List LogicalMutation)
  collect_rows index [] found = ok found
  collect_rows index (row ∷ rows) found = do
    corrupt_if
        (not (row.cursor.raft_index == index) || not (row.cursor.mutation_ordinal == length found))
        "old-index transaction batch history is missing or out of order"
    collect_rows index rows (found ++ row.mutation ∷ [])

  -- The rounds of the loop of `mutations_at_index`.
  unfoldable pub collect_pages :
      View
      → ℕ
      → ℕ
      → Option ChangeCursor
      → List LogicalMutation
      → Result ShardError (List LogicalMutation)
  collect_pages view index zero after found =
      corrupt "old-index transaction batch exceeded the page budget"
  collect_pages view index (suc pages) after found = do
    request ← from_storage (new_changes_read after index page_limit)
    page ← from_storage (store.changes view request)
    corrupt_if (ltb record_budget (length found + length page.rows))
        "old-index transaction batch exceeded the record budget"
    more ← collect_rows index page.rows found
    elim page.next_after [
      | none ↦ ok more
      | some cursor ↦
          corrupt_if
            (not (
              ends_at page.rows cursor
              && (moves_beyond after cursor && cursor.raft_index == index)))
            "old-index transaction batch pagination did not make progress"
          >> collect_pages view index pages (some cursor) more
    ]

  unfoldable pub mutations_at_index :
      ReplicaBinding → S → ℕ → ℕ → Result ShardError (List LogicalMutation)
  mutations_at_index binding s applied_index index = do
    corrupt_if (index == 0 || leb applied_index index)
        "old-index transaction replay is outside durable history"
    view ← from_storage (store.begin_read_view s binding applied_index)
    found ←
        collect_pages view index page_budget
          (some (record { raft_index = index - 1; mutation_ordinal = u64_max })) []
    corrupt_if (is_nil found) "old-index transaction batch history is missing"
    ok found
