-- ===== src/Txn/Overlay/Validate.antt =====
-- `TransactionOverlay::validate` of crates/execution/dtg-transaction/src/overlay.rs
use dtgproxy.Base.{
  ℕ, Bool, false, not, ◌||◌, List, [], ◌∷◌, any, any_pair, ◌==◌, Result, ok, err, ◌>>=◌, ◌>>◌,
  reject, ok_or,
}
use dtgproxy.Base.Map.{Map, Set, get, insert, remove, push, contains_key, or_empty, nat_key}
use dtgproxy.Kernel.{overlaps}
use dtgproxy.Storage.Mutation.{
  VertexVersion, EdgeVersion, LogicalMutation, put_vertex, delete_vertex, put_edge, delete_edge,
  put_transaction, put_replica_metadata,
}
use dtgproxy.Txn.{TxnError, invalid_mutation, duplicate_identity, referential_integrity}
use dtgproxy.Txn.Overlay.{
  BaseGraphSnapshot, TransactionOverlay, other_ends, staged_vertices, staged_edges, push_vertices,
  push_edges, settle_vertices, settle_edges, history_covers,
}

abbrev pub deleted_vertices : List LogicalMutation → Set ℕ → Set ℕ
deleted_vertices [] ids = ids
deleted_vertices (delete_vertex t ∷ rest) ids = deleted_vertices rest (insert t.id tt ids)
deleted_vertices (_ ∷ rest) ids = deleted_vertices rest ids

abbrev pub deleted_edges : List LogicalMutation → Set ℕ → Set ℕ
deleted_edges [] ids = ids
deleted_edges (delete_edge t ∷ rest) ids = deleted_edges rest (insert t.id tt ids)
deleted_edges (_ ∷ rest) ids = deleted_edges rest ids

abbrev pub vertex_identity_taken :
    Set ℕ → Map ℕ (List VertexVersion) → ℕ → List VertexVersion → Bool
vertex_identity_taken deletes base id versions =
    contains_key id deletes
    || any_pair (λ l r. overlaps l.valid_time r.valid_time) versions
    || any (λ staged. any (λ existing. staged.version == existing.version) (or_empty (get id base)))
        versions

unfoldable pub check_vertex_puts :
    Set ℕ → Map ℕ (List VertexVersion) → Map ℕ (List VertexVersion) → Result TxnError (Unit {0})
check_vertex_puts deletes base [] = ok tt
check_vertex_puts deletes base ((id, versions) ∷ rest) = do
  reject (vertex_identity_taken deletes base id versions) duplicate_identity
  check_vertex_puts deletes base rest

-- `validate_vertex_identity`: the two collections of its first loop are made one after the other.
unfoldable pub validate_vertex_identity :
    TransactionOverlay → BaseGraphSnapshot → Result TxnError (Unit {0})
validate_vertex_identity overlay base =
    check_vertex_puts (deleted_vertices overlay.mutations []) base.vertices
      (push_vertices (staged_vertices overlay.mutations) [])

abbrev pub edge_identity_taken : Set ℕ → Map ℕ (List EdgeVersion) → ℕ → List EdgeVersion → Bool
edge_identity_taken deletes base id [] = false
edge_identity_taken deletes base id (first ∷ rest) =
    contains_key id deletes
    || any (other_ends first) rest
    || any_pair (λ l r. overlaps l.valid_time r.valid_time) (first ∷ rest)
    || any
        (λ existing.
          other_ends first existing
          || any (λ staged. staged.version == existing.version) (first ∷ rest))
        (or_empty (get id base))

unfoldable pub check_edge_puts :
    Set ℕ → Map ℕ (List EdgeVersion) → Map ℕ (List EdgeVersion) → Result TxnError (Unit {0})
check_edge_puts deletes base [] = ok tt
check_edge_puts deletes base ((id, versions) ∷ rest) = do
  reject (edge_identity_taken deletes base id versions) duplicate_identity
  check_edge_puts deletes base rest

unfoldable pub validate_edge_identity :
    TransactionOverlay → BaseGraphSnapshot → Result TxnError (Unit {0})
validate_edge_identity overlay base =
    check_edge_puts (deleted_edges overlay.mutations []) base.edges
      (push_edges (staged_edges overlay.mutations) [])

abbrev pub Graph : Type 0
Graph = Map ℕ (List VertexVersion) × Map ℕ (List EdgeVersion)

-- The loop that applies the staged mutations to copies of the histories.
unfoldable pub apply_mutations : List LogicalMutation → Graph → Result TxnError Graph
apply_mutations [] graph = ok graph
apply_mutations (put_vertex v ∷ rest) graph = apply_mutations rest (push v.id v graph.0, graph.1)
apply_mutations (delete_vertex t ∷ rest) graph = apply_mutations rest (remove t.id graph.0, graph.1)
apply_mutations (put_edge e ∷ rest) graph = apply_mutations rest (graph.0, push e.id e graph.1)
apply_mutations (delete_edge t ∷ rest) graph = apply_mutations rest (graph.0, remove t.id graph.1)
apply_mutations (put_transaction _ ∷ rest) graph = err invalid_mutation
apply_mutations (put_replica_metadata _ ∷ rest) graph = err invalid_mutation

unfoldable pub check_edge : Map ℕ (List VertexVersion) → EdgeVersion → Result TxnError (Unit {0})
check_edge vertices e = do
  source ← ok_or (get e.source vertices) referential_integrity
  target ← ok_or (get e.target vertices) referential_integrity
  reject (not (history_covers source e.valid_time) || not (history_covers target e.valid_time))
      referential_integrity

unfoldable pub check_history :
    Map ℕ (List VertexVersion) → List EdgeVersion → Result TxnError (Unit {0})
check_history vertices [] = ok tt
check_history vertices (e ∷ rest) = do check_edge vertices e; check_history vertices rest

unfoldable pub check_histories :
    Map ℕ (List VertexVersion) → Map ℕ (List EdgeVersion) → Result TxnError (Unit {0})
check_histories vertices [] = ok tt
check_histories vertices ((id, history) ∷ rest) = do
  check_history vertices history
  check_histories vertices rest

-- The histories that `validate` checks: those of the base with the overlay applied.
unfoldable pub resulting_graph : TransactionOverlay → BaseGraphSnapshot → Result TxnError Graph
resulting_graph overlay base = do
  (vertices, edges) ← apply_mutations overlay.mutations (base.vertices, base.edges)
  vs ← settle_vertices vertices
  es ← settle_edges edges
  ok (vs, es)

-- `TransactionOverlay::validate`
unfoldable pub validate : TransactionOverlay → BaseGraphSnapshot → Result TxnError (Unit {0})
validate overlay base = do
  validate_vertex_identity overlay base
  validate_edge_identity overlay base
  (vertices, edges) ← resulting_graph overlay base
  check_histories vertices edges
