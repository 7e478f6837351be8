-- ===== src/Txn/Overlay/Integrity.antt =====
-- The graph that a validated transaction leaves.
use dtgproxy.Base.{
  ℕ, ◌≡◌, refl, subst, inl, inr, true, false, List, [], ◌∷◌, any, any_pair, All, arith, ℤ, ok,
  ◌>>=◌, >>=-eq-ok, Result-cases, Option-cases,
}
use dtgproxy.Base.Map.{Map, get, AllValues, or_empty, nat_key}
use dtgproxy.Kernel.Intervals.{Contains}
use dtgproxy.Storage.Mutation.{VertexVersion, EdgeVersion}
use dtgproxy.Txn.Overlay.{
  BaseGraphSnapshot, TransactionOverlay, holds_at, vertices_clash, edges_clash, sort_vertex_history,
  sort_edge_history, validate_vertex_history, validate_edge_history, settle_vertices, settle_edges,
}
use dtgproxy.Txn.Overlay.Covers.{history_covers-at}
use dtgproxy.Txn.Overlay.Validate.{
  Graph, check_edge, check_history, check_histories, resulting_graph, apply_mutations, validate,
}

-- The vertex has a version that is valid at the instant.
abbrev pub Exists : Map ℕ (List VertexVersion) → ℕ → ℤ → Type 0
Exists vertices id t = any (λ v. holds_at v.valid_time t) (or_empty (get id vertices)) ≡ true

abbrev pub HasEnds : Map ℕ (List VertexVersion) → EdgeVersion → Type 0
HasEnds vertices e =
    (t : ℤ) → Contains e.valid_time t → Exists vertices e.source t × Exists vertices e.target t

-- No two versions of a vertex share a version number or an instant, and the same for edges; every
-- edge has both its ends throughout the interval in which it is valid.
pub record IsSound (graph : Graph) : Type 0 where
  pub vertices_apart : AllValues (λ history. any_pair vertices_clash history ≡ false) graph.0
  pub edges_apart : AllValues (λ history. any_pair edges_clash history ≡ false) graph.1
  pub ends : AllValues (All (HasEnds graph.0)) graph.1

check_edge-HasEnds :
    (vertices : Map ℕ (List VertexVersion)) (e : EdgeVersion)
    → check_edge vertices e ≡ ok tt
    → HasEnds vertices e
unfolding check_edge
check_edge-HasEnds vertices e h t inside = elim (Option-cases (get e.source vertices)) [
  | inl missing ↦ let no_way : ⊥ = ground arith in absurd no_way
  | inr (source, at_source) ↦ elim (Option-cases (get e.target vertices)) [
    | inl missing ↦ let no_way : ⊥ = ground arith in absurd no_way
    | inr (target, at_target) ↦
        let one = history_covers-at source e.valid_time t (ground arith) inside in
        let two = history_covers-at target e.valid_time t (ground arith) inside in
        (rw (at_source, one), rw (at_target, two))
  ]
]

check_history-ends :
    (vertices : Map ℕ (List VertexVersion)) (history : List EdgeVersion)
    → check_history vertices history ≡ ok tt
    → All (HasEnds vertices) history
unfolding check_history
check_history-ends vertices [] h = tt
check_history-ends vertices (e ∷ rest) h =
    (check_edge-HasEnds vertices e (ground arith), check_history-ends vertices rest (ground arith))

check_histories-ends :
    (vertices : Map ℕ (List VertexVersion)) (edges : Map ℕ (List EdgeVersion))
    → check_histories vertices edges ≡ ok tt
    → AllValues (All (HasEnds vertices)) edges
unfolding check_histories
check_histories-ends vertices [] h = tt
check_histories-ends vertices ((id, history) ∷ rest) h = (
  check_history-ends vertices history (ground arith),
  check_histories-ends vertices rest (ground arith),
)

settled_vertices-apart :
    (m out : Map ℕ (List VertexVersion))
    → settle_vertices m ≡ ok out
    → AllValues (λ history. any_pair vertices_clash history ≡ false) out
unfolding settle_vertices validate_vertex_history
settled_vertices-apart [] out h =
    let same : [] ≡ out = ground arith in
    subst (AllValues (λ history. any_pair vertices_clash history ≡ false)) same tt
settled_vertices-apart ((id, history) ∷ rest) out h = elim (Result-cases (settle_vertices rest)) [
  | inl (settled, e) ↦
      let same : (id, sort_vertex_history history) ∷ settled ≡ out = ground arith in
      subst (AllValues (λ history. any_pair vertices_clash history ≡ false)) same
        (ground arith, settled_vertices-apart rest settled e)
  | inr (_, failed) ↦ let no_way : ⊥ = ground arith in absurd no_way
]

edge_history-apart :
    (history : List EdgeVersion)
    → validate_edge_history history ≡ ok tt
    → any_pair edges_clash history ≡ false
unfolding validate_edge_history
edge_history-apart [] h = refl
edge_history-apart (first ∷ rest) h = ground arith

settled_edges-apart :
    (m out : Map ℕ (List EdgeVersion))
    → settle_edges m ≡ ok out
    → AllValues (λ history. any_pair edges_clash history ≡ false) out
unfolding settle_edges
settled_edges-apart [] out h =
    let same : [] ≡ out = ground arith in
    subst (AllValues (λ history. any_pair edges_clash history ≡ false)) same tt
settled_edges-apart ((id, history) ∷ rest) out h = elim (Result-cases (settle_edges rest)) [
  | inl (settled, e) ↦
      let same : (id, sort_edge_history history) ∷ settled ≡ out = ground arith in
      subst (AllValues (λ history. any_pair edges_clash history ≡ false)) same (
        edge_history-apart (sort_edge_history history) (ground arith),
        settled_edges-apart rest settled e,
      )
  | inr (_, failed) ↦ let no_way : ⊥ = ground arith in absurd no_way
]

resulting-settled :
    (overlay : TransactionOverlay) (base : BaseGraphSnapshot) (graph : Graph)
    → resulting_graph overlay base ≡ ok graph
    → ((vs : Map ℕ (List VertexVersion)) × (settle_vertices vs ≡ ok graph.0))
      × ((es : Map ℕ (List EdgeVersion)) × (settle_edges es ≡ ok graph.1))
unfolding resulting_graph
resulting-settled overlay base graph h =
    let ((vertices, edges), _, h1) =
      >>=-eq-ok (apply_mutations overlay.mutations (base.vertices, base.edges))
        (λ x. settle_vertices x.0 >>= λ vs. settle_edges x.1 >>= λ es. ok (vs, es)) h in
    let (vs, one, h2) =
      >>=-eq-ok (settle_vertices vertices) (λ vs. settle_edges edges >>= λ es. ok (vs, es)) h1 in
    let (es, two, h3) = >>=-eq-ok (settle_edges edges) (λ es. ok (vs, es)) h2 in
    ((vertices, ground arith), (edges, ground arith))

-- Where the overlay passes against a base, applying it to the base succeeds and leaves a graph in
-- which no two versions of one vertex or of one edge share a version number or overlap, and every
-- edge has a version of its source and one of its target at every instant of its valid time.
pub validate-IsSound :
    (overlay : TransactionOverlay) (base : BaseGraphSnapshot)
    → validate overlay base ≡ ok tt
    → (graph : Graph) × (resulting_graph overlay base ≡ ok graph) × IsSound graph
unfolding validate
validate-IsSound overlay base h = elim (Result-cases (resulting_graph overlay base)) [
  | inl (graph, made) ↦
      let (vs_settled, es_settled) = resulting-settled overlay base graph made in
      (
        graph,
        made,
        record {
          vertices_apart = settled_vertices-apart vs_settled.0 graph.0 vs_settled.1;
          edges_apart = settled_edges-apart es_settled.0 graph.1 es_settled.1;
          ends = check_histories-ends graph.0 graph.1 (ground arith);
        },
      )
  | inr (_, failed) ↦ let no_way : ⊥ = ground arith in absurd no_way
]
