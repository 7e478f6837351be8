-- ===== src/Txn/Overlay.antt =====
-- crates/execution/dtg-transaction/src/overlay.rs
pub mod Covers
pub mod Validate
pub mod Integrity
pub mod Reads
use dtgproxy.Base.{
  ℕ, Bool, true, false, not, ◌&&◌, ◌||◌, List, [], ◌∷◌, ◌++◌, length, map, any, any_pair, filter,
  sort_by, ltb, leb, ◌==◌, if◌then◌else◌, Option, none, some, ℤ, ltb_ℤ, leb_ℤ, max_ℤ, same_ℤ,
  Result, ok, err, ◌>>=◌, ◌>>◌, reject, ok_or,
}
use dtgproxy.Base.Map.{Map, Set, get, insert, remove, push, contains_key, values, or_empty, nat_key}
use dtgproxy.Base.Strings.{text_key}
use dtgproxy.Kernel.{ValidInterval, overlaps}
use dtgproxy.Storage.Mutation.{
  VertexVersion, EdgeVersion, Tombstone, LogicalMutation, put_vertex, delete_vertex, put_edge,
  delete_edge, put_transaction, put_replica_metadata,
}
use dtgproxy.Txn.{
  TxnError, resource_limit, invalid_mutation, duplicate_identity, referential_integrity,
}

abbrev pub max_staged_mutations : ℕ
max_staged_mutations = 4096

pub record BaseGraphSnapshot : Type 0 where
  pub vertices : Map ℕ (List VertexVersion)
  pub edges : Map ℕ (List EdgeVersion)

pub record TransactionOverlay : Type 0 where
  pub mutations : List LogicalMutation

-- Keys (start, end, version) in the order of their parts.
abbrev earlier : ValidInterval → ℕ → ValidInterval → ℕ → Bool
earlier a v b w =
    ltb_ℤ a.start b.start
    || (same_ℤ a.start b.start && (ltb_ℤ a.end b.end || (same_ℤ a.end b.end && ltb v w)))

abbrev pub vertex_earlier : VertexVersion → VertexVersion → Bool
vertex_earlier a b = earlier a.valid_time a.version b.valid_time b.version

abbrev pub edge_earlier : EdgeVersion → EdgeVersion → Bool
edge_earlier a b = earlier a.valid_time a.version b.valid_time b.version

abbrev pub sort_vertex_history : List VertexVersion → List VertexVersion
sort_vertex_history history = sort_by vertex_earlier history

abbrev pub sort_edge_history : List EdgeVersion → List EdgeVersion
sort_edge_history history = sort_by edge_earlier history

abbrev pub vertices_clash : VertexVersion → VertexVersion → Bool
vertices_clash a b = a.version == b.version || overlaps a.valid_time b.valid_time

abbrev pub edges_clash : EdgeVersion → EdgeVersion → Bool
edges_clash a b = a.version == b.version || overlaps a.valid_time b.valid_time

-- Another source, target or type than the first version of the edge has.
abbrev pub other_ends : EdgeVersion → EdgeVersion → Bool
other_ends first e =
    not (e.source == first.source)
    || not (e.target == first.target)
    || not (text_key.same e.edge_type first.edge_type)

unfoldable pub validate_vertex_history : List VertexVersion → Result TxnError (Unit {0})
validate_vertex_history versions = reject (any_pair vertices_clash versions) duplicate_identity

-- A history has a version at least: `versions[0]` is never asked of an empty one.
unfoldable pub validate_edge_history : List EdgeVersion → Result TxnError (Unit {0})
validate_edge_history [] = ok tt
validate_edge_history (first ∷ rest) =
    reject (any (other_ends first) (first ∷ rest) || any_pair edges_clash (first ∷ rest))
      duplicate_identity

-- `for history in vertices.values_mut()`, and the same for edges.
unfoldable pub settle_vertices :
    Map ℕ (List VertexVersion) → Result TxnError (Map ℕ (List VertexVersion))
settle_vertices [] = ok []
settle_vertices ((id, history) ∷ rest) = do
  validate_vertex_history (sort_vertex_history history)
  settled ← settle_vertices rest
  ok ((id, sort_vertex_history history) ∷ settled)

unfoldable pub settle_edges : Map ℕ (List EdgeVersion) → Result TxnError (Map ℕ (List EdgeVersion))
settle_edges [] = ok []
settle_edges ((id, history) ∷ rest) = do
  validate_edge_history (sort_edge_history history)
  settled ← settle_edges rest
  ok ((id, sort_edge_history history) ∷ settled)

abbrev pub push_vertices :
    List VertexVersion → Map ℕ (List VertexVersion) → Map ℕ (List VertexVersion)
push_vertices [] m = m
push_vertices (v ∷ rest) m = push_vertices rest (push v.id v m)

abbrev pub push_edges : List EdgeVersion → Map ℕ (List EdgeVersion) → Map ℕ (List EdgeVersion)
push_edges [] m = m
push_edges (e ∷ rest) m = push_edges rest (push e.id e m)

-- `BaseGraphSnapshot::new`
unfoldable pub base_graph_snapshot :
    List VertexVersion → List EdgeVersion → Result TxnError BaseGraphSnapshot
base_graph_snapshot vertices edges = do
  vs ← settle_vertices (push_vertices vertices [])
  es ← settle_edges (push_edges edges [])
  ok (record { vertices = vs; edges = es })

abbrev pub is_record : LogicalMutation → Bool
is_record (put_transaction _) = true
is_record (put_replica_metadata _) = true
is_record _ = false

unfoldable pub stage : TransactionOverlay → LogicalMutation → Result TxnError TransactionOverlay
stage overlay mutation = do
  reject (length overlay.mutations == max_staged_mutations) resource_limit
  reject (is_record mutation) invalid_mutation
  ok (record { mutations = overlay.mutations ++ (mutation ∷ []) })

abbrev pub deletes_vertex : ℕ → LogicalMutation → Bool
deletes_vertex id (delete_vertex t) = t.id == id
deletes_vertex id _ = false

abbrev pub deletes_edge : ℕ → LogicalMutation → Bool
deletes_edge id (delete_edge t) = t.id == id
deletes_edge id _ = false

abbrev pub holds_at : ValidInterval → ℤ → Bool
holds_at i t = leb_ℤ i.start t && ltb_ℤ t i.end

abbrev pub vertex_at : ℕ → ℤ → VertexVersion → Bool
vertex_at id t v = v.id == id && holds_at v.valid_time t

abbrev pub edge_at : ℕ → ℤ → EdgeVersion → Bool
edge_at id t e = e.id == id && holds_at e.valid_time t

abbrev pub staged_vertices : List LogicalMutation → List VertexVersion
staged_vertices [] = []
staged_vertices (put_vertex v ∷ rest) = v ∷ staged_vertices rest
staged_vertices (_ ∷ rest) = staged_vertices rest

abbrev pub staged_edges : List LogicalMutation → List EdgeVersion
staged_edges [] = []
staged_edges (put_edge e ∷ rest) = e ∷ staged_edges rest
staged_edges (_ ∷ rest) = staged_edges rest

abbrev keep_later {ℓ} : {A : Type ℓ} → (A → ℕ) → A → Option A → Option A
keep_later key x none = some x
keep_later key x (some y) = if ltb (key y) (key x) then some x else some y

-- `max_by_key`: of equal keys the last.
abbrev pub max_by_key {ℓ} : {A : Type ℓ} → (A → ℕ) → List A → Option A
max_by_key key [] = none
max_by_key key (x ∷ xs) = keep_later key x (max_by_key key xs)

abbrev or_else {ℓ} : {A : Type ℓ} → Option A → Option A → Option A
or_else none b = b
or_else (some a) b = some a

unfoldable pub get_vertex : TransactionOverlay → List VertexVersion → ℕ → ℤ → Option VertexVersion
get_vertex overlay base id valid_at =
    if any (deletes_vertex id) overlay.mutations
    then none
    else or_else
        (max_by_key (λ v. v.version)
          (filter (vertex_at id valid_at) (staged_vertices overlay.mutations)))
        (max_by_key (λ v. v.version) (filter (vertex_at id valid_at) base))

unfoldable pub get_edge : TransactionOverlay → List EdgeVersion → ℕ → ℤ → Option EdgeVersion
get_edge overlay base id valid_at =
    if any (deletes_edge id) overlay.mutations
    then none
    else or_else
        (max_by_key (λ e. e.version)
          (filter (edge_at id valid_at) (staged_edges overlay.mutations)))
        (max_by_key (λ e. e.version) (filter (edge_at id valid_at) base))

-- The loop of `history_covers`, from `covered_through`.
abbrev pub covers_loop : ℤ → ValidInterval → List ValidInterval → Bool
covers_loop covered required [] = false
covers_loop covered required (i ∷ rest) =
    let later = covers_loop covered required rest in
    let longer = covers_loop (max_ℤ covered i.end) required rest in
    if leb_ℤ i.end covered || leb_ℤ required.end i.start
    then later
    else if ltb_ℤ covered i.start
    then false
    else if leb_ℤ required.end (max_ℤ covered i.end)
    then true
    else longer

abbrev pub interval_earlier : ValidInterval → ValidInterval → Bool
interval_earlier a b = ltb_ℤ a.start b.start || (same_ℤ a.start b.start && ltb_ℤ a.end b.end)

abbrev pub valid_times : List VertexVersion → List ValidInterval
valid_times [] = []
valid_times (v ∷ rest) = v.valid_time ∷ valid_times rest

unfoldable pub history_covers : List VertexVersion → ValidInterval → Bool
history_covers versions required =
    covers_loop required.start required (sort_by interval_earlier (valid_times versions))
