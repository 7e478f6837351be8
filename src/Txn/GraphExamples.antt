-- ===== src/Txn/GraphExamples.antt =====
-- Graph mutations, snapshots and intervals at concrete inputs.
use dtgproxy.Base.{ℕ, ◌≡◌, ◌↔◌, refl, true, [], ◌∷◌, any, All, List, arith, ℤ, pos, ok}
use dtgproxy.Base.Map.{get, insert, remove, nat_key}
use dtgproxy.Kernel.{ValidInterval, overlaps}
use dtgproxy.Kernel.Intervals.{Contains}
use dtgproxy.Storage.Mutation.{VertexVersion, EdgeVersion, put_vertex, put_edge}
use dtgproxy.Txn.Conflict.{detect_mutation_conflicts}
use dtgproxy.Txn.Conflict.Exact.{IsFree, detect_mutation_conflicts_iff}
use dtgproxy.Txn.Snapshot.{
  ShardSnapshotFence, SnapshotToken, collect_fences, snapshot_token, validate_read_time,
}
use dtgproxy.Txn.Snapshot.Fences.{IsFenced, snapshot_token-IsFenced}
use dtgproxy.Txn.Overlay.{
  BaseGraphSnapshot, TransactionOverlay, holds_at, get_vertex, history_covers, settle_vertices,
  settle_edges, validate_vertex_history, validate_edge_history,
}
use dtgproxy.Txn.Overlay.Covers.{history_covers_iff}
use dtgproxy.Txn.Overlay.Validate.{
  Graph, check_vertex_puts, validate_vertex_identity, check_edge_puts, validate_edge_identity,
  apply_mutations, check_edge, check_history, check_histories, resulting_graph, validate,
}
use dtgproxy.Txn.Overlay.Integrity.{IsSound, validate-IsSound}
use dtgproxy.Txn.Overlay.Reads.{IsRead, get_vertex-IsRead}
use dtgproxy.Base.{map}
use dtgproxy.Txn.Stamping.{stamp_mutations, at_time, can_stamp, stamp_mutations_iff}
use dtgproxy.Txn.Participants.{ParticipantWrite, TransactionContext, validate_participants}
use dtgproxy.Txn.Participants.Accepted.{IsSplitting, validate_participants_iff}

abbrev span : ℕ → ℕ → ValidInterval
span a b = record { start = pos a; end = pos b }

abbrev vertex : ℕ → ℕ → ValidInterval → VertexVersion
vertex id version i = record {
  id = id;
  version = version;
  valid_time = i;
  transaction_time = 3;
  properties = [];
}

abbrev link : EdgeVersion
link = record {
  id = 5;
  source = 1;
  target = 2;
  edge_type = "knows";
  version = 1;
  valid_time = span 2 8;
  transaction_time = 3;
  properties = [];
}

abbrev overlay : TransactionOverlay
overlay = record { mutations = put_vertex (vertex 2 1 (span 0 9)) ∷ put_edge link ∷ [] }

abbrev base : BaseGraphSnapshot
base = record {
  vertices = (1, vertex 1 1 (span 0 4) ∷ vertex 1 2 (span 4 9) ∷ []) ∷ [];
  edges = [];
}

passes : validate overlay base ≡ ok tt
unfolding validate validate_vertex_identity check_vertex_puts validate_edge_identity check_edge_puts
    resulting_graph apply_mutations settle_vertices settle_edges validate_vertex_history
    validate_edge_history check_histories check_history check_edge history_covers overlaps get
    insert remove
passes = refl

IsSound-example : (graph : Graph) × (resulting_graph overlay base ≡ ok graph) × IsSound graph
IsSound-example = validate-IsSound overlay base passes

covers_example :
    (history_covers (vertex 1 2 (span 4 9) ∷ vertex 1 1 (span 0 4) ∷ []) (span 2 8) ≡ true) ↔ (
      (t : ℤ)
      → Contains (span 2 8) t
      → any (λ v. holds_at v.valid_time t) (vertex 1 2 (span 4 9) ∷ vertex 1 1 (span 0 4) ∷ [])
        ≡ true)
covers_example =
    history_covers_iff (vertex 1 2 (span 4 9) ∷ vertex 1 1 (span 0 4) ∷ []) (span 2 8) (omega arith)

IsRead-example : IsRead overlay [] 2 (pos 6) (get_vertex overlay [] 2 (pos 6))
IsRead-example = get_vertex-IsRead overlay [] 2 (pos 6)

conflict_example :
    (detect_mutation_conflicts
        (put_vertex (vertex 1 2 (span 2 5)) ∷ [])
        (put_vertex (vertex 1 1 (span 4 9)) ∷ [])
        2
      ≡ ok tt)
    ↔ All
        (IsFree (put_vertex (vertex 1 1 (span 4 9)) ∷ []) 2)
        (put_vertex (vertex 1 2 (span 2 5)) ∷ [])
conflict_example =
    detect_mutation_conflicts_iff (put_vertex (vertex 1 2 (span 2 5)) ∷ [])
      (put_vertex (vertex 1 1 (span 4 9)) ∷ []) 2 (omega arith, tt) (omega arith, tt)

abbrev fence : ShardSnapshotFence
fence = record { placement_epoch = 2; backend_generation = 1; applied_index = 40; closed_time = 9 }

abbrev token : SnapshotToken
token = record { transaction_id = 7; start_time = 8; catalog_version = 3; shards = (4, fence) ∷ [] }

made : snapshot_token 7 8 3 ((4, fence) ∷ []) ≡ ok token
unfolding snapshot_token collect_fences get insert
made = refl

token_example : IsFenced ((4, fence) ∷ []) token × (validate_read_time token 8 ≡ ok tt)
token_example = snapshot_token-IsFenced 7 8 3 ((4, fence) ∷ []) token made

abbrev two_shards : TransactionContext
two_shards = record {
  snapshot = record {
    transaction_id = 7;
    start_time = 8;
    catalog_version = 3;
    shards = (4, fence) ∷ (6, fence) ∷ [];
  };
  base = base;
  overlay = overlay;
}

abbrev two_writes : List ParticipantWrite
two_writes =
    record { shard_id = 6; mutations = put_edge link ∷ [] }
    ∷ record { shard_id = 4; mutations = put_vertex (vertex 2 1 (span 0 9)) ∷ [] }
    ∷ []

IsSplitting-example :
    (validate_participants two_shards two_writes ≡ ok tt) ↔ IsSplitting two_shards two_writes
IsSplitting-example = validate_participants_iff two_shards two_writes

splits : validate_participants two_shards two_writes ≡ ok tt
unfolding get
splits =
    IsSplitting-example.1
      (record { matched = λ m. omega arith; apart = refl; known = refl; together = refl })

stamp_example : (stamp_mutations overlay.mutations 9 ≡ ok (map (at_time 9) overlay.mutations)) ↔ (
    All (λ m. can_stamp m ≡ true) overlay.mutations
    × (map (at_time 9) overlay.mutations ≡ map (at_time 9) overlay.mutations))
stamp_example = stamp_mutations_iff overlay.mutations 9 (map (at_time 9) overlay.mutations)

stamps_all : stamp_mutations overlay.mutations 9 ≡ ok (map (at_time 9) overlay.mutations)
stamps_all = stamp_example.1 ((refl, (refl, tt)), refl)
