-- ===== src/Control/Catalog/History.antt =====
-- Sequences of catalog commands.
use dtgproxy.Base.{
  ℕ, ◌+◌, ◌≡◌, List, [], ◌∷◌, length, arith, some, Result, ok, err, ◌>>=◌, >>=-eq-ok,
}
use dtgproxy.Base.Map.{get, nat_key, pair_key}
use dtgproxy.Control.{ControlError, stale_catalog}
use dtgproxy.Control.Placement.{ShardPlacement, generation_classes}
use dtgproxy.Control.Catalog.{CatalogCommand, put_placement, expected_version, CatalogState, apply}
use dtgproxy.Control.Catalog.Lineage.{apply-Applied, apply_keeps, put_records, class_known}

-- The commands of a list that are applied in turn, each to the state that the one before it gave.
unfoldable pub run : CatalogState → List CatalogCommand → Result ControlError CatalogState
run s [] = ok s
run s (c ∷ rest) = do next ← apply s c; run next rest

run_keeps :
    (cs : List CatalogCommand) (s s' : CatalogState) (graph_id shard_id g d : ℕ)
    → run s cs ≡ ok s'
    → class_known s graph_id shard_id g ≡ some d
    → class_known s' graph_id shard_id g ≡ some d
unfolding run
run_keeps [] s s' graph_id shard_id g d e k = ground arith
run_keeps (c ∷ cs) s s' graph_id shard_id g d e k =
    let (mid, first, rest) = >>=-eq-ok (apply s c) (λ next. run next cs) e in
    run_keeps cs mid s' graph_id shard_id g d rest
      (apply_keeps s c mid graph_id shard_id g d first k)

-- Two placements that the catalog accepts for one shard, with any accepted commands between them,
-- agree on the backend class of every generation that both have.
pub generation_class_fixed :
    (s s1 s2 s3 : CatalogState) (v w : ℕ) (p q : ShardPlacement) (between : List CatalogCommand)
    (g d e : ℕ)
    → apply s (put_placement v p) ≡ ok s1
    → run s1 between ≡ ok s2
    → apply s2 (put_placement w q) ≡ ok s3
    → p.graph_id ≡ q.graph_id
    → p.shard_id ≡ q.shard_id
    → get g (generation_classes p) ≡ some d
    → get g (generation_classes q) ≡ some e
    → d ≡ e
generation_class_fixed s s1 s2 s3 v w p q between g d e put_p ran put_q same_graph same_shard in_p
      in_q =
    let first = put_records s v p s1 g d put_p in_p in
    let later = run_keeps between s1 s2 p.graph_id p.shard_id g d ran first in
    let last = apply_keeps s2 (put_placement w q) s3 p.graph_id p.shard_id g d put_q later in
    let other = put_records s2 w q s3 g e put_q in_q in ground arith

-- A run counts its commands in the version.
pub run-version :
    (cs : List CatalogCommand) (s s' : CatalogState)
    → run s cs ≡ ok s'
    → s'.version ≡ s.version + length cs
unfolding run
run-version [] s s' e = ground arith
run-version (c ∷ cs) s s' e =
    let (mid, first, rest) = >>=-eq-ok (apply s c) (λ next. run next cs) e in
    let once = (apply-Applied s c mid first).version in ground (arith, run-version cs mid s' rest)

-- Of the commands that name one version, one at most is applied: after it, whatever else is
-- applied, each of the others is refused as stale.
pub version_used_once :
    (s s1 s2 : CatalogState) (c other : CatalogCommand) (between : List CatalogCommand)
    → apply s c ≡ ok s1
    → run s1 between ≡ ok s2
    → expected_version other ≡ expected_version c
    → apply s2 other ≡ err (stale_catalog (expected_version other) s2.version)
unfolding apply
version_used_once s s1 s2 c other between first ran same =
    let applied = apply-Applied s c s1 first in
    let later = run-version between s1 s2 ran in
    let e1 = applied.expected in let e2 = applied.version in ground arith
