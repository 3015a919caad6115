-- ===== src/Tests/StoreTests.antt =====
-- gaottt/store/cache.py's flush into gaottt/store/sqlite_store.py, on one node and one edge.
use Prim.Native.String.{String}
use ga_ottt.Base.{ℕ, ◌≤◌, ◌≡◌, refl, none, some, [], ◌∷◌, arith, ℕ_discrete}
use ga_ottt.Dict.{lookup, has}
use ga_ottt.Dict.Order.{sorted_pair}
use ga_ottt.Cache.{Cache}
use ga_ottt.Cache.Flush.{flush_to_store}
use ga_ottt.Cache.Flush.Writes.{
  IsTracked, HasSortedEdges, IsFlushed, flush_edges_lem, flush_nodes_lem,
}
use ga_ottt.Store.{Store, DirectedKey}
use ga_ottt.Store.Tables.{Row}
use ga_ottt.Tests.Fixtures.{order, pairs, node, no_nodes, no_rows, same_text}

abbrev cached : Cache ℕ ℕ ℕ
cached = record no_nodes {
  node_cache = (1, node 1 4) ∷ [];
  dirty_nodes = 1 ∷ [];
  graph_cache = (1, (2, 5) ∷ []) ∷ (2, (1, 5) ∷ []) ∷ [];
  edge_last_update = ((1, 2), 10) ∷ [];
  dirty_edges = (1, 2) ∷ (2, 3) ∷ [];
}

abbrev stored : Store ℕ ℕ ℕ String
stored = record no_rows {
  nodes = (1, record { state = node 1 3; displacement = none; velocity = none }) ∷ [];
  edges = ((2, 3), (7, 9)) ∷ [];
}

cached-HasSortedEdges : HasSortedEdges order cached
unfolding sorted_pair
cached-HasSortedEdges = (refl, (refl, tt))

cached-IsTracked : IsTracked order pairs cached stored
unfolding lookup has
cached-IsTracked = record {
  named = λ id s e. ground arith;
  kept = λ id s e clean. absurd (ground arith);
  newest = λ id s r e f. ground arith;
}

flush_edges_lem_example :
    let after = flush_to_store order pairs cached stored 50 in
    IsFlushed order pairs cached stored 50 (1, 2) (lookup pairs (1, 2) after.1.edges)
    × (after.0.dirty_edges ≡ [])
flush_edges_lem_example =
    flush_edges_lem order pairs cached stored 50 (1, 2) cached-HasSortedEdges refl

found : lookup ℕ_discrete 1 cached.node_cache ≡ some (node 1 4)
unfolding lookup ℕ_discrete
found = refl

flush_nodes_lem_example :
    let after = flush_to_store order pairs cached stored 50 in
    (r : Row ℕ ℕ ℕ) × (lookup ℕ_discrete 1 after.1.nodes ≡ some r)
    × (r.state ≡ node 1 4)
    × (after.0.dirty_nodes ≡ [])
flush_nodes_lem_example =
    flush_nodes_lem order pairs cached stored 50 1 (node 1 4) cached-IsTracked refl found

behind : (r : Row ℕ ℕ ℕ) → lookup ℕ_discrete 1 stored.nodes ≡ some r → r.state.rev ≤ 5
unfolding lookup ℕ_discrete
behind r e = ground arith

directed_key : Discrete (DirectedKey ℕ)
directed_key = hlevel (same_text, ℕ_discrete)
