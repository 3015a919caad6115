-- ===== src/Tests/LifecycleTests.antt =====
-- Examples of forgetting, restoring and relating.
use Prim.Native.String.{String}
use ga_ottt.Base.{ℕ, ◌≡◌, refl, Bool, true, false, none, some, List, [], ◌∷◌, ℕ_discrete}
use ga_ottt.Dict.{lookup, insert, has}
use ga_ottt.Bm25.{empty_index}
use ga_ottt.Build.Engine.{Engine, ready}
use ga_ottt.Cache.Flush.{
  flush_to_store, flush_nodes, flush_displacements, flush_velocities, flush_edges,
}
use ga_ottt.Store.{
  DirectedKey, save_node_states, save_displacements, save_velocities, save_edges, delete_edges,
}
use ga_ottt.Store.Batches.{collect, collect_values}
use ga_ottt.Store.Tables.{
  Row, upsert_states, upsert_state, update_displacements, update_velocities, upsert_edges,
  delete_rows,
}
use ga_ottt.Links.{links}
use ga_ottt.Links.Rows.{holds}
use ga_ottt.Lifecycle.{Memory, archive, relate, unrelate}
use ga_ottt.Lifecycle.Restoring.{ComesBack, restore-archive}
use ga_ottt.Lifecycle.Relations.{AreRelated, relations-AreRelated}
use ga_ottt.Tests.Fixtures.{order, pairs, node, no_nodes, no_rows, same_text, typed}

abbrev terms : List ℕ → List ℕ
terms t = t

abbrev is_empty : List ℕ → Bool
is_empty [] = true
is_empty (t ∷ ts) = false

abbrev indexes : Engine ℕ ℕ (List ℕ)
indexes = record {
  hybrid = some empty_index;
  gate = none;
  journal = none;
  snapshot_dirty = false;
  gate_diverged = false;
  mutation_generation = 0;
  invalidated = false;
  build_attempts = 0;
  build_state = ready;
}

-- Node 1 is cached and dirty, with a tag; nodes 1 and 2 are stored.
abbrev memory : Memory ℕ ℕ ℕ String ℕ (List ℕ) ℕ ℕ
memory = record {
  cache = record no_nodes {
    node_cache = (1, node 1 3) ∷ [];
    dirty_nodes = 1 ∷ [];
    tags_by_id = (1, "plan" ∷ []) ∷ [];
  };
  store = record no_rows {
    nodes =
        (1, record { state = node 1 2; displacement = none; velocity = none })
        ∷ (2, record { state = node 2 1; displacement = none; velocity = none })
        ∷ [];
  };
  indexes = indexes;
  prefetch_cache = record {
    max_size = 4;
    ttl = 10;
    entries = (5, (0, 7)) ∷ [];
    hits = 0;
    misses = 0;
    evictions = 0;
  };
  persist_blocked = false;
}

abbrev row_1 : Row ℕ ℕ ℕ
row_1 = record { state = node 1 3; displacement = none; velocity = none }

stored_row :
    lookup ℕ_discrete 1 (flush_to_store order pairs memory.cache memory.store 9).1.nodes
    ≡ some row_1
unfolding flush_to_store flush_nodes flush_displacements flush_velocities flush_edges
    save_node_states save_displacements save_velocities save_edges delete_edges collect
    collect_values upsert_states upsert_state update_displacements update_velocities upsert_edges
    delete_rows lookup insert ℕ_discrete
stored_row = refl

restore-archive_example :
    ComesBack order pairs ℕ_discrete terms is_empty
      (1 ∷ [])
      ((4 ∷ []) ∷ [])
      1
      row_1
      (archive order pairs ℕ_discrete terms is_empty memory (1 ∷ []) 9).0
unfolding flush_to_store flush_nodes flush_displacements flush_velocities flush_edges
    save_node_states save_displacements save_velocities save_edges delete_edges collect
    collect_values upsert_states upsert_state update_displacements update_velocities upsert_edges
    delete_rows lookup insert has ℕ_discrete
restore-archive_example =
    restore-archive order pairs ℕ_discrete terms is_empty memory (1 ∷ []) ((4 ∷ []) ∷ []) 9 1 row_1
      refl refl ((refl, (refl, tt)), (refl, (refl, tt))) stored_row

keyed : Discrete (DirectedKey ℕ)
keyed = hlevel (ℕ_discrete, same_text)

nothing_related : AreRelated ℕ_discrete keyed typed same_text memory
unfolding holds links lookup has
nothing_related s d t = refl

relations-AreRelated_example :
    AreRelated ℕ_discrete keyed typed same_text
      (relate ℕ_discrete keyed typed same_text memory
        (1, 2, "fulfills")
        (record { weight = 1; created_at = 9; metadata = none })).0
    × AreRelated ℕ_discrete keyed typed same_text
        (unrelate ℕ_discrete keyed typed same_text memory 1 2 none).0
relations-AreRelated_example =
    relations-AreRelated ℕ_discrete keyed typed same_text memory 1 2 "fulfills"
      (record { weight = 1; created_at = 9; metadata = none }) none nothing_related
