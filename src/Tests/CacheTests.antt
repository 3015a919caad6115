-- ===== src/Tests/CacheTests.antt =====
-- gaottt/store/cache.py and gaottt/graph/cooccurrence.py on three nodes and two edges.
use ga_ottt.Base.{ℕ, ◌≤◌, refl, true, none, [], ◌∷◌, arith, ℕ_discrete}
use ga_ottt.Dict.{lookup, has}
use ga_ottt.Graph.{weight, row}
use ga_ottt.Links.{Links, links, set_directed_edge}
use ga_ottt.Links.Rows.{holds}
use ga_ottt.Links.Mirror.{IsMirrored, operations-IsMirrored}
use ga_ottt.Cache.{Cache, set_edge, remove_edge, evict_node, reset}
use ga_ottt.Cache.Edges.{IsSound, operations-IsSound, set_edge-IsSound}
use ga_ottt.Cooccurrence.{
  CooccurrenceGraph, enforce_degree_cap, update_cooccurrence, decay_and_prune,
}
use ga_ottt.Cache.Degrees.Coherence.{IsCoherent, operations-IsCoherent}
use ga_ottt.Cooccurrence.Maintenance.{maintenance_keeps_IsSound, set_edge-HasRows}
use ga_ottt.Cooccurrence.DegreeCap.{enforce_degree_cap_lem}
use ga_ottt.Cooccurrence.Rows.{HasRows, degree}
use ga_ottt.Tests.Fixtures.{order, pairs, floats, no_nodes, same_text, typed}

no_nodes-IsSound : IsSound order pairs no_nodes
unfolding weight row lookup
no_nodes-IsSound = record { symmetric = λ a b. refl; timed = λ a b. refl }

abbrev linked : Cache ℕ ℕ ℕ
linked = set_edge order pairs (set_edge order pairs no_nodes 2 1 5 true none 10) 2 3 7 true none 11

linked-IsSound : IsSound order pairs linked
linked-IsSound =
    set_edge-IsSound order pairs (set_edge order pairs no_nodes 2 1 5 true none 10) 2 3 7 true none
      11 (set_edge-IsSound order pairs no_nodes 2 1 5 true none 10 no_nodes-IsSound)

operations-IsSound_example :
    IsSound order pairs (set_edge order pairs linked 2 1 6 true none 20)
    × IsSound order pairs (remove_edge order pairs linked 2 1)
    × IsSound order pairs (evict_node order pairs linked 2)
    × IsSound order pairs (reset order pairs floats linked 20)
operations-IsSound_example =
    operations-IsSound order pairs floats linked 2 1 6 true none 20 linked-IsSound

abbrev graph : CooccurrenceGraph ℕ ℕ ℕ
graph = record {
  config = record { edge_threshold = 2; edge_decay = 1; prune_threshold = 1; max_degree = 1 };
  cache = linked;
  counts = [];
}

abbrev star : CooccurrenceGraph ℕ ℕ ℕ
star = record graph {
  cache = record no_nodes {
    graph_cache = (2, (1, 5) ∷ (3, 7) ∷ []) ∷ (1, (2, 5) ∷ []) ∷ (3, (2, 7) ∷ []) ∷ [];
  };
}

star-HasRows : HasRows order pairs star.cache
unfolding row lookup has
star-HasRows x = ground arith

enforce_degree_cap_lem_example :
    let after = (enforce_degree_cap floats order pairs star).cache in
    (degree order pairs after 2 ≤ 1)
    × (degree order pairs after 2 ≤ degree order pairs star.cache 2)
enforce_degree_cap_lem_example = enforce_degree_cap_lem floats order pairs star 2 star-HasRows

no_links-IsMirrored : IsMirrored ℕ_discrete typed (record { out = []; into = [] })
unfolding holds lookup has links
no_links-IsMirrored s d t = refl

abbrev one_link : Links ℕ
one_link =
    set_directed_edge ℕ_discrete typed same_text (record { out = []; into = [] }) 1 2 "derived_from"

one_link-IsMirrored : IsMirrored ℕ_discrete typed one_link
one_link-IsMirrored =
    (operations-IsMirrored ℕ_discrete typed same_text (record { out = []; into = [] }) 1 2
      "derived_from" none no_links-IsMirrored).0

linked-HasRows : HasRows order pairs linked
unfolding row lookup
linked-HasRows =
    set_edge-HasRows floats order pairs (set_edge order pairs no_nodes 2 1 5 true none 10) 2 3 7 11
      (set_edge-HasRows floats order pairs no_nodes 2 1 5 10 (λ x. tt))

maintenance_keeps_IsSound_example :
    IsSound order pairs (update_cooccurrence floats order pairs graph (1 ∷ 2 ∷ 3 ∷ []) 40).cache
    × IsSound order pairs (decay_and_prune floats order pairs graph 40).cache
    × (degree order pairs (decay_and_prune floats order pairs graph 40).cache 2 ≤ 1)
maintenance_keeps_IsSound_example =
    maintenance_keeps_IsSound floats order pairs graph (1 ∷ 2 ∷ 3 ∷ []) 40 2 linked-IsSound
      linked-HasRows

linked-IsCoherent : IsCoherent floats order pairs linked
linked-IsCoherent =
    (operations-IsCoherent floats order pairs (set_edge order pairs no_nodes 2 1 5 true none 10) 2 3
      7 true none 11 (operations-IsCoherent floats order pairs no_nodes 2 1 5 true none 10 tt).0).0

operations-IsCoherent_example :
    IsCoherent floats order pairs (set_edge order pairs linked 2 1 6 true none 20)
    × IsCoherent floats order pairs (remove_edge order pairs linked 2 1)
    × IsCoherent floats order pairs (evict_node order pairs linked 2)
    × IsCoherent floats order pairs (reset order pairs floats linked 20)
operations-IsCoherent_example =
    operations-IsCoherent floats order pairs linked 2 1 6 true none 20 linked-IsCoherent
