-- ===== src/Graph.antt =====
-- The co-occurrence graph of gaottt/store/cache.py: `graph_cache` maps a node to its neighbours and
-- the weights of its edges, and holds each edge in both rows.
pub mod Weights
pub mod Symmetry
use ga_ottt.Base.{Option, none, some, List, [], ◌∷◌, ite, or_else}
use ga_ottt.Dict.{Dict, keys, lookup, insert, erase}

abbrev pub Graph : Type 0 → Type 0 → Type 0
Graph K W = Dict K (Dict K W)

module _ {K W : Type 0} (dec : Discrete K) where
  -- `graph_cache.get(a, {})`
  unfoldable pub row : Graph K W → K → Dict K W
  row g a = or_else (lookup dec a g) []

  -- `graph_cache.get(a, {}).get(b)`
  unfoldable pub weight : Graph K W → K → K → Option W
  unfolding row
  weight g a b = lookup dec b (row g a)

  -- `graph_cache.setdefault(a, {})[b] = w`
  unfoldable pub set_weight : Graph K W → K → K → W → Graph K W
  unfolding row
  set_weight g a b w = insert dec a (insert dec b w (row g a)) g

  -- `if a in graph_cache: graph_cache[a].pop(b, None)`
  unfoldable pub pop_weight : Graph K W → K → K → Graph K W
  pop_weight g a b = elim (lookup dec a g) [ none ↦ g | some ns ↦ insert dec a (erase dec b ns) g ]

  -- The loop of `evict_node` over the neighbours of the node.
  unfoldable pub pop_weights : Graph K W → List K → K → Graph K W
  pop_weights g [] b = g
  pop_weights g (a ∷ as') b = pop_weights (pop_weight g a b) as' b

  -- The rows of `evict_node`.
  unfoldable pub evict_rows : Graph K W → K → Graph K W
  unfolding row
  evict_rows g k = pop_weights (erase dec k g) (keys (row g k)) k
