-- ===== src/Cooccurrence.antt =====
-- gaottt/graph/cooccurrence.py, `CooccurrenceGraph`: counts of the pairs that are recalled together,
-- and the edges of the cache that they make, decay and prune. `min` and `max` of two ids are the
-- cache's sorted pair. `sorted` is a stable insertion sort here.
pub mod Pairs
pub mod Sorting
pub mod DegreeCap
pub mod Maintenance
pub mod Rows
use ga_ottt.Base.{
  ℕ, ◌+◌, ◌-◌, Bool, true, false, ◌||◌, Option, none, some, List, [], ◌∷◌, ◌++◌, ltb, leb,
  if◌then◌else◌, or_else, map, length, take,
}
use ga_ottt.Dict.{Dict, keys, lookup, insert}
use ga_ottt.Dict.Order.{Order, sorted_pair}
use ga_ottt.Graph.{row}
use ga_ottt.Node.{Floats}
use ga_ottt.Cache.{Cache, get_neighbors, set_edge, remove_edge, get_all_edges}

pub record GraphConfig (W : Type 0) : Type 0 where
  pub edge_threshold : ℕ
  pub edge_decay : W
  pub prune_threshold : W
  pub max_degree : ℕ

pub record CooccurrenceGraph (K W V : Type 0) : Type 0 where
  pub config : GraphConfig W
  pub cache : Cache K W V
  pub counts : Dict (K × K) ℕ

-- `itertools.combinations(xs, 2)`
unfoldable pub combinations : {A : Type 0} → List A → List (A × A)
combinations [] = []
combinations (x ∷ xs) = map (λ y. (x, y)) xs ++ combinations xs

-- `sorted(d.items(), key=lambda x: x[1])`
unfoldable pub insert_sorted : {K W : Type 0} → (W → W → Bool) → K × W → Dict K W → Dict K W
insert_sorted less e [] = e ∷ []
insert_sorted less e (f ∷ fs) = if less f.1 e.1 then f ∷ insert_sorted less e fs else e ∷ f ∷ fs

unfoldable pub sort_by_weight : {K W : Type 0} → (W → W → Bool) → Dict K W → Dict K W
unfolding insert_sorted
sort_by_weight less [] = []
sort_by_weight less (e ∷ es) = insert_sorted less e (sort_by_weight less es)

module _ {K W V : Type 0} (F : Floats W) (o : Order K) (pairs : Discrete (K × K)) where
  -- One pass of the loop of `update_cooccurrence`
  unfoldable pub count_pair : CooccurrenceGraph K W V → K → K → ℕ → CooccurrenceGraph K W V
  count_pair g id_a id_b now =
      let key = sorted_pair o id_a id_b in
      let count = or_else (lookup pairs key g.counts) 0 + 1 in
      let current_weight : W =
        or_else (lookup o.dec key.1 (get_neighbors o pairs g.cache key.0)) F.zero in
      let edge_exists = F.positive current_weight in
      record g {
        counts = insert pairs key count g.counts;
        cache =
            if edge_exists || leb g.config.edge_threshold count
            then set_edge o pairs g.cache key.0 key.1 (F.sum current_weight F.one) true none now
            else g.cache;
      }

  unfoldable pub count_pairs : CooccurrenceGraph K W V → List (K × K) → ℕ → CooccurrenceGraph K W V
  count_pairs g [] now = g
  count_pairs g ((a, b) ∷ ps) now = count_pairs (count_pair g a b now) ps now

  unfoldable pub update_cooccurrence :
      CooccurrenceGraph K W V → List K → ℕ → CooccurrenceGraph K W V
  unfolding count_pairs combinations
  update_cooccurrence g result_ids now = count_pairs g (combinations result_ids) now

  unfoldable pub decay_edges : GraphConfig W → Cache K W V → Dict (K × K) (W × ℕ) → ℕ → Cache K W V
  decay_edges config c [] now = c
  decay_edges config c (((src, dst), (w, at)) ∷ es) now =
      let new_weight = F.product w config.edge_decay in
      decay_edges config
        (if F.less new_weight config.prune_threshold
          then remove_edge o pairs c src dst
          else set_edge o pairs c src dst new_weight true none now)
        es now

module _ {K W V : Type 0} (o : Order K) (pairs : Discrete (K × K)) where
  unfoldable pub remove_edges : Cache K W V → K → List K → Cache K W V
  remove_edges c id [] = c
  remove_edges c id (n ∷ ns) = remove_edges (remove_edge o pairs c id n) id ns

module _ {K W V : Type 0} (F : Floats W) (o : Order K) (pairs : Discrete (K × K)) where
  -- The body of the loop of `_enforce_degree_cap`. `neighbors` is the cache's own row, which earlier
  -- rounds may have shortened.
  unfoldable pub cap_node : ℕ → Cache K W V → K → Cache K W V
  unfolding remove_edges
  cap_node max_degree c id =
      let neighbors = row o.dec c.graph_cache id in
      if ltb max_degree (length neighbors)
      then remove_edges o pairs c id
          (keys (take (length neighbors - max_degree) (sort_by_weight F.less neighbors)))
      else c

  unfoldable pub cap_nodes : ℕ → Cache K W V → List K → Cache K W V
  cap_nodes max_degree c [] = c
  cap_nodes max_degree c (id ∷ ids) = cap_nodes max_degree (cap_node max_degree c id) ids

  unfoldable pub enforce_degree_cap : CooccurrenceGraph K W V → CooccurrenceGraph K W V
  enforce_degree_cap g = record g {
    cache = cap_nodes g.config.max_degree g.cache (keys g.cache.graph_cache);
  }

  unfoldable pub decay_and_prune : CooccurrenceGraph K W V → ℕ → CooccurrenceGraph K W V
  unfolding enforce_degree_cap
  decay_and_prune g now = enforce_degree_cap (record g {
    cache = decay_edges F o pairs g.config g.cache (get_all_edges o pairs g.cache now) now;
  })

  unfoldable pub reset : CooccurrenceGraph K W V → CooccurrenceGraph K W V
  reset g = record g { counts = [] }
