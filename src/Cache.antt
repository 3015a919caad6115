-- ===== src/Cache.antt =====
-- gaottt/store/cache.py, `CacheLayer`: the in-memory state between the engine and the store. Node
-- ids are keys with an order, floats a type with the operations that the code uses, vectors a type.
-- Times are ticks of the clock, an argument of each call that reads it. `set_node` bumps the
-- revision of the very object that it stores; here the stored state is the bumped one.
pub mod Degrees
pub mod Edges
pub mod Flush
pub mod Load
use Prim.Native.String.{String}
use ga_ottt.Base.{
  ℕ, ◌+◌, Bool, true, false, Option, none, some, List, [], ◌∷◌, ◌++◌, ite, if◌then◌else◌, or_else,
  map,
}
use ga_ottt.Dict.{Dict, keys, values, lookup, insert, erase, has, add, discard}
use ga_ottt.Dict.Order.{Order, sorted_pair}
use ga_ottt.Graph.{Graph, row, weight, set_weight, pop_weight, evict_rows}
use ga_ottt.Node.{Floats, NodeState}
use ga_ottt.Links.{Links, evict_directed}

pub record Cache (K W V : Type 0) : Type 0 where
  pub node_cache : Dict K (NodeState K W)
  pub graph_cache : Graph K W
  pub degree_cache : Option (Dict K W)
  pub total_weight : W
  pub edge_last_update : Dict (K × K) ℕ
  pub decayed_degree_cache : Option (Dict K W)
  pub decayed_total : W
  pub decayed_degree_half_life : Option W
  pub displacement_cache : Dict K V
  pub velocity_cache : Dict K V
  pub source_by_id : Dict K String
  pub directed : Links K
  pub tags_by_id : Dict K (List String)
  pub original_id_by_id : Dict K String
  pub cohort_id_by_id : Dict K String
  pub dirty_nodes : List K
  pub dirty_edges : List (K × K)
  pub dirty_displacements : List K
  pub dirty_velocities : List K
  pub virtual_faiss_dirty : Bool
  pub persist_blocked : Bool

module _ {K : Type 0} (o : Order K) (pairs : Discrete (K × K)) where
  -- The loop of `evict_node` over the timestamps.
  unfoldable pub pop_times : Dict (K × K) ℕ → K → List K → Dict (K × K) ℕ
  pop_times times id [] = times
  pop_times times id (other ∷ others) =
      pop_times (erase pairs (if o.lt id other then (id, other) else (other, id)) times) id others

module _ {K : Type 0} (dec : Discrete K) where
  -- `s.update(ks)`
  unfoldable pub add_all : List K → List K → List K
  add_all [] s = s
  add_all (k ∷ ks) s = add_all ks (add dec k s)

module _ {K W : Type 0} where
  -- `reset` rewrites the mutable fields of every cached state and forgets all physics.
  unfoldable pub reset_states : W → W → ℕ → Dict K (NodeState K W) → Dict K (NodeState K W)
  reset_states one zero now = map λ e.
      (e.0, record (e.1) { mass = one; temperature = zero; last_access = now; sim_history = [] })

module _ {K W : Type 0} (o : Order K) (pairs : Discrete (K × K)) where
  -- The edges that `get_all_edges` lists, in the order of its two loops; `seen` holds the names of
  -- those listed.
  unfoldable pub list_row :
      Dict (K × K) ℕ → ℕ → K → Dict K W → List (K × K) → List (K × K) × Dict (K × K) (W × ℕ)
  list_row times now src [] seen = (seen, [])
  list_row times now src ((dst, w) ∷ ns) seen =
      let key = sorted_pair o src dst in
      let (seen_after, rest) = list_row times now src ns (add pairs key seen) in
      (
        seen_after,
        if has pairs key seen
            then rest
            else (key, (w, or_else (lookup pairs key times) now)) ∷ rest,
      )

  unfoldable pub list_rows : Dict (K × K) ℕ → ℕ → Graph K W → List (K × K) → Dict (K × K) (W × ℕ)
  unfolding list_row
  list_rows times now [] seen = []
  list_rows times now ((src, ns) ∷ g) seen =
      let (seen_after, listed) = list_row times now src ns seen in
      listed ++ (list_rows times now g seen_after)

module _ {K W V : Type 0} (o : Order K) (pairs : Discrete (K × K)) where
  unfoldable pub get_node : Cache K W V → K → Option (NodeState K W)
  get_node c id = lookup o.dec id c.node_cache

  unfoldable pub set_node : Cache K W V → NodeState K W → Bool → Cache K W V
  set_node c s dirty =
      if dirty
      then record c {
        node_cache = insert o.dec s.id (record s { rev = s.rev + 1 }) c.node_cache;
        dirty_nodes = add o.dec s.id c.dirty_nodes;
      }
      else record c { node_cache = insert o.dec s.id s c.node_cache }

  unfoldable pub set_displacement : Cache K W V → K → V → Cache K W V
  set_displacement c id v = record c {
    displacement_cache = insert o.dec id v c.displacement_cache;
    dirty_displacements = add o.dec id c.dirty_displacements;
    virtual_faiss_dirty = true;
  }

  unfoldable pub set_velocity : Cache K W V → K → V → Cache K W V
  set_velocity c id v = record c {
    velocity_cache = insert o.dec id v c.velocity_cache;
    dirty_velocities = add o.dec id c.dirty_velocities;
  }

  unfoldable pub get_neighbors : Cache K W V → K → Dict K W
  get_neighbors c id = row o.dec c.graph_cache id

  unfoldable pub invalidate_degree_caches : Cache K W V → Cache K W V
  invalidate_degree_caches c = record c { degree_cache = none; decayed_degree_cache = none }

  unfoldable pub set_edge : Cache K W V → K → K → W → Bool → Option ℕ → ℕ → Cache K W V
  unfolding invalidate_degree_caches
  set_edge c src dst w dirty last_update now =
      let key = sorted_pair o src dst in
      record (invalidate_degree_caches c) {
        graph_cache = set_weight o.dec (set_weight o.dec c.graph_cache src dst w) dst src w;
        edge_last_update = insert pairs key (or_else last_update now) c.edge_last_update;
        dirty_edges = if dirty then add pairs key c.dirty_edges else c.dirty_edges;
      }

  unfoldable pub remove_edge : Cache K W V → K → K → Cache K W V
  unfolding invalidate_degree_caches
  remove_edge c src dst =
      let key = sorted_pair o src dst in
      record (invalidate_degree_caches c) {
        graph_cache = pop_weight o.dec (pop_weight o.dec c.graph_cache src dst) dst src;
        edge_last_update = erase pairs key c.edge_last_update;
        dirty_edges = add pairs key c.dirty_edges;
      }

  unfoldable pub evict_node : Cache K W V → K → Cache K W V
  unfolding invalidate_degree_caches
  evict_node c id =
      let neighbors = keys (row o.dec c.graph_cache id) in
      let c' : Cache K W V = elim neighbors [ [] ↦ c | n ∷ ns ↦ invalidate_degree_caches c ] in
      record c' {
        node_cache = erase o.dec id c.node_cache;
        displacement_cache = erase o.dec id c.displacement_cache;
        velocity_cache = erase o.dec id c.velocity_cache;
        source_by_id = erase o.dec id c.source_by_id;
        tags_by_id = erase o.dec id c.tags_by_id;
        original_id_by_id = erase o.dec id c.original_id_by_id;
        cohort_id_by_id = erase o.dec id c.cohort_id_by_id;
        dirty_nodes = discard o.dec id c.dirty_nodes;
        dirty_displacements = discard o.dec id c.dirty_displacements;
        dirty_velocities = discard o.dec id c.dirty_velocities;
        virtual_faiss_dirty = true;
        graph_cache = evict_rows o.dec c.graph_cache id;
        edge_last_update = pop_times o pairs c.edge_last_update id neighbors;
        directed = evict_directed o.dec c.directed id;
      }

  unfoldable pub reset : Floats W → Cache K W V → ℕ → Cache K W V
  unfolding invalidate_degree_caches reset_states
  reset F c now = record (invalidate_degree_caches c) {
    node_cache = reset_states F.one F.zero now c.node_cache;
    dirty_nodes = add_all o.dec (keys c.node_cache) c.dirty_nodes;
    graph_cache = [];
    edge_last_update = [];
    dirty_edges = [];
    displacement_cache = [];
    dirty_displacements = [];
    velocity_cache = [];
    dirty_velocities = [];
  }

  unfoldable pub get_all_edges : Cache K W V → ℕ → Dict (K × K) (W × ℕ)
  unfolding list_rows
  get_all_edges c now = list_rows o pairs c.edge_last_update now c.graph_cache []
