-- ===== src/Cache/Degrees.antt =====
-- The degrees of gaottt/store/cache.py, `_edge_decay_factor`, `_degrees` and `get_degree`: sums of
-- the weights of a node, kept until an edge changes. The rows have each node once, so that filling a
-- dictionary in their order is a map.
pub mod Coherence
use ga_ottt.Base.{
  ℕ, ◌-◌, leb, Bool, true, false, ◌||◌, ◌&&◌, Option, none, some, List, [], ◌∷◌, if◌then◌else◌,
  or_else, map, not,
}
use ga_ottt.Dict.{Dict, lookup}
use ga_ottt.Dict.Order.{Order}
use ga_ottt.Graph.{Graph}
use ga_ottt.Node.{Floats}
use ga_ottt.Cache.{Cache}

module _ {W : Type 0} (F : Floats W) where
  -- `s = 0.0; for w in …: s += w`, from a start
  unfoldable pub sum_from : {K : Type 0} → W → Dict K W → W
  sum_from s [] = s
  sum_from s ((k, w) ∷ ns) = sum_from (F.sum s w) ns

  unfoldable pub degree_map : {K : Type 0} → Graph K W → Dict K W
  unfolding sum_from
  degree_map g = map (λ e. (e.0, sum_from F.zero e.1)) g

module _ {K W V : Type 0} (F : Floats W) (o : Order K) (pairs : Discrete (K × K)) where
  unfoldable pub edge_decay_factor : Cache K W V → K → K → ℕ → W → W
  edge_decay_factor c a b now half_life =
      elim (lookup pairs (if o.lt a b then (a, b) else (b, a)) c.edge_last_update) [
        | none ↦ F.one
        | some last ↦ if leb now last then F.one else F.half_pow (now - last) half_life
      ]

  -- A row with its weights decayed.
  unfoldable pub decayed_row : Cache K W V → ℕ → W → K → Dict K W → Dict K W
  decayed_row c now half_life src ns =
      map (λ e. (e.0, F.product e.1 (edge_decay_factor c src e.0 now half_life))) ns

  unfoldable pub decayed_graph : Cache K W V → ℕ → W → Graph K W → Graph K W
  unfolding decayed_row
  decayed_graph c now half_life g = map (λ e. (e.0, decayed_row c now half_life e.0 e.1)) g

  -- The degree map and the doubled total, and the cache that remembers them.
  unfoldable pub degrees : Cache K W V → Option W → ℕ → Cache K W V × (Dict K W × W)
  unfolding degree_map sum_from decayed_graph
  degrees c decay_half_life now = elim decay_half_life [
    | none ↦ raw
    | some half_life ↦
        let deg = degree_map F (decayed_graph c now half_life c.graph_cache) in
        let doubled = sum_from F F.zero deg in
        let rebuilt : Cache K W V × (Dict K W × W) = (
          record c {
            decayed_degree_cache = some deg;
            decayed_total = doubled;
            decayed_degree_half_life = some half_life;
          },
          (deg, doubled),
        ) in
        if not (F.positive half_life) then raw else elim c.decayed_degree_cache [
          | none ↦ rebuilt
          | some d ↦ elim c.decayed_degree_half_life [
            | none ↦ rebuilt
            | some h ↦ if F.same h half_life then (c, (d, c.decayed_total)) else rebuilt
          ]
        ]
  ]
    where
      raw : Cache K W V × (Dict K W × W)
      raw =
          let deg = degree_map F c.graph_cache in
          let doubled = sum_from F F.zero deg in
          elim c.degree_cache [
            | none ↦ (record c { degree_cache = some deg; total_weight = doubled }, (deg, doubled))
            | some d ↦ (c, (d, c.total_weight))
          ]

  unfoldable pub get_degree : Cache K W V → K → Option W → ℕ → Cache K W V × W
  unfolding degrees
  get_degree c node_id decay_half_life now =
      let (c', (deg, doubled)) = degrees c decay_half_life now in
      (c', or_else (lookup o.dec node_id deg) F.zero)
