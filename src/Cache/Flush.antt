-- ===== src/Cache/Flush.antt =====
-- `CacheLayer.flush_to_store` of gaottt/store/cache.py: what is dirty goes to the store. A save of
-- an empty list writes nothing, so the tests for emptiness around the saves are left out.
pub mod Writes
use ga_ottt.Base.{
  ℕ, Bool, true, false, Option, none, some, List, [], ◌∷◌, if◌then◌else◌, or_else, keep, not,
  is_some,
}
use ga_ottt.Dict.{Dict, lookup}
use ga_ottt.Dict.Order.{Order}
use ga_ottt.Graph.{weight}
use ga_ottt.Cache.{Cache}
use ga_ottt.Store.Batches.{collect, collect_values}
use ga_ottt.Store.{
  Store, save_node_states, save_displacements, save_velocities, save_edges, delete_edges,
}

module _ {K W V : Type 0} (o : Order K) (pairs : Discrete (K × K)) where
  -- The row of a dirty pair that is still an edge: its weight and its tracked time.
  unfoldable pub edge_entry : Cache K W V → ℕ → K × K → Option (W × ℕ)
  edge_entry c now p = elim (weight o.dec c.graph_cache p.0 p.1) [
    | none ↦ none
    | some w ↦ some (w, or_else (lookup pairs p c.edge_last_update) now)
  ]

module _ {K W V D : Type 0} (o : Order K) (pairs : Discrete (K × K)) where
  unfoldable pub flush_nodes : Cache K W V → Store K W V D → Store K W V D
  flush_nodes c st =
      save_node_states o.dec st (collect_values (λ id. lookup o.dec id c.node_cache) c.dirty_nodes)

  unfoldable pub flush_displacements : Cache K W V → Store K W V D → Store K W V D
  flush_displacements c st =
      save_displacements o.dec st
        (collect (λ id. lookup o.dec id c.displacement_cache) c.dirty_displacements)

  unfoldable pub flush_velocities : Cache K W V → Store K W V D → Store K W V D
  flush_velocities c st =
      save_velocities o.dec st (collect (λ id. lookup o.dec id c.velocity_cache) c.dirty_velocities)

  -- Dirty pairs that are edges are saved, the others deleted.
  unfoldable pub flush_edges : Cache K W V → Store K W V D → ℕ → Store K W V D
  flush_edges c st now =
      let entry = edge_entry o pairs c now in
      delete_edges o pairs (save_edges o.dec pairs st (collect entry c.dirty_edges))
        (keep (λ p. not (is_some (entry p))) c.dirty_edges)

  unfoldable pub flush_to_store : Cache K W V → Store K W V D → ℕ → Cache K W V × Store K W V D
  flush_to_store c st now = if c.persist_blocked then (c, st) else (
    record c {
      dirty_nodes = [];
      dirty_displacements = [];
      dirty_velocities = [];
      dirty_edges = [];
    },
    flush_edges c (flush_velocities c (flush_displacements c (flush_nodes c st))) now,
  )
