-- ===== src/Lifecycle.antt =====
-- gaottt/core/engine.py: archive, restore, forget, relate and unrelate, over the cache, the store,
-- the BM25 indexes with their journal, and the prefetch cache. The clock, and the texts of documents
-- that a restore journals, are arguments.
pub mod Evictions
pub mod Reload
pub mod Forgetting
pub mod Restoring
pub mod Relations
use Prim.Native.String.{String}
use ga_ottt.Base.{
  ℕ, zero, suc, Bool, true, false, Option, none, some, List, [], ◌∷◌, ite, if◌then◌else◌, ltb, keep,
  map,
}
use ga_ottt.Dict.{Dict, has}
use ga_ottt.Dict.Order.{Order}
use ga_ottt.Node.{NodeState}
use ga_ottt.Links.{Links, set_directed_edge, remove_directed_edge}
use ga_ottt.Cache.{Cache, set_node, set_displacement, set_velocity, evict_node}
use ga_ottt.Cache.Flush.{flush_to_store}
use ga_ottt.Store.{
  Store, DirectedKey, DirectedData, set_archived, hard_delete_nodes, upsert_directed_edge,
  delete_directed_edge,
}
use ga_ottt.Store.Tables.{Row, column}
use ga_ottt.Build.{Entry, remove_entry, restore_entry}
use ga_ottt.Build.Engine.{Engine, mutate}
use ga_ottt.Prefetch as Prefetch

-- The parts of the engine that these calls change; `indexes` are the BM25 indexes.
pub record Memory (K W V D T X Q R : Type 0) : Type 0 where
  pub cache : Cache K W V
  pub store : Store K W V D
  pub indexes : Engine K T X
  pub prefetch_cache : Prefetch.Cache Q R
  pub persist_blocked : Bool

-- A count of rows, the new relation, the LeaseLostError, or the ValueError of a relation with itself.
pub data Change : Type 0 where
  changed : ℕ → Change
  related lease_lost self_relation : Change

abbrev pub no_ids : {K : Type 0} → List K → Bool
no_ids [] = true
no_ids (id ∷ ids) = false

module _ {K W V D : Type 0} (dec : Discrete K) where
  -- `get_node_states(ids)`, in the order of the rows
  unfoldable pub get_node_states : Store K W V D → List K → List (NodeState K W)
  get_node_states st ids = map (λ e. e.1.state) (keep (λ e. has dec e.0 ids) st.nodes)

  -- `load_displacements(ids=…)` and `load_velocities(ids=…)`
  unfoldable pub load_column : (Row K W V → Option V) → Store K W V D → List K → Dict K V
  unfolding column
  load_column c st ids = column c (keep (λ e. has dec e.0 ids) st.nodes)

module _ {K W V : Type 0} (o : Order K) (pairs : Discrete (K × K)) where
  unfoldable pub evict_all : List K → Cache K W V → Cache K W V
  evict_all [] c = c
  evict_all (id ∷ ids) c = evict_all ids (evict_node o pairs c id)

  -- The loop of `restore` over the states
  unfoldable pub reload_states : List (NodeState K W) → Cache K W V → Cache K W V
  reload_states [] c = c
  reload_states (s ∷ states) c =
      reload_states states (set_node o pairs c (record s { is_archived = false }) false)

  unfoldable pub reload_displacements : Dict K V → Cache K W V → Cache K W V
  reload_displacements [] c = c
  reload_displacements ((id, v) ∷ vs) c = reload_displacements vs (set_displacement o pairs c id v)

  unfoldable pub reload_velocities : Dict K V → Cache K W V → Cache K W V
  reload_velocities [] c = c
  reload_velocities ((id, v) ∷ vs) c = reload_velocities vs (set_velocity o pairs c id v)

module _ {K T X : Type 0} (dec : Discrete K) (same_term : Discrete T) (tokenize : X → List T)
    (is_empty : X → Bool) where
  abbrev pub or_same : Engine K T X → Option (Engine K T X) → Engine K T X
  or_same en none = en
  or_same en (some en') = en'

  -- The journal and the hybrid index, if that is wired and a row was changed.
  unfoldable pub change_index : ℕ → Engine K T X → Entry K X → Engine K T X
  unfolding mutate
  change_index affected en e = elim en.hybrid [
    | none ↦ en
    | some ix ↦
        if ltb 0 affected then or_same en (mutate dec same_term tokenize is_empty en e) else en
  ]

abbrev pub invalidate_if : {Q R : Type 0} → ℕ → Prefetch.Cache Q R → Prefetch.Cache Q R
invalidate_if affected p = if ltb 0 affected then (Prefetch.invalidate p).0 else p

module _ {K W V D T X Q R : Type 0} (o : Order K) (pairs : Discrete (K × K))
    (same_term : Discrete T) (tokenize : X → List T) (is_empty : X → Bool) where
  -- After the rows were changed: the cache without the nodes, the index and the prefetch cache.
  unfoldable pub dropped_from :
      Memory K W V D T X Q R
      → List K
      → Cache K W V
      → Store K W V D × ℕ
      → Memory K W V D T X Q R × Change
  unfolding evict_all change_index
  dropped_from m ids c (st, affected) = (
    record m {
      cache = evict_all o pairs ids c;
      store = st;
      indexes =
          change_index o.dec same_term tokenize is_empty affected m.indexes (remove_entry ids);
      prefetch_cache = invalidate_if affected m.prefetch_cache;
    },
    changed affected,
  )

  unfoldable pub archive : Memory K W V D T X Q R → List K → ℕ → Memory K W V D T X Q R × Change
  unfolding dropped_from flush_to_store set_archived
  archive m ids now =
      let flushed = flush_to_store o pairs m.cache m.store now in
      if m.persist_blocked
      then (m, lease_lost)
      else if no_ids ids
      then (m, changed 0)
      else dropped_from m ids flushed.0 (set_archived o.dec flushed.1 ids true)

  -- The cache evicts before the rows are deleted, which neither sees of the other.
  unfoldable pub forget :
      Memory K W V D T X Q R → List K → Bool → ℕ → Memory K W V D T X Q R × Change
  unfolding archive dropped_from flush_to_store hard_delete_nodes
  forget m ids hard now =
      let flushed = flush_to_store o pairs m.cache m.store now in
      if m.persist_blocked
      then (m, lease_lost)
      else if no_ids ids
      then (m, changed 0)
      else if hard
      then dropped_from m ids flushed.0 (hard_delete_nodes o.dec flushed.1 ids)
      else archive m ids now

  unfoldable pub reloaded :
      Memory K W V D T X Q R → List K → List X → Store K W V D × ℕ → Memory K W V D T X Q R
  unfolding reload_states reload_displacements reload_velocities get_node_states load_column
      change_index
  reloaded m ids texts (st, affected) = record m {
    cache = reload_velocities o pairs (load_column o.dec (λ r. r.velocity) st ids) (
        reload_displacements o pairs (load_column o.dec (λ r. r.displacement) st ids)
          (reload_states o pairs (get_node_states o.dec st ids) m.cache));
    store = st;
    indexes =
        change_index o.dec same_term tokenize is_empty affected m.indexes (restore_entry ids texts);
    prefetch_cache = invalidate_if affected m.prefetch_cache;
  }

  unfoldable pub after_unarchive :
      Memory K W V D T X Q R → List K → List X → Store K W V D × ℕ → Memory K W V D T X Q R × Change
  unfolding reloaded
  after_unarchive m ids texts (st, affected) = (
    if ltb 0 affected then reloaded m ids texts (st, affected) else record m { store = st },
    changed affected,
  )

  unfoldable pub restore :
      Memory K W V D T X Q R → List K → List X → Memory K W V D T X Q R × Change
  unfolding after_unarchive set_archived
  restore m ids texts =
      if m.persist_blocked
      then (m, lease_lost)
      else if no_ids ids
      then (m, changed 0)
      else after_unarchive m ids texts (set_archived o.dec m.store ids false)

module _ {K W V D T X Q R : Type 0} (dec : Discrete K) (keyed : Discrete (DirectedKey K))
    (typed : Discrete (K × String)) (same_type : Discrete String) where
  unfoldable pub relate :
      Memory K W V D T X Q R → DirectedKey K → DirectedData W D → Memory K W V D T X Q R × Change
  unfolding upsert_directed_edge set_directed_edge
  relate m (src, dst, edge_type) e =
      if m.persist_blocked
      then (m, lease_lost)
      else ite (dec src dst) (m, self_relation)
          (
            record m {
              store = upsert_directed_edge dec keyed m.store (src, dst, edge_type) e;
              cache = record (m.cache) {
                directed = set_directed_edge dec typed same_type m.cache.directed src dst edge_type;
              };
            },
            related,
          )

  unfoldable pub unrelated :
      Memory K W V D T X Q R
      → K
      → K
      → Option String
      → Store K W V D × ℕ
      → Memory K W V D T X Q R × Change
  unfolding remove_directed_edge
  unrelated m src dst edge_type (st, deleted) = (
    record m {
      store = st;
      cache = record (m.cache) {
        directed =
            if ltb 0 deleted
            then remove_directed_edge dec typed same_type m.cache.directed src dst edge_type
            else m.cache.directed;
      };
    },
    changed deleted,
  )

  unfoldable pub unrelate :
      Memory K W V D T X Q R → K → K → Option String → Memory K W V D T X Q R × Change
  unfolding unrelated delete_directed_edge
  unrelate m src dst edge_type =
      if m.persist_blocked
      then (m, lease_lost)
      else unrelated m src dst edge_type
          (delete_directed_edge dec same_type m.store src dst edge_type)
