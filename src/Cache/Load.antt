-- ===== src/Cache/Load.antt =====
-- `CacheLayer.load_from_store` of gaottt/store/cache.py. What the store reads from the JSON metadata
-- of its documents (`get_all_sources`, `get_all_tags`, `get_all_originals`, `get_all_cohorts`) is the
-- record `Metadata`.
pub mod Archived
pub mod Directed
use Prim.Native.String.{String}
use ga_ottt.Base.{ℕ, Bool, true, false, ◌||◌, none, List, [], ◌∷◌, ◌++◌, if◌then◌else◌, not, keep}
use ga_ottt.Dict.{Dict, keys, insert, has, add}
use ga_ottt.Dict.Order.{Order}
use ga_ottt.Graph.{set_weight}
use ga_ottt.Links.{Links, Rows, links}
use ga_ottt.Node.{NodeState}
use ga_ottt.Cache.{Cache, invalidate_degree_caches}
use ga_ottt.Store.{Store, DirectedKey, get_all_node_states, load_displacements, load_velocities}

pub record Metadata (K : Type 0) : Type 0 where
  pub sources : Dict K String
  pub tags : Dict K (List String)
  pub originals : Dict K String
  pub cohorts : Dict K String

module _ {K W : Type 0} (dec : Discrete K) where
  -- The loop over the states: the cached nodes and the ids of the archived ones.
  unfoldable pub load_states :
      List (NodeState K W) → Dict K (NodeState K W) → List K → Dict K (NodeState K W) × List K
  load_states [] cached archived = (cached, archived)
  load_states (s ∷ ss) cached archived =
      load_states ss (if s.is_archived then cached else insert dec s.id s cached)
        (if s.is_archived then add dec s.id archived else archived)

module _ {K : Type 0} (dec : Discrete K) where
  unfoldable pub append_link : Rows K → K → K × String → Rows K
  unfolding links
  append_link m a e = insert dec a (links dec m a ++ e ∷ []) m

  unfoldable pub load_directed : List K → List (DirectedKey K) → Links K → Links K
  unfolding append_link
  load_directed archived [] l = l
  load_directed archived ((src, dst, t) ∷ es) l = load_directed archived es (
      if has dec src archived || has dec dst archived
      then l
      else record { out = append_link l.out src (dst, t); into = append_link l.into dst (src, t) })

module _ {K W V : Type 0} (o : Order K) (pairs : Discrete (K × K)) where
  unfoldable pub load_edge : Cache K W V → K → K → W → ℕ → Cache K W V
  load_edge c src dst w last_update = record c {
    graph_cache = set_weight o.dec (set_weight o.dec c.graph_cache src dst w) dst src w;
    edge_last_update =
        insert pairs (if o.lt src dst then (src, dst) else (dst, src)) last_update
          c.edge_last_update;
  }

  unfoldable pub load_edges : List K → Dict (K × K) (W × ℕ) → Cache K W V → Cache K W V
  load_edges archived [] c = c
  load_edges archived (((src, dst), (w, at)) ∷ es) c =
      load_edges archived es
        (if has o.dec src archived || has o.dec dst archived then c else load_edge c src dst w at)

module _ {K W V D : Type 0} (o : Order K) (pairs : Discrete (K × K)) where
  unfoldable pub load_from_store : Cache K W V → Store K W V D → Metadata K → Cache K W V
  unfolding load_states load_directed invalidate_degree_caches
  load_from_store c st meta =
      let (cached, archived) = load_states o.dec (get_all_node_states o.dec st) c.node_cache [] in
      let c' = invalidate_degree_caches o pairs (load_edges o pairs archived st.edges c) in
      record c' {
        node_cache = cached;
        displacement_cache = load_displacements o.dec st;
        velocity_cache = load_velocities o.dec st;
        source_by_id = meta.sources;
        tags_by_id = keep (λ e. not (has o.dec e.0 archived)) meta.tags;
        original_id_by_id = keep (λ e. not (has o.dec e.0 archived)) meta.originals;
        cohort_id_by_id = keep (λ e. not (has o.dec e.0 archived)) meta.cohorts;
        directed =
            load_directed o.dec archived (keys st.directed_edges) (record { out = []; into = [] });
      }
