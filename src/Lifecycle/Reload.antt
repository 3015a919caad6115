-- ===== src/Lifecycle/Reload.antt =====
-- What the loops of `restore` bring into the cache.
use ga_ottt.Base.{
  ◌≡◌, refl, ◌∙◌, ap, inl, inr, Bool-cases, Bool, true, false, Option, none, some, List, [], ◌∷◌,
  arith, keep, map, ite,
}
use ga_ottt.Dict.{Dict, keys, lookup, has}
use ga_ottt.Dict.Laws.{lookup-insert, Distinct, has-keys}
use ga_ottt.Dict.Order.{Order}
use ga_ottt.Node.{NodeState}
use ga_ottt.Cache.{Cache, set_node, set_displacement, set_velocity}
use ga_ottt.Store.Tables.{Row}
use ga_ottt.Lifecycle.{reload_states, reload_displacements, reload_velocities}
use ga_ottt.Lifecycle.Evictions.{AreKeyed}

module _ {K A B : Type 0} (dec : Discrete K) (g : A → B) where
  -- The value of a row that is hit, or else the old one.
  abbrev pub picked : Bool → Option A → Option B → Option B
  picked false row old = old
  picked true none old = old
  picked true (some a) old = some (g a)

  picked-none : (hit : Bool) (old : Option B) → old ≡ picked hit none old
  picked-none true old = refl
  picked-none false old = refl

  picked_hit :
      (hit : K → Bool) (j k : K) (a : A) (rows : Dict K A) (old : Option B)
      → hit j ≡ true
      → has dec j (keys rows) ≡ false
      → picked (hit k) (lookup dec k rows) (ite (dec j k) (some (g a)) old)
        ≡ picked (hit k) (lookup dec k ((j, a) ∷ rows)) old
  unfolding lookup
  picked_hit hit j k a rows old h out = ground (arith, has-keys dec j rows, has-keys dec k rows)

  picked_miss :
      (hit : K → Bool) (j k : K) (a : A) (rows : Dict K A) (old : Option B)
      → hit j ≡ false
      → picked (hit k) (lookup dec k rows) old ≡ picked (hit k) (lookup dec k ((j, a) ∷ rows)) old
  unfolding lookup
  picked_miss hit j k a rows old h = ground arith

module _ {K W V : Type 0} (o : Order K) (pairs : Discrete (K × K)) where
  -- The states of the rows that are hit.
  abbrev pub states_of : (K → Bool) → Dict K (Row K W V) → List (NodeState K W)
  states_of hit nodes = map (λ e. e.1.state) (keep (λ e. hit e.0) nodes)

  -- The state that comes back.
  abbrev pub active_state : Row K W V → NodeState K W
  active_state r = record (r.state) { is_archived = false }

  node_cache-set_node :
      (c : Cache K W V) (s : NodeState K W) (k : K)
      → lookup o.dec k (set_node o pairs c s false).node_cache
        ≡ ite (o.dec s.id k) (some s) (lookup o.dec k c.node_cache)
  unfolding set_node
  node_cache-set_node c s k = lookup-insert o.dec s.id k s c.node_cache

  pub node_cache-reload_states :
      (hit : K → Bool) (nodes : Dict K (Row K W V)) (c : Cache K W V) (k : K)
      → AreKeyed o.dec nodes
      → Distinct o.dec (keys nodes)
      → lookup o.dec k (reload_states o pairs (states_of hit nodes) c).node_cache
        ≡ picked o.dec active_state (hit k) (lookup o.dec k nodes) (lookup o.dec k c.node_cache)
  unfolding reload_states
  node_cache-reload_states hit [] c k keyed distinct =
      unfold lookup in picked-none o.dec active_state (hit k) (lookup o.dec k c.node_cache)
  node_cache-reload_states hit ((j, r) ∷ nodes) c k (id, keyed) (out, distinct) =
      elim (Bool-cases (hit j)) [
        | inl h ↦ rw h (
            node_cache-reload_states hit nodes (set_node o pairs c (active_state r) false) k keyed
              distinct
            ∙ ap (picked o.dec active_state (hit k) (lookup o.dec k nodes)) (
                node_cache-set_node c (active_state r) k
                ∙ ap (λ i. ite (o.dec i k) (some (active_state r)) (lookup o.dec k c.node_cache))
                    id)
            ∙ picked_hit o.dec active_state hit j k r nodes (lookup o.dec k c.node_cache) h out)
        | inr h ↦ rw h (
            node_cache-reload_states hit nodes c k keyed distinct
            ∙ picked_miss o.dec active_state hit j k r nodes (lookup o.dec k c.node_cache) h)
      ]

  -- The vectors come after the states, and leave them.
  pub node_cache-reload_displacements :
      (vs : Dict K V) (c : Cache K W V)
      → (reload_displacements o pairs vs c).node_cache ≡ c.node_cache
  unfolding reload_displacements set_displacement
  node_cache-reload_displacements [] c = refl
  node_cache-reload_displacements ((id, v) ∷ vs) c =
      node_cache-reload_displacements vs (set_displacement o pairs c id v)

  pub node_cache-reload_velocities :
      (vs : Dict K V) (c : Cache K W V) → (reload_velocities o pairs vs c).node_cache ≡ c.node_cache
  unfolding reload_velocities set_velocity
  node_cache-reload_velocities [] c = refl
  node_cache-reload_velocities ((id, v) ∷ vs) c =
      node_cache-reload_velocities vs (set_velocity o pairs c id v)

  pub tags-reload_states :
      (states : List (NodeState K W)) (c : Cache K W V)
      → (reload_states o pairs states c).tags_by_id ≡ c.tags_by_id
  unfolding reload_states set_node
  tags-reload_states [] c = refl
  tags-reload_states (s ∷ states) c =
      tags-reload_states states (set_node o pairs c (record s { is_archived = false }) false)

  pub tags-reload_displacements :
      (vs : Dict K V) (c : Cache K W V)
      → (reload_displacements o pairs vs c).tags_by_id ≡ c.tags_by_id
  unfolding reload_displacements set_displacement
  tags-reload_displacements [] c = refl
  tags-reload_displacements ((id, v) ∷ vs) c =
      tags-reload_displacements vs (set_displacement o pairs c id v)

  pub tags-reload_velocities :
      (vs : Dict K V) (c : Cache K W V) → (reload_velocities o pairs vs c).tags_by_id ≡ c.tags_by_id
  unfolding reload_velocities set_velocity
  tags-reload_velocities [] c = refl
  tags-reload_velocities ((id, v) ∷ vs) c = tags-reload_velocities vs (set_velocity o pairs c id v)

  -- Both loops over vectors.
  pub node_cache-reload_vectors :
      (vs ds : Dict K V) (c : Cache K W V)
      → (reload_velocities o pairs vs (reload_displacements o pairs ds c)).node_cache ≡ c.node_cache
  node_cache-reload_vectors vs ds c =
      node_cache-reload_velocities vs (reload_displacements o pairs ds c)
      ∙ node_cache-reload_displacements ds c

  pub tags-reload_all :
      (vs ds : Dict K V) (states : List (NodeState K W)) (c : Cache K W V)
      → (reload_velocities o pairs vs
          (reload_displacements o pairs ds (reload_states o pairs states c))).tags_by_id
        ≡ c.tags_by_id
  tags-reload_all vs ds states c =
      tags-reload_velocities vs (reload_displacements o pairs ds (reload_states o pairs states c))
      ∙ tags-reload_displacements ds (reload_states o pairs states c)
      ∙ tags-reload_states states c
