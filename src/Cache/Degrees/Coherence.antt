-- ===== src/Cache/Degrees/Coherence.antt =====
-- The remembered degrees follow the edges.
use ga_ottt.Base.{
  ℕ, ◌≡◌, refl, sym, ◌∙◌, ap, Bool, Option, none, some, List, [], ◌∷◌, or_else, arith, Option-cases,
  inl, inr,
}
use ga_ottt.Dict.{Dict, keys, lookup, erase}
use ga_ottt.Dict.Laws.{lookup-erase}
use ga_ottt.Dict.Order.{Order}
use ga_ottt.Graph.{Graph, row, evict_rows, pop_weights}
use ga_ottt.Node.{Floats}
use ga_ottt.Cache.{Cache, set_edge, remove_edge, evict_node, reset, invalidate_degree_caches}
use ga_ottt.Cache.Degrees.{sum_from, degree_map, degrees, get_degree}

module _ {K W : Type 0} (F : Floats W) (dec : Discrete K) where
  lookup-degree_map :
      (g : Graph K W) (x : K)
      → or_else (lookup dec x (degree_map F g)) F.zero ≡ sum_from F F.zero (row dec g x)
  unfolding degree_map lookup row sum_from
  lookup-degree_map [] x = refl
  lookup-degree_map ((k, ns) ∷ g) x = ground (arith, lookup-degree_map g x)

  row-evict_alone :
      (g : Graph K W) (id x : K)
      → keys (row dec g id) ≡ []
      → row dec (evict_rows dec g id) x ≡ row dec g x
  unfolding evict_rows
  row-evict_alone g id x e = rw e (go (row dec g id) refl e)
    where
      go :
          (r : Dict K W)
          → row dec g id ≡ r
          → keys r ≡ []
          → row dec (pop_weights dec (erase dec id g) [] id) x ≡ row dec g x
      go [] h k = unfold row pop_weights in ground (arith, h, lookup-erase dec id x g)
      go (n ∷ ns) h k = absurd (ground (arith, k))

module _ {K W : Type 0} (F : Floats W) (o : Order K) where
  abbrev pub Agrees : Option (Dict K W) → Graph K W → Type 0
  Agrees none g = Unit
  Agrees (some d) g =
      (x : K) → or_else (lookup o.dec x d) F.zero ≡ sum_from F F.zero (row o.dec g x)

module _ {K W V : Type 0} (F : Floats W) (o : Order K) (pairs : Discrete (K × K)) where
  -- What is remembered, if anything, is for each node the sum of the weights in its row.
  abbrev pub IsCoherent : Cache K W V → Type 0
  IsCoherent c = Agrees F o c.degree_cache c.graph_cache

  evict_node-IsCoherent :
      (c : Cache K W V) (id : K) → IsCoherent c → IsCoherent (evict_node o pairs c id)
  unfolding evict_node invalidate_degree_caches
  evict_node-IsCoherent c id v = go (keys (row o.dec c.graph_cache id)) refl
    where
      alone :
          (d : Option (Dict K W))
          → keys (row o.dec c.graph_cache id) ≡ []
          → Agrees F o d c.graph_cache
          → Agrees F o d (evict_rows o.dec c.graph_cache id)
      alone none e h = tt
      alone (some m) e h =
          λ x. h x ∙ ap (sum_from F F.zero) (sym (row-evict_alone F o.dec c.graph_cache id x e))

      go :
          (ns : List K)
          → keys (row o.dec c.graph_cache id) ≡ ns
          → Agrees F o
              (elim ns as (λ l. Cache K W V) [
                | [] ↦ c
                | n ∷ ms ↦ invalidate_degree_caches o pairs c
              ]).degree_cache
              (evict_rows o.dec c.graph_cache id)
      go [] e = alone c.degree_cache e v
      go (n ∷ ns) e = tt

  -- When the remembered degree map, if there is one, gives each node the sum of the weights in its
  -- row, and zero where it has no entry, this is still so after `set_edge`, `remove_edge`,
  -- `evict_node` and `reset`.
  pub operations-IsCoherent :
      (c : Cache K W V) (a b : K) (w : W) (dirty : Bool) (at : Option ℕ) (now : ℕ)
      → IsCoherent c
      → IsCoherent (set_edge o pairs c a b w dirty at now)
        × IsCoherent (remove_edge o pairs c a b)
        × IsCoherent (evict_node o pairs c a)
        × IsCoherent (reset o pairs F c now)
  unfolding set_edge remove_edge reset invalidate_degree_caches
  operations-IsCoherent c a b w dirty at now v = (tt, tt, evict_node-IsCoherent c a v, tt)

  -- When the remembered degree map, if there is one, gives each node the sum of the weights in its
  -- row, and zero where it has no entry, `get_degree` without decay answers that sum for a node,
  -- whether the map is remembered or built, and leaves a cache for which this still holds.
  pub get_degree_lem :
      (c : Cache K W V) (id : K) (now : ℕ)
      → IsCoherent c
      → let after = get_degree F o pairs c id none now in
        (after.1 ≡ sum_from F F.zero (row o.dec c.graph_cache id)) × IsCoherent after.0
  unfolding get_degree degrees
  get_degree_lem c id now v = elim (Option-cases c.degree_cache) [
    | inl e ↦
        rw (e, get_degree)
          (lookup-degree_map F o.dec c.graph_cache id, lookup-degree_map F o.dec c.graph_cache)
    | inr (m, e) ↦ rw (e, get_degree) ((rw e at v) id, rw e at v)
  ]
