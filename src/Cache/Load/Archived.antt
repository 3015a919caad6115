-- ===== src/Cache/Load/Archived.antt =====
-- The load of the store into the cache, and what it leaves out.
use ga_ottt.Base.{
  ℕ, ◌≡◌, refl, ◌||◌, true, false, some, List, [], ◌∷◌, if◌then◌else◌, Bool-cases, inl, inr, arith,
  ◌⊎◌, ◌∙◌, sym, map,
}
use ga_ottt.Dict.{Dict, keys, lookup, insert, has, add}
use ga_ottt.Dict.Laws.{lookup-insert, has-add}
use ga_ottt.Dict.Order.{Order}
use ga_ottt.Graph.{weight, set_weight}
use ga_ottt.Graph.Weights.{weight-set_weight}
use ga_ottt.Node.{NodeState}
use ga_ottt.Cache.{Cache, set_edge, invalidate_degree_caches}
use ga_ottt.Cache.Edges.{IsSound, set_edge-IsSound, sorted_key}
use ga_ottt.Cache.Load.{Metadata, load_states, load_edge, load_edges, load_from_store}
use ga_ottt.Cache.Load.Directed.{Spared, empty-Spared, load_directed-Spared}
use ga_ottt.Store.Tables.{Row}
use ga_ottt.Store.{Store, get_all_node_states}

module _ {K W V : Type 0} (o : Order K) (pairs : Discrete (K × K)) where
  load_edge-IsSound :
      (c : Cache K W V) (src dst : K) (w : W) (at : ℕ)
      → IsSound o pairs c
      → IsSound o pairs (load_edge o pairs c src dst w at)
  unfolding load_edge set_edge
  load_edge-IsSound c src dst w at v =
      let s = set_edge-IsSound o pairs c src dst w false (some at) 0 v in
      record {
        symmetric = s.symmetric;
        timed = λ a b. rw (sorted_key o pairs src dst) (s.timed a b);
      }

  load_edges-IsSound :
      (archived : List K) (es : Dict (K × K) (W × ℕ)) (c : Cache K W V)
      → IsSound o pairs c
      → IsSound o pairs (load_edges o pairs archived es c)
  unfolding load_edges
  load_edges-IsSound archived [] c v = v
  load_edges-IsSound archived (((src, dst), (w, at)) ∷ es) c v =
      elim (Bool-cases (has o.dec src archived || has o.dec dst archived)) [
        | inl skip ↦ rw skip (load_edges-IsSound archived es c v)
        | inr take ↦
            let c' = load_edge o pairs c src dst w at in
            rw take (load_edges-IsSound archived es c' (load_edge-IsSound c src dst w at v))
      ]

  weight-load_edge :
      (archived : List K) (c : Cache K W V) (src dst : K) (w : W) (at : ℕ) (a b : K)
      → (has o.dec src archived || has o.dec dst archived) ≡ false
      → has o.dec a archived ≡ true
      → weight o.dec (load_edge o pairs c src dst w at).graph_cache a b
        ≡ weight o.dec c.graph_cache a b
  unfolding load_edge
  weight-load_edge archived c src dst w at a b keep h = ground (
    arith,
    weight-set_weight o.dec (set_weight o.dec c.graph_cache src dst w) dst src w a b,
    weight-set_weight o.dec c.graph_cache src dst w a b,
  )

  weight-load_edges :
      (archived : List K) (es : Dict (K × K) (W × ℕ)) (c : Cache K W V) (a b : K)
      → has o.dec a archived ≡ true
      → weight o.dec (load_edges o pairs archived es c).graph_cache a b
        ≡ weight o.dec c.graph_cache a b
  unfolding load_edges
  weight-load_edges archived [] c a b h = refl
  weight-load_edges archived (((src, dst), (w, at)) ∷ es) c a b h = ground (
    arith,
    weight-load_edges archived es c a b h,
    weight-load_edges archived es (load_edge o pairs c src dst w at) a b h,
    weight-load_edge archived c src dst w at a b,
  )

module _ {K W : Type 0} (dec : Discrete K) where
  active_after :
      (t : NodeState K W) (cached : Dict K (NodeState K W)) (j : K) (u : NodeState K W)
      → ((j : K) (t : NodeState K W) → lookup dec j cached ≡ some t → t.is_archived ≡ false)
      → lookup dec j (if t.is_archived then cached else insert dec t.id t cached) ≡ some u
      → u.is_archived ≡ false
  active_after t cached j u active f = elim (Bool-cases t.is_archived) [
    | inl old ↦ active j u (ground (arith, f, old))
    | inr new ↦ elim (dec t.id j) [
      | yes q ↦ ground (arith, f, new, lookup-insert dec t.id j t cached)
      | no q ↦ active j u (ground (arith, f, new, lookup-insert dec t.id j t cached))
    ]
  ]

  load_states-active :
      (ss : List (NodeState K W)) (cached : Dict K (NodeState K W)) (archived : List K) (id : K)
      (s : NodeState K W)
      → ((j : K) (t : NodeState K W) → lookup dec j cached ≡ some t → t.is_archived ≡ false)
      → lookup dec id (load_states dec ss cached archived).0 ≡ some s
      → s.is_archived ≡ false
  unfolding load_states
  load_states-active [] cached archived id s active e = active id s e
  load_states-active (t ∷ ss) cached archived id s active e =
      let cached' : Dict K (NodeState K W) =
        if t.is_archived then cached else insert dec t.id t cached in
      load_states-active ss cached' (if t.is_archived then add dec t.id archived else archived) id s
        (λ j u f. active_after t cached j u active f) e

  remembered :
      (ss : List (NodeState K W)) (cached : Dict K (NodeState K W)) (archived : List K) (k : K)
      → has dec k archived ≡ true
      → has dec k (load_states dec ss cached archived).1 ≡ true
  unfolding load_states
  remembered [] cached archived k there = there
  remembered (s ∷ ss) cached archived k there =
      remembered ss (if s.is_archived then cached else insert dec s.id s cached)
        (if s.is_archived then add dec s.id archived else archived) k
        (ground (arith, there, has-add dec s.id k archived))

  -- A row of the table whose state is archived under the id `k`.
  abbrev pub IsArchived : {V : Type 0} → Dict K (Row K W V) → K → Type 0
  IsArchived [] k = ⊥
  IsArchived (e ∷ rows) k =
      ((e.1.state.is_archived ≡ true) × (e.1.state.id ≡ k)) ⊎ IsArchived rows k

  load_states-IsArchived :
      {V : Type 0} (rows : Dict K (Row K W V)) (cached : Dict K (NodeState K W)) (archived : List K)
      (k : K)
      → IsArchived rows k
      → has dec k (load_states dec (map (λ e. e.1.state) rows) cached archived).1 ≡ true
  unfolding load_states
  load_states-IsArchived [] cached archived k there = elim there [ ]
  load_states-IsArchived (e ∷ rows) cached archived k (inl (old, named)) = rw old (
      remembered (map (λ e. e.1.state) rows) cached (add dec e.1.state.id archived) k
        (ground (arith, named, has-add dec e.1.state.id k archived)))
  load_states-IsArchived (e ∷ rows) cached archived k (inr there) =
      load_states-IsArchived rows
        (if e.1.state.is_archived then cached else insert dec e.1.state.id e.1.state cached)
        (if e.1.state.is_archived then add dec e.1.state.id archived else archived) k there

module _ {K W V : Type 0} (o : Order K) where
  -- A node that is cached is not archived.
  abbrev pub HoldsActive : Cache K W V → Type 0
  HoldsActive c =
      (j : K) (t : NodeState K W) → lookup o.dec j c.node_cache ≡ some t → t.is_archived ≡ false

  -- The edges of `other` with any node are those of before.
  abbrev pub KeepsEdges : Cache K W V → Cache K W V → K → Type 0
  KeepsEdges c c' other =
      (any : K)
      → (weight o.dec c'.graph_cache other any ≡ weight o.dec c.graph_cache other any)
        × (weight o.dec c'.graph_cache any other ≡ weight o.dec c.graph_cache any other)

module _ {K W V D : Type 0} (o : Order K) (pairs : Discrete (K × K)) where
  archived_ids : Cache K W V → Store K W V D → List K
  archived_ids c st = (load_states o.dec (get_all_node_states o.dec st) c.node_cache []).1

  -- Let some row of the store be archived under the id `other`. Loading the store into a sound
  -- cache that holds no archived node gives a sound cache that holds none, in which `other` has the
  -- edges that it had before, with every node and in both directions, and in which `other` has no
  -- directed link and no row of links lists it.
  pub load_from_store_lem :
      (c : Cache K W V) (st : Store K W V D) (meta : Metadata K) (other : K)
      → IsSound o pairs c
      → HoldsActive o c
      → IsArchived o.dec st.nodes other
      → IsSound o pairs (load_from_store o pairs c st meta)
        × HoldsActive o (load_from_store o pairs c st meta)
        × KeepsEdges o c (load_from_store o pairs c st meta) other
        × Spared o.dec (load_from_store o pairs c st meta).directed.out other
        × Spared o.dec (load_from_store o pairs c st meta).directed.into other
  unfolding load_from_store invalidate_degree_caches archived_ids
  load_from_store_lem c st meta other v active old =
      let v' = load_edges-IsSound o pairs (archived_ids c st) st.edges c v in
      let gone : has o.dec other (archived_ids c st) ≡ true =
        unfold get_all_node_states in
        load_states-IsArchived o.dec st.nodes c.node_cache [] other old in
      let left : (any : K)
          → weight o.dec (load_edges o pairs (archived_ids c st) st.edges c).graph_cache other any
            ≡ weight o.dec c.graph_cache other any =
        λ any. weight-load_edges o pairs (archived_ids c st) st.edges c other any gone in
      let spared =
        load_directed-Spared o.dec (archived_ids c st) (keys st.directed_edges)
          (record { out = []; into = [] }) other gone (empty-Spared o.dec other)
          (empty-Spared o.dec other) in
      (
        record { symmetric = v'.symmetric; timed = v'.timed },
        λ j t e.
            load_states-active o.dec (get_all_node_states o.dec st) c.node_cache [] j t active e,
        λ any. (left any, v'.symmetric any other ∙ left any ∙ sym (v.symmetric any other)),
        spared.0,
        spared.1,
      )
