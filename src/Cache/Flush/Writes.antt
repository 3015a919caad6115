-- ===== src/Cache/Flush/Writes.antt =====
-- What a flush leaves in the store under each key.
use ga_ottt.Base.{
  ℕ, ◌+◌, ◌≤◌, ◌≡◌, refl, ◌∙◌, true, false, Option, none, some, [], if◌then◌else◌, keep, not,
  is_some, All, All-keep, arith, Bool-cases, Option-cases, inl, inr, ◌⊎◌, sym, subst, or_else,
}
use ga_ottt.Dict.{lookup, has, add, insert}
use ga_ottt.Dict.Laws.{lookup-insert, has-add}
use ga_ottt.Dict.Order.{Order, sorted_pair}
use ga_ottt.Links.Rows.{has-keep}
use ga_ottt.Graph.{weight}
use ga_ottt.Node.{NodeState}
use ga_ottt.Cache.{Cache, set_node}
use ga_ottt.Cache.Flush.{
  edge_entry, flush_nodes, flush_displacements, flush_velocities, flush_edges, flush_to_store,
}
use ga_ottt.Store.{
  Store, save_node_states, save_displacements, save_velocities, save_edges, delete_edges,
}
use ga_ottt.Store.Tables.{Row}
use ga_ottt.Store.Batches.{
  collect, merged, lookup-upsert_states, lookup-update_displacements, lookup-update_velocities,
  lookup-upsert_edges, lookup-delete_rows,
}

module _ {K W V : Type 0} (o : Order K) where
  -- The keys of `dirty_edges` are sorted pairs.
  abbrev pub HasSortedEdges : Cache K W V → Type 0
  HasSortedEdges c = All (λ p. sorted_pair o p.0 p.1 ≡ p) c.dirty_edges

module _ {K W V : Type 0} where
  abbrev state_of : Option (Row K W V) → Option (NodeState K W)
  state_of none = none
  state_of (some r) = some r.state

module _ {K W V D : Type 0} (o : Order K) (pairs : Discrete (K × K)) where
  lookup-flush_edges :
      (c : Cache K W V) (st : Store K W V D) (now : ℕ) (p : K × K)
      → HasSortedEdges o c
      → lookup pairs p (flush_edges o pairs c st now).edges ≡ (
          if has pairs p c.dirty_edges then edge_entry o pairs c now p else lookup pairs p st.edges)
  unfolding flush_edges save_edges delete_edges
  lookup-flush_edges c st now p sorted = ground (
    arith,
    lookup-delete_rows o pairs
        (keep (λ q. not (is_some (edge_entry o pairs c now q))) c.dirty_edges)
        (save_edges o.dec pairs st (collect (edge_entry o pairs c now) c.dirty_edges)).edges p
        (All-keep (λ q. sorted_pair o q.0 q.1 ≡ q) (λ q. not (is_some (edge_entry o pairs c now q)))
          c.dirty_edges sorted),
    has-keep pairs (λ q. not (is_some (edge_entry o pairs c now q))) p c.dirty_edges,
    lookup-upsert_edges pairs (edge_entry o pairs c now) c.dirty_edges st.edges p,
  )

  -- The row of the pair `p` after a flush: that of a clean pair is the old one, a dirty pair that is
  -- no edge has none, and a dirty edge has its weight with its tracked time, or `now` without one.
  abbrev pub IsFlushed : Cache K W V → Store K W V D → ℕ → K × K → Option (W × ℕ) → Type 0
  IsFlushed c st now p row =
      ((has pairs p c.dirty_edges ≡ false) × (row ≡ lookup pairs p st.edges))
      ⊎ ((has pairs p c.dirty_edges ≡ true)
          × (weight o.dec c.graph_cache p.0 p.1 ≡ none)
          × (row ≡ none))
      ⊎ ((w : W) × (has pairs p c.dirty_edges ≡ true)
          × (weight o.dec c.graph_cache p.0 p.1 ≡ some w)
          × (row ≡ some (w, or_else (lookup pairs p c.edge_last_update) now)))

  rows-IsFlushed :
      (c : Cache K W V) (st : Store K W V D) (now : ℕ) (p : K × K)
      → IsFlushed c st now p (
          if has pairs p c.dirty_edges then edge_entry o pairs c now p else lookup pairs p st.edges)
  unfolding edge_entry
  rows-IsFlushed c st now p = elim (Bool-cases (has pairs p c.dirty_edges)) [
    | inr clean ↦ inl (clean, rw clean refl)
    | inl dirty ↦ inr (elim (Option-cases (weight o.dec c.graph_cache p.0 p.1)) [
      | inl cut ↦ inl (dirty, cut, rw (dirty, edge_entry, cut) refl)
      | inr (w, e) ↦ inr (w, dirty, e, rw (dirty, edge_entry, e) refl)
    ])
  ]

  -- Let the dirty pairs be sorted. After a flush that is not blocked, a dirty pair that is an edge
  -- is stored with its weight in the graph and its tracked time, or the time of the flush when none
  -- is tracked; a dirty pair that is no edge has no row; every other pair has the row of before;
  -- and no pair stays dirty.
  pub flush_edges_lem :
      (c : Cache K W V) (st : Store K W V D) (now : ℕ) (p : K × K)
      → HasSortedEdges o c
      → c.persist_blocked ≡ false
      → let after = flush_to_store o pairs c st now in
        IsFlushed c st now p (lookup pairs p after.1.edges) × (after.0.dirty_edges ≡ [])
  unfolding flush_to_store flush_velocities flush_displacements flush_nodes save_velocities
      save_displacements save_node_states
  flush_edges_lem c st now p sorted open_ = simp open_ (
    subst (IsFlushed c st now p)
        (sym (
          lookup-flush_edges c
            (flush_velocities o pairs c (flush_displacements o pairs c (flush_nodes o pairs c st)))
            now p sorted))
        (rows-IsFlushed c st now p),
    refl,
  )

  -- The cache and the store agree on the nodes but for what is dirty: a cached state stands under
  -- its own id, is marked dirty or stored, and no stored revision is ahead of a cached one.
  pub record IsTracked (c : Cache K W V) (st : Store K W V D) : Type 0 where
    pub named : (id : K) (s : NodeState K W) → lookup o.dec id c.node_cache ≡ some s → s.id ≡ id
    pub kept :
        (id : K) (s : NodeState K W)
        → lookup o.dec id c.node_cache ≡ some s
        → has o.dec id c.dirty_nodes ≡ false
        → (r : Row K W V) × (lookup o.dec id st.nodes ≡ some r) × (r.state ≡ s)
    pub newest :
        (id : K) (s : NodeState K W) (r : Row K W V)
        → lookup o.dec id c.node_cache ≡ some s
        → lookup o.dec id st.nodes ≡ some r
        → r.state.rev ≤ s.rev

  state_of-flush :
      (c : Cache K W V) (st : Store K W V D) (now : ℕ) (id : K)
      → c.persist_blocked ≡ false
      → state_of (lookup o.dec id (flush_to_store o pairs c st now).1.nodes)
        ≡ state_of (lookup o.dec id (flush_nodes o pairs c st).nodes)
  unfolding flush_to_store flush_edges save_edges delete_edges flush_velocities save_velocities
      flush_displacements save_displacements
  state_of-flush c st now id open_ = simp open_ (
      ground (
        arith,
        lookup-update_velocities o.dec (λ k. lookup o.dec k c.velocity_cache) c.dirty_velocities
            (flush_displacements o pairs c (flush_nodes o pairs c st)).nodes id,
        lookup-update_displacements o.dec (λ k. lookup o.dec k c.displacement_cache)
            c.dirty_displacements (flush_nodes o pairs c st).nodes id,
      ))

  state_of-flush_nodes :
      (c : Cache K W V) (st : Store K W V D) (id : K) (s : NodeState K W)
      → IsTracked c st
      → lookup o.dec id c.node_cache ≡ some s
      → state_of (lookup o.dec id (flush_nodes o pairs c st).nodes) ≡ some s
  unfolding flush_nodes save_node_states
  state_of-flush_nodes c st id s v e = elim (Bool-cases (has o.dec id c.dirty_nodes)) [
    | inl dirty ↦ rewritten (merged-newest (lookup o.dec id st.nodes) refl) dirty
    | inr clean ↦
        let (r, stored, same) = v.kept id s e clean in ground (arith, clean, stored, same, at_id)
  ]
    where
      at_id : lookup o.dec id (flush_nodes o pairs c st).nodes ≡ (
          if has o.dec id c.dirty_nodes
          then elim (lookup o.dec id c.node_cache) [
            | none ↦ lookup o.dec id st.nodes
            | some s' ↦ some (merged (lookup o.dec id st.nodes) s')
          ]
          else lookup o.dec id st.nodes)
      at_id =
          lookup-upsert_states o.dec (λ k. lookup o.dec k c.node_cache) c.dirty_nodes st.nodes id
            v.named

      merged-newest :
          (r : Option (Row K W V)) → lookup o.dec id st.nodes ≡ r → (merged r s).state ≡ s
      merged-newest none h = unfold merged in refl
      merged-newest (some r) h = unfold merged in ground (arith, v.newest id s r e h)

      rewritten :
          (merged (lookup o.dec id st.nodes) s).state ≡ s
          → has o.dec id c.dirty_nodes ≡ true
          → state_of (lookup o.dec id (flush_nodes o pairs c st).nodes) ≡ some s
      rewritten m dirty = ground (arith, m, dirty, e, at_id)

  -- Let the cache and the store agree on the nodes but for what is dirty, and no stored revision be
  -- ahead. After a flush that is not blocked a cached node is stored as it is cached, and none is
  -- dirty.
  pub flush_nodes_lem :
      (c : Cache K W V) (st : Store K W V D) (now : ℕ) (id : K) (s : NodeState K W)
      → IsTracked c st
      → c.persist_blocked ≡ false
      → lookup o.dec id c.node_cache ≡ some s
      → let after = flush_to_store o pairs c st now in
        (r : Row K W V) × (lookup o.dec id after.1.nodes ≡ some r)
        × (r.state ≡ s)
        × (after.0.dirty_nodes ≡ [])
  flush_nodes_lem c st now id s v open_ e =
      stored (lookup o.dec id (flush_to_store o pairs c st now).1.nodes) refl
        (state_of-flush c st now id open_ ∙ state_of-flush_nodes c st id s v e)
    where
      stored :
          (r : Option (Row K W V))
          → lookup o.dec id (flush_to_store o pairs c st now).1.nodes ≡ r
          → state_of r ≡ some s
          → (r : Row K W V) × (lookup o.dec id (flush_to_store o pairs c st now).1.nodes ≡ some r)
            × (r.state ≡ s)
            × ((flush_to_store o pairs c st now).0.dirty_nodes ≡ [])
      stored none h k = cc
      stored (some r) h k = (r, h, ground arith, unfold flush_to_store in simp open_)

  -- When no stored revision is ahead of the new state's once it is bumped, a dirty `set_node` keeps
  -- the bookkeeping on which the flush relies.
  pub set_node-IsTracked :
      (c : Cache K W V) (st : Store K W V D) (s : NodeState K W)
      → IsTracked c st
      → ((r : Row K W V) → lookup o.dec s.id st.nodes ≡ some r → r.state.rev ≤ s.rev + 1)
      → IsTracked (set_node o pairs c s true) st
  unfolding set_node
  set_node-IsTracked c st s v ahead = record {
    named = λ id t e. ground (
      arith,
      v.named id t,
      lookup-insert o.dec s.id id (record s { rev = s.rev + 1 }) c.node_cache,
    );
    kept = λ id t e clean. let (old, h) = old_entry id t e clean in v.kept id t old h;
    newest = λ id t r e stored. ground (
      arith,
      ahead r,
      v.newest id t r,
      lookup-insert o.dec s.id id (record s { rev = s.rev + 1 }) c.node_cache,
    );
  }
    where
      old_entry :
          (id : K) (t : NodeState K W)
          → lookup o.dec id (insert o.dec s.id (record s { rev = s.rev + 1 }) c.node_cache) ≡ some t
          → has o.dec id (add o.dec s.id c.dirty_nodes) ≡ false
          → (lookup o.dec id c.node_cache ≡ some t) × (has o.dec id c.dirty_nodes ≡ false)
      old_entry id t e clean = ground (
        arith,
        has-add o.dec s.id id c.dirty_nodes,
        lookup-insert o.dec s.id id (record s { rev = s.rev + 1 }) c.node_cache,
      )
