-- ===== src/Cooccurrence/Maintenance.antt =====
-- The edges through whole calls: counting a recall, decaying, pruning and capping.
use ga_ottt.Base.{
  ℕ, ◌≤◌, ◌≡◌, ◌-◌, true, none, List, [], ◌∷◌, if◌then◌else◌, Bool-cases, inl, inr, arith, ltb,
  length, take, ite, or_else,
}
use ga_ottt.Dict.{Dict, keys, insert, lookup}
use ga_ottt.Dict.Laws.{lookup-insert}
use ga_ottt.Dict.Unique.{insert-Distinct}
use ga_ottt.Dict.Order.{Order}
use ga_ottt.Graph.{Graph, row, set_weight}
use ga_ottt.Node.{Floats}
use ga_ottt.Cache.{Cache, set_edge, remove_edge, get_all_edges}
use ga_ottt.Cache.Edges.{IsSound, set_edge-IsSound, remove_edge-IsSound}
use ga_ottt.Cooccurrence.{
  CooccurrenceGraph, GraphConfig, count_pair, count_pairs, combinations, update_cooccurrence,
  decay_edges, remove_edges, cap_node, cap_nodes, enforce_degree_cap, decay_and_prune,
  sort_by_weight,
}
use ga_ottt.Cooccurrence.Pairs.{count_pair_lem}
use ga_ottt.Cooccurrence.DegreeCap.{enforce_degree_cap_lem}
use ga_ottt.Cooccurrence.Rows.{HasRows, degree, remove_edge-HasRows}

module _ {K W : Type 0} (o : Order K) where
  row-set_weight :
      (g : Graph K W) (a b : K) (w : W) (x : K)
      → row o.dec (set_weight o.dec g a b w) x
        ≡ ite (o.dec a x) (insert o.dec b w (row o.dec g a)) (row o.dec g x)
  unfolding row set_weight
  row-set_weight g a b w x =
      ground (arith, lookup-insert o.dec a x (insert o.dec b w (or_else (lookup o.dec a g) [])) g)

module _ {K W V : Type 0} (F : Floats W) (o : Order K) (pairs : Discrete (K × K)) where
  count_pairs-IsSound :
      (g : CooccurrenceGraph K W V) (ps : List (K × K)) (now : ℕ)
      → IsSound o pairs g.cache
      → IsSound o pairs (count_pairs F o pairs g ps now).cache
  unfolding count_pairs
  count_pairs-IsSound g [] now v = v
  count_pairs-IsSound g ((a, b) ∷ ps) now v =
      count_pairs-IsSound (count_pair F o pairs g a b now) ps now
        (count_pair_lem F o pairs g a b now a b v).2

  decay_edges-IsSound :
      (config : GraphConfig W) (c : Cache K W V) (es : Dict (K × K) (W × ℕ)) (now : ℕ)
      → IsSound o pairs c
      → IsSound o pairs (decay_edges F o pairs config c es now)
  unfolding decay_edges
  decay_edges-IsSound config c [] now v = v
  decay_edges-IsSound config c (((src, dst), (w, at)) ∷ es) now v =
      let new_weight = F.product w config.edge_decay in
      decay_edges-IsSound config
        (if F.less new_weight config.prune_threshold
          then remove_edge o pairs c src dst
          else set_edge o pairs c src dst new_weight true none now)
        es now (changed new_weight)
    where
      changed :
          (x : W)
          → IsSound o pairs (
              if F.less x config.prune_threshold
              then remove_edge o pairs c src dst
              else set_edge o pairs c src dst x true none now)
      changed x = elim (Bool-cases (F.less x config.prune_threshold)) [
        | inl e ↦ rw e (remove_edge-IsSound o pairs c src dst v)
        | inr e ↦ rw e (set_edge-IsSound o pairs c src dst x true none now v)
      ]

  remove_edges-IsSound :
      (c : Cache K W V) (a : K) (ns : List K)
      → IsSound o pairs c
      → IsSound o pairs (remove_edges o pairs c a ns)
  unfolding remove_edges
  remove_edges-IsSound c a [] v = v
  remove_edges-IsSound c a (n ∷ ns) v =
      remove_edges-IsSound (remove_edge o pairs c a n) a ns (remove_edge-IsSound o pairs c a n v)

  cap_node-IsSound :
      (bound : ℕ) (c : Cache K W V) (a : K)
      → IsSound o pairs c
      → IsSound o pairs (cap_node F o pairs bound c a)
  unfolding cap_node
  cap_node-IsSound bound c a v =
      let r = row o.dec c.graph_cache a in
      elim (Bool-cases (ltb bound (length r))) [
        | inl over ↦
            rw over (
              remove_edges-IsSound c a (keys (take (length r - bound) (sort_by_weight F.less r))) v)
        | inr under ↦ rw under v
      ]

  cap_nodes-IsSound :
      (bound : ℕ) (c : Cache K W V) (ids : List K)
      → IsSound o pairs c
      → IsSound o pairs (cap_nodes F o pairs bound c ids)
  unfolding cap_nodes
  cap_nodes-IsSound bound c [] v = v
  cap_nodes-IsSound bound c (a ∷ ids) v =
      cap_nodes-IsSound bound (cap_node F o pairs bound c a) ids (cap_node-IsSound bound c a v)

  pub set_edge-HasRows :
      (c : Cache K W V) (a b : K) (w : W) (now : ℕ)
      → HasRows o pairs c
      → HasRows o pairs (set_edge o pairs c a b w true none now)
  unfolding set_edge
  set_edge-HasRows c a b w now h x =
      let g = set_weight o.dec c.graph_cache a b w in
      ground (
        arith,
        h x,
        h a,
        h b,
        row-set_weight o g b a w x,
        row-set_weight o c.graph_cache a b w x,
        row-set_weight o c.graph_cache a b w b,
        insert-Distinct o.dec b w (row o.dec c.graph_cache a) (h a),
        insert-Distinct o.dec a w (row o.dec g b),
      )

  decay_edges-HasRows :
      (config : GraphConfig W) (c : Cache K W V) (es : Dict (K × K) (W × ℕ)) (now : ℕ)
      → HasRows o pairs c
      → HasRows o pairs (decay_edges F o pairs config c es now)
  unfolding decay_edges
  decay_edges-HasRows config c [] now h = h
  decay_edges-HasRows config c (((src, dst), (w, at)) ∷ es) now h =
      let new_weight = F.product w config.edge_decay in
      decay_edges-HasRows config
        (if F.less new_weight config.prune_threshold
          then remove_edge o pairs c src dst
          else set_edge o pairs c src dst new_weight true none now)
        es now (changed new_weight)
    where
      changed :
          (x : W)
          → HasRows o pairs (
              if F.less x config.prune_threshold
              then remove_edge o pairs c src dst
              else set_edge o pairs c src dst x true none now)
      changed x = elim (Bool-cases (F.less x config.prune_threshold)) [
        | inl e ↦ rw e (remove_edge-HasRows o pairs c src dst h)
        | inr e ↦ rw e (set_edge-HasRows c src dst x now h)
      ]

  -- On a sound cache whose rows hold no neighbour twice, `update_cooccurrence` of any ids keeps the
  -- cache sound, and so does a whole `decay_and_prune`, after which every node has at most
  -- `max_degree` neighbours.
  pub maintenance_keeps_IsSound :
      (g : CooccurrenceGraph K W V) (result_ids : List K) (now : ℕ) (x : K)
      → IsSound o pairs g.cache
      → HasRows o pairs g.cache
      → IsSound o pairs (update_cooccurrence F o pairs g result_ids now).cache
        × IsSound o pairs (decay_and_prune F o pairs g now).cache
        × (degree o pairs (decay_and_prune F o pairs g now).cache x ≤ g.config.max_degree)
  unfolding update_cooccurrence decay_and_prune enforce_degree_cap
  maintenance_keeps_IsSound g result_ids now x v h =
      let edges = get_all_edges o pairs g.cache now in
      let c = decay_edges F o pairs g.config g.cache edges now in
      (
        count_pairs-IsSound g (combinations result_ids) now v,
        cap_nodes-IsSound g.config.max_degree c (keys c.graph_cache)
            (decay_edges-IsSound g.config g.cache edges now v),
        (enforce_degree_cap_lem F o pairs (record g { cache = c }) x
            (decay_edges-HasRows g.config g.cache edges now h)).0,
      )
