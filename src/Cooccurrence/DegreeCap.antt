-- ===== src/Cooccurrence/DegreeCap.antt =====
-- After `_enforce_degree_cap` no node has more than `max_degree` neighbours.
use ga_ottt.Base.{
  ℕ, ◌-◌, ◌≤◌, ◌≡◌, refl, true, false, List, [], ◌∷◌, arith, length, take, ltb, subst, Bool-cases,
  inl, inr,
}
use ga_ottt.Dict.{Dict, keys, has}
use ga_ottt.Dict.Laws.{has-keys}
use ga_ottt.Dict.Order.{Order}
use ga_ottt.Graph.{row}
use ga_ottt.Node.{Floats}
use ga_ottt.Cache.{Cache}
use ga_ottt.Cooccurrence.{
  CooccurrenceGraph, sort_by_weight, cap_node, cap_nodes, enforce_degree_cap,
}
use ga_ottt.Cooccurrence.Sorting.{
  has-sort_by_weight, sort_by_weight-Distinct, length-sort_by_weight, has-take, take-Distinct,
  length-take,
}
use ga_ottt.Cooccurrence.Rows.{
  degree, HasRows, degree-remove_edges, degree-remove_edges-le, remove_edges-HasRows, members,
}

module _ {K W V : Type 0} (F : Floats W) (o : Order K) (pairs : Discrete (K × K)) where
  degree-cap_node :
      (bound : ℕ) (c : Cache K W V) (a : K)
      → HasRows o pairs c
      → degree o pairs (cap_node F o pairs bound c a) a ≤ bound
  unfolding cap_node
  degree-cap_node bound c a h = elim (Bool-cases (ltb bound (length r))) [
    | inl over ↦ rw over (
        omega (
          arith,
          degree-remove_edges o pairs c a (keys (take n (sort_by_weight F.less r)))
              (take-Distinct o.dec n (sort_by_weight F.less r)
                (sort_by_weight-Distinct o.dec F.less r (h a)))
              (members o pairs c a (keys (take n (sort_by_weight F.less r))) λ k e. ground (
                arith,
                has-take o.dec n k (sort_by_weight F.less r) e,
                has-sort_by_weight o.dec F.less k r,
              )),
          length-keys (take n (sort_by_weight F.less r)),
          length-take n (sort_by_weight F.less r)
              (omega (arith, length-sort_by_weight o.dec F.less r)),
        ))
    | inr under ↦ rw under (ground arith)
  ]
    where
      r : Dict K W
      r = row o.dec c.graph_cache a

      n : ℕ
      n = length r - bound

      length-keys : (d : Dict K W) → length (keys d) ≡ length d
      length-keys [] = refl
      length-keys (e ∷ es) = omega (arith, length-keys es)

  degree-cap_node-le :
      (bound : ℕ) (c : Cache K W V) (a x : K)
      → degree o pairs (cap_node F o pairs bound c a) x ≤ degree o pairs c x
  unfolding cap_node
  degree-cap_node-le bound c a x =
      let r = row o.dec c.graph_cache a in
      elim (Bool-cases (ltb bound (length r))) [
        | inl over ↦ rw over (
            degree-remove_edges-le o pairs c a
              (keys (take (length r - bound) (sort_by_weight F.less r))) x)
        | inr under ↦ rw under (omega arith)
      ]

  cap_node-HasRows :
      (bound : ℕ) (c : Cache K W V) (a : K)
      → HasRows o pairs c
      → HasRows o pairs (cap_node F o pairs bound c a)
  unfolding cap_node
  cap_node-HasRows bound c a h =
      let r = row o.dec c.graph_cache a in
      elim (Bool-cases (ltb bound (length r))) [
        | inl over ↦ rw over (
            remove_edges-HasRows o pairs c a
              (keys (take (length r - bound) (sort_by_weight F.less r))) h)
        | inr under ↦ rw under h
      ]

  degree-cap_nodes-le :
      (bound : ℕ) (c : Cache K W V) (ids : List K) (x : K)
      → degree o pairs (cap_nodes F o pairs bound c ids) x ≤ degree o pairs c x
  unfolding cap_nodes
  degree-cap_nodes-le bound c [] x = omega arith
  degree-cap_nodes-le bound c (a ∷ ids) x = omega (
    arith,
    degree-cap_nodes-le bound (cap_node F o pairs bound c a) ids x,
    degree-cap_node-le bound c a x,
  )

  degree-cap_nodes :
      (bound : ℕ) (c : Cache K W V) (ids : List K) (x : K)
      → HasRows o pairs c
      → has o.dec x ids ≡ true
      → degree o pairs (cap_nodes F o pairs bound c ids) x ≤ bound
  unfolding cap_nodes has
  degree-cap_nodes bound c [] x h m = cc
  degree-cap_nodes bound c (a ∷ ids) x h m = elim (o.dec a x) [
    | yes e ↦ omega (
      arith,
      degree-cap_nodes-le bound (cap_node F o pairs bound c a) ids x,
      subst (λ y. degree o pairs (cap_node F o pairs bound c a) y ≤ bound) e
          (degree-cap_node bound c a h),
    )
    | no n ↦
        degree-cap_nodes bound (cap_node F o pairs bound c a) ids x (cap_node-HasRows bound c a h)
          (ground arith)
  ]

  -- In a cache whose rows hold no neighbour twice, the cap leaves every node at most `max_degree`
  -- neighbours, and gives no node more neighbours than it had.
  pub enforce_degree_cap_lem :
      (g : CooccurrenceGraph K W V) (x : K)
      → HasRows o pairs g.cache
      → let after = (enforce_degree_cap F o pairs g).cache in
        (degree o pairs after x ≤ g.config.max_degree)
        × (degree o pairs after x ≤ degree o pairs g.cache x)
  unfolding enforce_degree_cap
  enforce_degree_cap_lem g x h = (
    elim (Bool-cases (has o.dec x (keys g.cache.graph_cache))) [
      | inl known ↦
          degree-cap_nodes g.config.max_degree g.cache (keys g.cache.graph_cache) x h known
      | inr new ↦ omega (
        arith,
        degree-cap_nodes-le g.config.max_degree g.cache (keys g.cache.graph_cache) x,
        absent new,
      )
    ],
    degree-cap_nodes-le g.config.max_degree g.cache (keys g.cache.graph_cache) x,
  )
    where
      absent : has o.dec x (keys g.cache.graph_cache) ≡ false → degree o pairs g.cache x ≡ 0
      absent new = unfold row in ground (arith, new, has-keys o.dec x g.cache.graph_cache)
