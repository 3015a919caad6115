-- ===== src/Cooccurrence/Rows.antt =====
-- The neighbours of a node as edges are removed: their number falls, and none stands twice.
use ga_ottt.Base.{
  ℕ, ◌+◌, ◌≤◌, ◌<◌, ◌≡◌, ◌≢◌, true, false, List, [], ◌∷◌, ite, arith, length, All, Option-cases,
  inl, inr,
}
use ga_ottt.Dict.{keys, lookup, erase, has}
use ga_ottt.Dict.Laws.{Distinct, has-keys, lookup-erase, length-erase-le, length-erase-lt}
use ga_ottt.Dict.Unique.{erase-Distinct}
use ga_ottt.Dict.Order.{Order}
use ga_ottt.Graph.{Graph, row}
use ga_ottt.Graph.Weights.{row-pop_weight}
use ga_ottt.Graph
use ga_ottt.Cache.{Cache, remove_edge}
use ga_ottt.Cooccurrence.{remove_edges}

module _ {K W V : Type 0} (o : Order K) (pairs : Discrete (K × K)) where
  abbrev pub degree : Cache K W V → K → ℕ
  degree c x = length (row o.dec c.graph_cache x)

  -- A row is a `dict`: no neighbour twice.
  abbrev pub HasRows : Cache K W V → Type 0
  HasRows c = (x : K) → Distinct o.dec (keys (row o.dec c.graph_cache x))

  pub row-remove_edge :
      (c : Cache K W V) (a b x : K)
      → row o.dec (remove_edge o pairs c a b).graph_cache x
        ≡ ite
            (o.dec b x)
            (erase o.dec a (
              ite
                (o.dec a x)
                (erase o.dec b (row o.dec c.graph_cache x))
                (row o.dec c.graph_cache x)))
            (ite
              (o.dec a x)
              (erase o.dec b (row o.dec c.graph_cache x))
              (row o.dec c.graph_cache x))
  unfolding remove_edge
  row-remove_edge c a b x = ground (
    arith,
    row-pop_weight o.dec (Graph.pop_weight o.dec c.graph_cache a b) b a x,
    row-pop_weight o.dec c.graph_cache a b x,
  )

  pub degree-remove_edge-le :
      (c : Cache K W V) (a b x : K) → degree (remove_edge o pairs c a b) x ≤ degree c x
  degree-remove_edge-le c a b x =
      let r = row o.dec c.graph_cache x in
      ground (
        arith,
        row-remove_edge c a b x,
        length-erase-le o.dec b r,
        length-erase-le o.dec a r,
        length-erase-le o.dec a (erase o.dec b r),
      )

  pub remove_edge-HasRows :
      (c : Cache K W V) (a b : K) → HasRows c → HasRows (remove_edge o pairs c a b)
  remove_edge-HasRows c a b h x =
      let r = row o.dec c.graph_cache x in
      ground (
        arith,
        h x,
        row-remove_edge c a b x,
        erase-Distinct o.dec b r,
        erase-Distinct o.dec a r,
        erase-Distinct o.dec a (erase o.dec b r),
      )

  pub degree-remove_edge_lt :
      (c : Cache K W V) (a b : K)
      → has o.dec b (keys (row o.dec c.graph_cache a)) ≡ true
      → degree (remove_edge o pairs c a b) a < degree c a
  degree-remove_edge_lt c a b h = elim (Option-cases (lookup o.dec b (row o.dec c.graph_cache a))) [
    | inl e ↦ absurd (ground (arith, e, h, has-keys o.dec b (row o.dec c.graph_cache a)))
    | inr (w, e) ↦
        let r = row o.dec c.graph_cache a in
        ground (
          arith,
          row-remove_edge c a b a,
          length-erase-lt o.dec b w r e,
          length-erase-le o.dec a (erase o.dec b r),
        )
  ]

  pub has-remove_edge :
      (c : Cache K W V) (a b k : K)
      → b ≢ k
      → has o.dec k (keys (row o.dec c.graph_cache a)) ≡ true
      → has o.dec k (keys (row o.dec (remove_edge o pairs c a b).graph_cache a)) ≡ true
  has-remove_edge c a b k ne h =
      let r = row o.dec c.graph_cache a in
      ground (
        arith,
        row-remove_edge c a b a,
        has-keys o.dec k r,
        has-keys o.dec k (row o.dec (remove_edge o pairs c a b).graph_cache a),
        lookup-erase o.dec b k r,
        lookup-erase o.dec a k (erase o.dec b r),
      )

  abbrev pub Neighbors : Cache K W V → K → List K → Type 0
  Neighbors c a ns = All (λ n. has o.dec n (keys (row o.dec c.graph_cache a)) ≡ true) ns

  pub remove_edge-Neighbors :
      (c : Cache K W V) (a b : K) (ns : List K)
      → has o.dec b ns ≡ false
      → Neighbors c a ns
      → Neighbors (remove_edge o pairs c a b) a ns
  unfolding has
  remove_edge-Neighbors c a b [] h all = tt
  remove_edge-Neighbors c a b (n ∷ ns) h all = (
    has-remove_edge c a b n (λ e. ground arith) all.0,
    remove_edge-Neighbors c a b ns (ground arith) all.1,
  )

  pub degree-remove_edges :
      (c : Cache K W V) (a : K) (ns : List K)
      → Distinct o.dec ns
      → Neighbors c a ns
      → degree (remove_edges o pairs c a ns) a + length ns ≤ degree c a
  unfolding remove_edges
  degree-remove_edges c a [] d all = omega arith
  degree-remove_edges c a (n ∷ ns) d all = omega (
    arith,
    degree-remove_edges (remove_edge o pairs c a n) a ns d.1
        (remove_edge-Neighbors c a n ns d.0 all.1),
    degree-remove_edge_lt c a n all.0,
  )

  pub degree-remove_edges-le :
      (c : Cache K W V) (a : K) (ns : List K) (x : K)
      → degree (remove_edges o pairs c a ns) x ≤ degree c x
  unfolding remove_edges
  degree-remove_edges-le c a [] x = omega arith
  degree-remove_edges-le c a (n ∷ ns) x = omega (
    arith,
    degree-remove_edges-le (remove_edge o pairs c a n) a ns x,
    degree-remove_edge-le c a n x,
  )

  pub remove_edges-HasRows :
      (c : Cache K W V) (a : K) (ns : List K) → HasRows c → HasRows (remove_edges o pairs c a ns)
  unfolding remove_edges
  remove_edges-HasRows c a [] h = h
  remove_edges-HasRows c a (n ∷ ns) h =
      remove_edges-HasRows (remove_edge o pairs c a n) a ns (remove_edge-HasRows c a n h)

  pub members :
      (c : Cache K W V) (a : K) (ns : List K)
      → ((n : K) → has o.dec n ns ≡ true → has o.dec n (keys (row o.dec c.graph_cache a)) ≡ true)
      → Neighbors c a ns
  unfolding has
  members c a [] h = tt
  members c a (n ∷ ns) h = (h n (ground arith), members c a ns (λ m e. h m (ground arith)))
