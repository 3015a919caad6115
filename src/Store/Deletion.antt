-- ===== src/Store/Deletion.antt =====
-- A hard delete and the expiry, over the whole tables.
use Prim.Native.String.{String}
use ga_ottt.Base.{◌≡◌, Bool, ◌||◌, none, List, [], ◌∷◌, if◌then◌else◌, not, keep, arith}
use ga_ottt.Dict.{Dict, lookup, has}
use ga_ottt.Store.{Store, DirectedKey, hard_delete_nodes}

lookup-keep :
    {K A : Type 0} (dec : Discrete K) (p : K → Bool) (d : Dict K A) (k : K)
    → lookup dec k (keep (λ e. p e.0) d) ≡ (if p k then lookup dec k d else none)
unfolding lookup
lookup-keep dec p [] k = ground arith
lookup-keep dec p ((j, v) ∷ d) k = ground (arith, lookup-keep dec p d k)

module _ {K W V D : Type 0} (dec : Discrete K) (pairs : Discrete (K × K))
    (keyed : Discrete (DirectedKey K)) where
  -- A hard delete removes the rows of the given nodes, every undirected and every directed edge
  -- that touches one of them, and nothing else.
  pub hard_delete_nodes_lem :
      (st : Store K W V D) (ids : List K) (k a b : K) (t : String)
      → let st' = (hard_delete_nodes dec st ids).0 in
        (lookup dec k st'.nodes ≡ (if has dec k ids then none else lookup dec k st.nodes))
        × (lookup pairs (a, b) st'.edges
            ≡ (if has dec a ids || has dec b ids then none else lookup pairs (a, b) st.edges))
        × (lookup keyed (a, b, t) st'.directed_edges ≡ (
            if has dec a ids || has dec b ids
            then none
            else lookup keyed (a, b, t) st.directed_edges))
  unfolding hard_delete_nodes
  hard_delete_nodes_lem st ids k a b t = (
    ground (arith, lookup-keep dec (λ j. not (has dec j ids)) st.nodes k),
    ground
        (arith, lookup-keep pairs (λ p. not (has dec p.0 ids || has dec p.1 ids)) st.edges (a, b)),
    ground (
      arith,
      lookup-keep keyed (λ p. not (has dec p.0 ids || has dec p.1 ids)) st.directed_edges (a, b, t),
    ),
  )
