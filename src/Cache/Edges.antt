-- ===== src/Cache/Edges.antt =====
-- The undirected edges of a `CacheLayer`: both rows agree, and each edge has its timestamp.
use ga_ottt.Base.{
  ℕ, ◌≡◌, ◌≢◌, refl, Bool, false, ◌||◌, Option, none, some, List, [], ◌∷◌, ite, arith, or_else,
  if◌then◌else◌, is_some,
}
use mathlib.Core.Logic.{if_pos, if_neg}
use ga_ottt.Dict.{Dict, keys, lookup, erase, has}
use ga_ottt.Dict.Laws.{lookup-insert, lookup-erase, has-keys}
use ga_ottt.Dict.Order.{Order, sorted_pair, sorted_pair_comm, sorted_pair_inj}
use ga_ottt.Graph.{row, weight, set_weight, pop_weight, evict_rows}
use ga_ottt.Graph.Weights.{weight-set_weight, weight-pop_weight}
use ga_ottt.Graph.Symmetry.{
  IsSymmetric, set_weight-IsSymmetric, pop_weight-IsSymmetric, evict_rows-IsSymmetric,
  weight-evict_symmetric,
}
use ga_ottt.Cache.{Cache, set_edge, remove_edge, evict_node, pop_times, reset}
use ga_ottt.Node.{Floats}

module _ {K : Type 0} (o : Order K) (pairs : Discrete (K × K)) where
  -- Two pairs of nodes name one edge if they are the same or swapped.
  ite-sorted_pair :
      {A : Type 0} (s d a b : K) (x y : A)
      → ite (pairs (sorted_pair o s d) (sorted_pair o a b)) x y
        ≡ ite
            (o.dec s a)
            (ite (o.dec d b) x (ite (o.dec s b) (ite (o.dec d a) x y) y))
            (ite (o.dec s b) (ite (o.dec d a) x y) y)
  ite-sorted_pair s d a b x y = elim (pairs (sorted_pair o s d) (sorted_pair o a b)) [
    | yes e ↦ rw (if_pos _ e) (ground (arith, sorted_pair_inj o s d a b e))
    | no n ↦ rw (if_neg _ n) (different s d a b x y n)
  ]
    where
      different :
          {A : Type 0} (s d a b : K) (x y : A)
          → sorted_pair o s d ≢ sorted_pair o a b
          → y
            ≡ ite
                (o.dec s a)
                (ite (o.dec d b) x (ite (o.dec s b) (ite (o.dec d a) x y) y))
                (ite (o.dec s b) (ite (o.dec d a) x y) y)
      different s d a b x y n = ground (arith, sorted_pair_comm o s d, n)

module _ {K W V : Type 0} (o : Order K) (pairs : Discrete (K × K)) where
  -- Both rows of every edge agree, and exactly the edges have a timestamp.
  pub record IsSound (c : Cache K W V) : Type 0 where
    pub symmetric : IsSymmetric o.dec c.graph_cache
    pub timed :
        (a b : K)
        → is_some (lookup pairs (sorted_pair o a b) c.edge_last_update)
          ≡ is_some (weight o.dec c.graph_cache a b)

  pub weight-set_edge :
      (c : Cache K W V) (src dst : K) (w : W) (dirty : Bool) (at : Option ℕ) (now : ℕ) (a b : K)
      → weight o.dec (set_edge o pairs c src dst w dirty at now).graph_cache a b
        ≡ ite
            (pairs (sorted_pair o src dst) (sorted_pair o a b))
            (some w)
            (weight o.dec c.graph_cache a b)
  unfolding set_edge
  weight-set_edge c src dst w dirty at now a b = ground (
    arith,
    ite-sorted_pair o pairs src dst a b (some w) (weight o.dec c.graph_cache a b),
    weight-set_weight o.dec (set_weight o.dec c.graph_cache src dst w) dst src w a b,
    weight-set_weight o.dec c.graph_cache src dst w a b,
  )

  pub weight-remove_edge :
      (c : Cache K W V) (src dst a b : K)
      → weight o.dec (remove_edge o pairs c src dst).graph_cache a b
        ≡ ite
            (pairs (sorted_pair o src dst) (sorted_pair o a b))
            none
            (weight o.dec c.graph_cache a b)
  unfolding remove_edge
  weight-remove_edge c src dst a b = ground (
    arith,
    ite-sorted_pair o pairs src dst a b none (weight o.dec c.graph_cache a b),
    weight-pop_weight o.dec (pop_weight o.dec c.graph_cache src dst) dst src a b,
    weight-pop_weight o.dec c.graph_cache src dst a b,
  )

  pub set_edge-IsSound :
      (c : Cache K W V) (src dst : K) (w : W) (dirty : Bool) (at : Option ℕ) (now : ℕ)
      → IsSound c
      → IsSound (set_edge o pairs c src dst w dirty at now)
  unfolding set_edge
  set_edge-IsSound c src dst w dirty at now v = record {
    symmetric = set_weight-IsSymmetric o.dec c.graph_cache src dst w v.symmetric;
    timed = λ a b. ground (
      arith,
      v.timed a b,
      weight-set_edge c src dst w dirty at now a b,
      lookup-insert pairs (sorted_pair o src dst) (sorted_pair o a b) (or_else at now)
          c.edge_last_update,
    );
  }

  pub remove_edge-IsSound :
      (c : Cache K W V) (src dst : K) → IsSound c → IsSound (remove_edge o pairs c src dst)
  unfolding remove_edge
  remove_edge-IsSound c src dst v = record {
    symmetric = pop_weight-IsSymmetric o.dec c.graph_cache src dst v.symmetric;
    timed = λ a b. ground (
      arith,
      v.timed a b,
      weight-remove_edge c src dst a b,
      lookup-erase pairs (sorted_pair o src dst) (sorted_pair o a b) c.edge_last_update,
    );
  }

  pub weight-evict_node :
      (c : Cache K W V) (id a b : K)
      → IsSound c
      → weight o.dec (evict_node o pairs c id).graph_cache a b
        ≡ ite (o.dec id a) none (ite (o.dec id b) none (weight o.dec c.graph_cache a b))
  unfolding evict_node
  weight-evict_node c id a b v = weight-evict_symmetric o.dec c.graph_cache id a b v.symmetric

module _ {K : Type 0} (o : Order K) (pairs : Discrete (K × K)) where
  pub sorted_key : (a b : K) → (if o.lt a b then (a, b) else (b, a)) ≡ sorted_pair o a b
  unfolding sorted_pair
  sorted_key a b = ground (arith, o.lt_asymm a b, o.lt_asymm b a, o.lt_total a b)

  -- Is the pair one of the edges between the node and the others?
  touched : K → List K → K → K → Bool
  touched id others a b =
      ite (o.dec id a) (has o.dec b others) false || ite (o.dec id b) (has o.dec a others) false

  lookup-pop_times :
      (times : Dict (K × K) ℕ) (id : K) (others : List K) (a b : K)
      → lookup pairs (sorted_pair o a b) (pop_times o pairs times id others)
        ≡ (if touched id others a b then none else lookup pairs (sorted_pair o a b) times)
  unfolding pop_times touched has
  lookup-pop_times times id [] a b = ground arith
  lookup-pop_times times id (other ∷ others) a b = rw (sorted_key id other) (
      ground (
        arith,
        lookup-pop_times (erase pairs (sorted_pair o id other) times) id others a b,
        lookup-erase pairs (sorted_pair o id other) (sorted_pair o a b) times,
        ite-sorted_pair o pairs id other a b none (lookup pairs (sorted_pair o a b) times),
      ))

module _ {K W V : Type 0} (o : Order K) (pairs : Discrete (K × K)) where
  evict_timed :
      (c : Cache K W V) (id a b : K)
      → IsSound o pairs c
      → is_some (
          lookup pairs
            (sorted_pair o a b)
            (pop_times o pairs c.edge_last_update id (keys (row o.dec c.graph_cache id))))
        ≡ is_some (weight o.dec (evict_rows o.dec c.graph_cache id) a b)
  unfolding touched weight
  evict_timed c id a b v = ground (
    arith,
    v.timed a b,
    v.symmetric id a,
    v.symmetric id b,
    lookup-pop_times o pairs c.edge_last_update id (keys (row o.dec c.graph_cache id)) a b,
    has-keys o.dec a (row o.dec c.graph_cache id),
    has-keys o.dec b (row o.dec c.graph_cache id),
    weight-evict_symmetric o.dec c.graph_cache id a b v.symmetric,
  )

  pub evict_node-IsSound :
      (c : Cache K W V) (id : K) → IsSound o pairs c → IsSound o pairs (evict_node o pairs c id)
  unfolding evict_node
  evict_node-IsSound c id v = record {
    symmetric = evict_rows-IsSymmetric o.dec c.graph_cache id v.symmetric;
    timed = λ a b. evict_timed c id a b v;
  }

  -- On a sound cache, `set_edge`, `remove_edge`, `evict_node` and `reset` give a sound cache: both
  -- rows of every edge agree, and exactly the edges have a timestamp.
  pub operations-IsSound :
      (F : Floats W) (c : Cache K W V) (a b : K) (w : W) (dirty : Bool) (at : Option ℕ) (now : ℕ)
      → IsSound o pairs c
      → IsSound o pairs (set_edge o pairs c a b w dirty at now)
        × IsSound o pairs (remove_edge o pairs c a b)
        × IsSound o pairs (evict_node o pairs c a)
        × IsSound o pairs (reset o pairs F c now)
  unfolding reset weight row lookup
  operations-IsSound F c a b w dirty at now v = (
    set_edge-IsSound o pairs c a b w dirty at now v,
    remove_edge-IsSound o pairs c a b v,
    evict_node-IsSound c a v,
    record { symmetric = λ x y. refl; timed = λ x y. refl },
  )

  -- What each operation makes of the edge between any two nodes of a sound cache: `set_edge` writes
  -- exactly its own edge, in either order of the two ids, `remove_edge` deletes exactly that one,
  -- and `evict_node` deletes exactly the edges of the evicted node.
  pub weight_after_change :
      (c : Cache K W V) (src dst : K) (w : W) (dirty : Bool) (at : Option ℕ) (now : ℕ) (a b : K)
      → IsSound o pairs c
      → (weight o.dec (set_edge o pairs c src dst w dirty at now).graph_cache a b
          ≡ ite
              (pairs (sorted_pair o src dst) (sorted_pair o a b))
              (some w)
              (weight o.dec c.graph_cache a b))
        × (weight o.dec (remove_edge o pairs c src dst).graph_cache a b
            ≡ ite
                (pairs (sorted_pair o src dst) (sorted_pair o a b))
                none
                (weight o.dec c.graph_cache a b))
        × (weight o.dec (evict_node o pairs c src).graph_cache a b
            ≡ ite (o.dec src a) none (ite (o.dec src b) none (weight o.dec c.graph_cache a b)))
  weight_after_change c src dst w dirty at now a b v = (
    weight-set_edge o pairs c src dst w dirty at now a b,
    weight-remove_edge o pairs c src dst a b,
    weight-evict_node o pairs c src a b v,
  )
