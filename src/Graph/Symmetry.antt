-- ===== src/Graph/Symmetry.antt =====
-- Both rows of an edge agree, whatever is set, removed or evicted.
use ga_ottt.Base.{◌≡◌, none, ite, arith}
use ga_ottt.Graph.{Graph, weight, set_weight, pop_weight, evict_rows}
use ga_ottt.Graph.Weights.{weight-set_weight, weight-pop_weight, weight-evict_rows}

module _ {K W : Type 0} (dec : Discrete K) where
  abbrev pub IsSymmetric : Graph K W → Type 0
  IsSymmetric g = (x y : K) → weight dec g x y ≡ weight dec g y x

  pub set_weight-IsSymmetric :
      (g : Graph K W) (a b : K) (w : W)
      → IsSymmetric g
      → IsSymmetric (set_weight dec (set_weight dec g a b w) b a w)
  set_weight-IsSymmetric g a b w s x y = ground (
    arith,
    s x y,
    weight-set_weight dec (set_weight dec g a b w) b a w x y,
    weight-set_weight dec (set_weight dec g a b w) b a w y x,
    weight-set_weight dec g a b w x y,
    weight-set_weight dec g a b w y x,
  )

  pub pop_weight-IsSymmetric :
      (g : Graph K W) (a b : K)
      → IsSymmetric g
      → IsSymmetric (pop_weight dec (pop_weight dec g a b) b a)
  pop_weight-IsSymmetric g a b s x y = ground (
    arith,
    s x y,
    weight-pop_weight dec (pop_weight dec g a b) b a x y,
    weight-pop_weight dec (pop_weight dec g a b) b a y x,
    weight-pop_weight dec g a b x y,
    weight-pop_weight dec g a b y x,
  )

  -- With both rows in step, an eviction removes exactly the edges of the node.
  pub weight-evict_symmetric :
      (g : Graph K W) (k x y : K)
      → IsSymmetric g
      → weight dec (evict_rows dec g k) x y
        ≡ ite (dec k x) none (ite (dec k y) none (weight dec g x y))
  weight-evict_symmetric g k x y s =
      ground (arith, s k x, s k y, s x y, weight-evict_rows dec g k x y)

  pub evict_rows-IsSymmetric :
      (g : Graph K W) (k : K) → IsSymmetric g → IsSymmetric (evict_rows dec g k)
  evict_rows-IsSymmetric g k s x y =
      ground (arith, s x y, weight-evict_symmetric g k x y s, weight-evict_symmetric g k y x s)
