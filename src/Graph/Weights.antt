-- ===== src/Graph/Weights.antt =====
-- The weight of every pair after each change of the graph.
use ga_ottt.Base.{
  ◌≡◌, refl, none, some, List, [], ◌∷◌, ite, arith, if◌then◌else◌, Option-cases, inl, inr, is_some,
}
use ga_ottt.Dict.{keys, lookup, insert, erase, has}
use ga_ottt.Dict.Laws.{lookup_nil, lookup-insert, lookup-erase, has-keys}
use ga_ottt.Graph.{Graph, row, weight, set_weight, pop_weight, pop_weights, evict_rows}

module _ {K W : Type 0} (dec : Discrete K) where
  pub weight-set_weight :
      (g : Graph K W) (a b : K) (w : W) (x y : K)
      → weight dec (set_weight dec g a b w) x y
        ≡ ite (dec a x) (ite (dec b y) (some w) (weight dec g x y)) (weight dec g x y)
  unfolding weight set_weight
  weight-set_weight g a b w x y = ground (
    arith,
    lookup-insert dec a x (insert dec b w (row dec g a)) g,
    lookup-insert dec b y w (row dec g a),
  )

  pub weight-pop_weight :
      (g : Graph K W) (a b x y : K)
      → weight dec (pop_weight dec g a b) x y
        ≡ ite (dec a x) (ite (dec b y) none (weight dec g x y)) (weight dec g x y)
  unfolding weight
  weight-pop_weight g a b x y = elim (Option-cases (lookup dec a g)) [
    | inl e ↦ unfold pop_weight in rw (e, pop_weight) (ground (arith, lookup_nil {V = W} dec y))
    | inr (ns, e) ↦
        unfold pop_weight in
        rw (e, pop_weight)
          (ground (arith, lookup-insert dec a x (erase dec b ns) g, lookup-erase dec b y ns))
  ]

  pub weight-pop_weights :
      (g : Graph K W) (others : List K) (b x y : K)
      → weight dec (pop_weights dec g others b) x y
        ≡ (if has dec x others then ite (dec b y) none (weight dec g x y) else weight dec g x y)
  unfolding pop_weights has
  weight-pop_weights g [] b x y = refl
  weight-pop_weights g (a ∷ others) b x y =
      ground
        (arith, weight-pop_weights (pop_weight dec g a b) others b x y, weight-pop_weight g a b x y)

  weight-erase :
      (g : Graph K W) (k x y : K)
      → weight dec (erase dec k g) x y ≡ ite (dec k x) none (weight dec g x y)
  unfolding weight
  weight-erase g k x y = ground (arith, lookup-erase dec k x g, lookup_nil {V = W} dec y)

  pub weight-evict_rows :
      (g : Graph K W) (k x y : K)
      → weight dec (evict_rows dec g k) x y ≡ (
          if is_some (weight dec g k x)
          then ite (dec k y) none (ite (dec k x) none (weight dec g x y))
          else ite (dec k x) none (weight dec g x y))
  unfolding evict_rows weight
  weight-evict_rows g k x y = ground (
    arith,
    weight-pop_weights (erase dec k g) (keys (row dec g k)) k x y,
    weight-erase g k x y,
    has-keys dec x (row dec g k),
  )

  pub row-pop_weight :
      (g : Graph K W) (a b x : K)
      → row dec (pop_weight dec g a b) x ≡ ite (dec a x) (erase dec b (row dec g x)) (row dec g x)
  unfolding row pop_weight
  row-pop_weight g a b x = elim (Option-cases (lookup dec a g)) [
    | inl e ↦ rw (e, pop_weight) (unfold erase in ground (arith, e))
    | inr (ns, e) ↦ rw (e, pop_weight) (ground (arith, e, lookup-insert dec a x (erase dec b ns) g))
  ]
