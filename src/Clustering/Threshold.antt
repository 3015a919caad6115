-- ===== src/Clustering/Threshold.antt =====
-- The pairs that `cluster_by_similarity` finds are pairs of its ids, so that its fuel is enough.
use ga_ottt.Base.{
  suc, ◌≡◌, ◌↔◌, Bool, true, some, List, [], ◌∷◌, ◌++◌, ◌⊎◌, inl, inr, arith, length, All,
}
use ga_ottt.Dict.{Dict, has}
use ga_ottt.Clustering.{pairs_with, similar_pairs, similar_groups}
use ga_ottt.Clustering.Connected.{Joins, Connected, edge, same, back, through}
use ga_ottt.Clustering.Similar.{Within, Together, raw_groups-IsPartition}

module _ {A : Type 0} (dec : Discrete A) where
  Within-append :
      (ids : List A) (ps qs : List (A × A))
      → Within dec ids ps
      → Within dec ids qs
      → Within dec ids (ps ++ qs)
  Within-append ids [] qs p q = q
  Within-append ids (e ∷ ps) qs (h, p) q = (h, Within-append ids ps qs p q)

  pairs_with-Within :
      (similar : A → A → Bool) (ids : List A) (x : A) (ys : List A)
      → has dec x ids ≡ true
      → All (λ y. has dec y ids ≡ true) ys
      → Within dec ids (pairs_with similar x ys)
  unfolding pairs_with
  pairs_with-Within similar ids x [] there inside = tt
  pairs_with-Within similar ids x (y ∷ ys) there (here, inside) =
      ground (arith, pairs_with-Within similar ids x ys there inside)

  similar_pairs-Within :
      (similar : A → A → Bool) (ids xs : List A)
      → All (λ x. has dec x ids ≡ true) xs
      → Within dec ids (similar_pairs similar xs)
  unfolding similar_pairs
  similar_pairs-Within similar ids [] inside = tt
  similar_pairs-Within similar ids (x ∷ xs) (here, inside) =
      Within-append ids (pairs_with similar x xs) (similar_pairs similar xs)
        (pairs_with-Within similar ids x xs here inside)
        (similar_pairs-Within similar ids xs inside)

  members_there :
      (ids xs : List A)
      → ((x : A) → has dec x xs ≡ true → has dec x ids ≡ true)
      → All (λ x. has dec x ids ≡ true) xs
  unfolding has
  members_there ids [] inside = tt
  members_there ids (x ∷ xs) inside =
      (inside x (ground arith), members_there ids xs (λ y there. inside y (ground arith)))

  -- Does `x` stand before `y` in the list?
  abbrev pub Before : List A → A → A → Type 0
  Before [] x y = ⊥
  Before (z ∷ zs) x y = ((x ≡ z) × (has dec y zs ≡ true)) ⊎ Before zs x y

  -- The smallest equivalence relation in which two ids are related when their similarity, asked for
  -- in the order of the list, reaches the threshold.
  pub data Linked (similar : A → A → Bool) (ids : List A) : A → A → Type 0 where
    near : {x y : A} → Before ids x y → similar x y ≡ true → Linked similar ids x y
    stay : {x : A} → Linked similar ids x x
    turn : {x y : A} → Linked similar ids x y → Linked similar ids y x
    chain : {x y z : A} → Linked similar ids x y → Linked similar ids y z → Linked similar ids x z

  Joins-append :
      (ps qs : List (A × A)) (x y : A) → Joins (ps ++ qs) x y ↔ (Joins ps x y ⊎ Joins qs x y)
  Joins-append [] qs x y = (inr, λ j. elim j [ inl l ↦ elim l [ ] | inr r ↦ r ])
  Joins-append (e ∷ ps) qs x y = ground (arith, Joins-append ps qs x y)

  Joins-pairs_with :
      (similar : A → A → Bool) (x : A) (ys : List A) (a b : A)
      → Joins (pairs_with similar x ys) a b
        ↔ ((a ≡ x) × (has dec b ys ≡ true) × (similar a b ≡ true))
  unfolding pairs_with has
  Joins-pairs_with similar x [] a b = ground arith
  Joins-pairs_with similar x (y ∷ ys) a b = ground (arith, Joins-pairs_with similar x ys a b)

  Joins-similar_pairs :
      (similar : A → A → Bool) (ids : List A) (a b : A)
      → Joins (similar_pairs similar ids) a b ↔ (Before ids a b × (similar a b ≡ true))
  unfolding similar_pairs
  Joins-similar_pairs similar [] a b = ground arith
  Joins-similar_pairs similar (x ∷ xs) a b = ground (
    arith,
    Joins-append (pairs_with similar x xs) (similar_pairs similar xs) a b,
    Joins-pairs_with similar x xs a b,
    Joins-similar_pairs similar xs a b,
  )

  Connected-Linked :
      (similar : A → A → Bool) (ids : List A) (x y : A)
      → Connected (similar_pairs similar ids) x y
      → Linked similar ids x y
  Connected-Linked similar ids x y (edge j) =
      let (before, close) = (Joins-similar_pairs similar ids x y).0 j in near before close
  Connected-Linked similar ids x y same = stay
  Connected-Linked similar ids x y (back c) = turn (Connected-Linked similar ids y x c)
  Connected-Linked similar ids x y (through {y = z} c d) =
      chain (Connected-Linked similar ids x z c) (Connected-Linked similar ids z y d)

  Linked-Connected :
      (similar : A → A → Bool) (ids : List A) (x y : A)
      → Linked similar ids x y
      → Connected (similar_pairs similar ids) x y
  Linked-Connected similar ids x y (near before close) =
      edge ((Joins-similar_pairs similar ids x y).1 (before, close))
  Linked-Connected similar ids x y stay = same
  Linked-Connected similar ids x y (turn c) = back (Linked-Connected similar ids y x c)
  Linked-Connected similar ids x y (chain {y = z} c d) =
      through (Linked-Connected similar ids x z c) (Linked-Connected similar ids z y d)

  -- For two ids of the list, the grouping by similarity ends with groups, and the two ids stand in
  -- one group exactly if the smallest equivalence relates them in which an id and a later one of
  -- the list are related when their similarity reaches the threshold.
  pub similar_groups-Linked :
      (similar : A → A → Bool) (ids : List A) (x y : A)
      → has dec x ids ≡ true
      → has dec y ids ≡ true
      → (out : Dict A (List A)) × (similar_groups dec similar ids ≡ some out)
        × (Together dec out x y ↔ Linked similar ids x y)
  unfolding similar_groups
  similar_groups-Linked similar ids x y there-x there-y =
      let (out, end, _, follows) =
        raw_groups-IsPartition dec (suc (length (similar_pairs similar ids))) ids
          (similar_pairs similar ids)
          (similar_pairs-Within similar ids ids (members_there ids ids (λ z there. there)))
          (omega arith) in
      let (to, from) = follows x y there-x there-y in
      (
        out,
        end,
        (
          λ t. Connected-Linked similar ids x y (to t),
          λ l. from (Linked-Connected similar ids x y l),
        ),
      )
