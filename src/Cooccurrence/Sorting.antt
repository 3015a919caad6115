-- ===== src/Cooccurrence/Sorting.antt =====
-- The sort by weight keeps the entries: the same keys, each once if each was there once.
use ga_ottt.Base.{
  ℕ, zero, suc, ◌≤◌, ◌≡◌, refl, Bool, true, false, List, [], ◌∷◌, ite, arith, length, take,
}
use ga_ottt.Dict.{Dict, keys, has}
use ga_ottt.Dict.Laws.{Distinct}
use ga_ottt.Cooccurrence.{insert_sorted, sort_by_weight}

module _ {K W : Type 0} (dec : Discrete K) (less : W → W → Bool) where
  has-insert_sorted :
      (k : K) (e : K × W) (d : Dict K W)
      → has dec k (keys (insert_sorted less e d)) ≡ ite (dec e.0 k) true (has dec k (keys d))
  unfolding insert_sorted has
  has-insert_sorted k e [] = refl
  has-insert_sorted k e (f ∷ fs) = ground (arith, has-insert_sorted k e fs)

  insert_sorted-Distinct :
      (e : K × W) (d : Dict K W)
      → has dec e.0 (keys d) ≡ false
      → Distinct dec (keys d)
      → Distinct dec (keys (insert_sorted less e d))
  unfolding insert_sorted has
  insert_sorted-Distinct e [] h v = (refl, tt)
  insert_sorted-Distinct e (f ∷ fs) h v =
      ground (arith, insert_sorted-Distinct e fs, has-insert_sorted f.0 e fs)

  length-insert_sorted :
      (e : K × W) (d : Dict K W) → length (insert_sorted less e d) ≡ suc (length d)
  unfolding insert_sorted
  length-insert_sorted e [] = refl
  length-insert_sorted e (f ∷ fs) = ground (arith, length-insert_sorted e fs)

  pub has-sort_by_weight :
      (k : K) (d : Dict K W) → has dec k (keys (sort_by_weight less d)) ≡ has dec k (keys d)
  unfolding sort_by_weight has
  has-sort_by_weight k [] = refl
  has-sort_by_weight k (e ∷ es) =
      ground (arith, has-sort_by_weight k es, has-insert_sorted k e (sort_by_weight less es))

  pub sort_by_weight-Distinct :
      (d : Dict K W) → Distinct dec (keys d) → Distinct dec (keys (sort_by_weight less d))
  unfolding sort_by_weight
  sort_by_weight-Distinct [] h = tt
  sort_by_weight-Distinct (e ∷ es) h =
      insert_sorted-Distinct e (sort_by_weight less es) (ground (arith, has-sort_by_weight e.0 es))
        (sort_by_weight-Distinct es h.1)

  pub length-sort_by_weight : (d : Dict K W) → length (sort_by_weight less d) ≡ length d
  unfolding sort_by_weight
  length-sort_by_weight [] = refl
  length-sort_by_weight (e ∷ es) =
      omega (arith, length-insert_sorted e (sort_by_weight less es), length-sort_by_weight es)

module _ {K W : Type 0} (dec : Discrete K) where
  pub has-take :
      (n : ℕ) (k : K) (d : Dict K W)
      → has dec k (keys (take n d)) ≡ true
      → has dec k (keys d) ≡ true
  unfolding has
  has-take zero k d h = cc
  has-take (suc n) k [] h = cc
  has-take (suc n) k (e ∷ es) h = ground (arith, has-take n k es)

  pub take-Distinct :
      (n : ℕ) (d : Dict K W) → Distinct dec (keys d) → Distinct dec (keys (take n d))
  take-Distinct zero d h = tt
  take-Distinct (suc n) [] h = tt
  take-Distinct (suc n) (e ∷ es) h = ground (arith, take-Distinct n es h.1, has-take n e.0 es)

pub length-take : {A : Type 0} (n : ℕ) (xs : List A) → n ≤ length xs → length (take n xs) ≡ n
length-take zero xs h = refl
length-take (suc n) [] h = absurd (omega arith)
length-take (suc n) (x ∷ xs) h = omega (arith, length-take n xs)
