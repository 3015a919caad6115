-- ===== src/Diversity/Greedy.antt =====
-- What a greedy selection is, and that the two loops of `mmr_select` make one.
use ga_ottt.Base.{
  ℕ, zero, suc, ◌≡◌, ◌⊎◌, refl, inl, inr, true, false, Option, some, List, [], ◌∷◌, ◌++◌, arith,
  All, Bool-cases,
}
use ga_ottt.Diversity.{Scores, Pool, remove_first, add_key, score, scan}

module _ {A K F V : Type 0} (dec : Discrete A) (same_key : Discrete K) (o : Scores F V) where
  -- `b` stands in the list, above all before it, and nothing after it is above it.
  abbrev pub FirstBest : (A → F) → A → List A → Type 0
  FirstBest value b [] = ⊥
  FirstBest value b (x ∷ xs) =
      ((x ≡ b) × All (λ z. o.above (value z) (value b) ≡ false) xs)
      ⊎ ((o.above (value b) (value x) ≡ true) × FirstBest value b xs)

  -- Each pick is the first of the best among what is left, with the scores that the picks before it
  -- give; the picks end with the places or with the candidates.
  abbrev pub IsGreedy : ℕ → Pool A K F V → List A → List K → List A → List A → Type 0
  IsGreedy zero pool selected keys remaining picks = picks ≡ []
  IsGreedy (suc n) pool selected keys [] picks = picks ≡ []
  IsGreedy (suc n) pool selected keys (a ∷ remaining) picks =
      (b : A) × (rest : List A) × (picks ≡ b ∷ rest)
      × FirstBest (score dec same_key o pool selected keys) b (a ∷ remaining)
      × IsGreedy n pool (selected ++ b ∷ []) (add_key dec same_key o (pool.cluster_key_of b) keys)
          (remove_first dec b (a ∷ remaining)) rest

  -- `>` on floats that are no NaN, as a strict order.
  pub record StrictOrder : Type 0 where
    pub trans : (x y z : F) → o.above x y ≡ true → o.above y z ≡ true → o.above x z ≡ true
    pub split : (x y z : F) → o.above x z ≡ true → (o.above x y ≡ true) ⊎ (o.above y z ≡ true)

  module _ (order : StrictOrder) where
    pub scan_cases :
        (value : A → F) (best : Option A) (s : F) (xs : List A)
        → ((scan dec same_key o value best s xs ≡ best) × All (λ z. o.above (value z) s ≡ false) xs)
          ⊎ ((b : A) × (scan dec same_key o value best s xs ≡ some b)
              × FirstBest value b xs
              × (o.above (value b) s ≡ true))
    unfolding scan
    scan_cases value best s [] = inl (refl, tt)
    scan_cases value best s (x ∷ xs) = elim (Bool-cases (o.above (value x) s)) [
      | inl over ↦
          rw (scan, over)
            (elim (scan_cases value (some x) (value x) xs) [
              | inl (end, rest) ↦ inr (x, end, inl (refl, rest), over)
              | inr (b, end, first, up) ↦
                  inr (b, end, inr (up, first), order.trans (value b) (value x) s up over)
            ])
      | inr under ↦
          rw (scan, under)
            (elim (scan_cases value best s xs) [
              | inl (end, rest) ↦ inl (end, (refl, rest))
              | inr (b, end, first, up) ↦ inr (
                b,
                end,
                inr (
                  elim (order.split (value b) (value x) s up) [
                    | inl above ↦ above
                    | inr over ↦ ground (arith, under, over)
                  ],
                  first,
                ),
                up,
              )
            ])
    ]
