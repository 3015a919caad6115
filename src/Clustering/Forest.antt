-- ===== src/Clustering/Forest.antt =====
-- The loops of `find`: with more fuel than the forest is deep they end, at the root, and every node
-- keeps its root.
use ga_ottt.Base.{
  ℕ, zero, suc, ◌≤◌, ◌<◌, ◌≡◌, ◌≢◌, ◌⊎◌, ◌∙◌, sym, refl, ap, subst, inl, inr, Option, some, arith,
  or_else,
}
use ga_ottt.Dict.{Dict, lookup, insert}
use ga_ottt.Dict.Laws.{lookup-insert}
use ga_ottt.Clustering.{find_root, compress, find}

module _ {A : Type 0} (dec : Discrete A) where
  -- What a dictionary holds after one assignment.
  pub insert_cases :
      (x j v w : A) (p : Dict A A)
      → lookup dec j (insert dec x v p) ≡ some w
      → ((j ≡ x) × (w ≡ v)) ⊎ ((j ≢ x) × (lookup dec j p ≡ some w))
  insert_cases x j v w p e = ground (arith, lookup-insert dec x j v p)

  pub insert_other :
      (x j v : A) (p : Dict A A) → j ≢ x → lookup dec j (insert dec x v p) ≡ lookup dec j p
  insert_other x j v p ne = ground (arith, lookup-insert dec x j v p)

  pub insert_known :
      (x j v w : A) (p : Dict A A)
      → lookup dec j p ≡ some w
      → (z : A) × (lookup dec j (insert dec x v p) ≡ some z)
  insert_known x j v w p e = elim (dec x j) [
    | yes same ↦ (v, ground (arith, lookup-insert dec x j v p))
    | no other ↦ (w, ground (arith, lookup-insert dec x j v p))
  ]

  -- Every id of the dictionary `p` has a root, in at most `k` steps up.
  pub record Forest (p : Dict A A) (k : ℕ) (root : A → A) (depth : A → ℕ) : Type 0 where
    pub parent :
        (x y : A)
        → lookup dec x p ≡ some y
        → ((y ≡ x) × (root x ≡ x)) ⊎ ((depth y < depth x) × (root y ≡ root x))
    pub known : (x y : A) → lookup dec x p ≡ some y → (z : A) × (lookup dec y p ≡ some z)
    pub home : (x y : A) → lookup dec x p ≡ some y → lookup dec (root x) p ≡ some (root x)
    pub top : (x y : A) → lookup dec x p ≡ some y → depth (root x) ≡ 0
    pub low : (x y : A) → lookup dec x p ≡ some y → depth x ≤ k

  -- No id is lost.
  abbrev pub Grown : Dict A A → Dict A A → Type 0
  Grown p p' = (j w : A) → lookup dec j p ≡ some w → (z : A) × (lookup dec j p' ≡ some z)

  pub root-root :
      (p : Dict A A) (k : ℕ) (root : A → A) (depth : A → ℕ)
      → Forest p k root depth
      → (x y : A) → lookup dec x p ≡ some y
      → root (root x) ≡ root x
  root-root p k root depth f x y e = elim (f.parent (root x) (root x) (f.home x y e)) [
    | inl (_, same) ↦ same
    | inr (less, same) ↦ ground arith
  ]

  find_root_lem :
      (n : ℕ) (p : Dict A A) (k : ℕ) (root : A → A) (depth : A → ℕ)
      → Forest p k root depth
      → (x y : A) → lookup dec x p ≡ some y
      → depth x < n
      → find_root dec n p x ≡ some (root x)
  unfolding find_root
  find_root_lem zero p k root depth f x y e less = ground arith
  find_root_lem (suc n) p k root depth f x y e less =
      rw (find_root, e) (step (dec y x) (λ z e' down. find_root_lem n p k root depth f y z e' down))
    where
      step :
          (d : Dec (y ≡ x))
          → ((z : A) → lookup dec y p ≡ some z → depth y < n → find_root dec n p y ≡ some (root y))
          → elim d [ yes e ↦ some x | no e ↦ find_root dec n p y ] ≡ some (root x)
      step (yes same) above = elim (f.parent x y e) [
        | inl (_, here) ↦ ap some (sym here)
        | inr (down, _) ↦ ground (arith, ap depth same)
      ]
      step (no other) above = elim (f.parent x y e) [
        | inl (same, _) ↦ ground (arith, other same)
        | inr (down, same) ↦
            let (z, e') = f.known x y e in above z e' (omega (arith, down, less)) ∙ ap some same
      ]

  -- One step of the compression.
  compressed :
      (p : Dict A A) (k : ℕ) (root : A → A) (depth : A → ℕ) (x y : A)
      → Forest p k root depth
      → lookup dec x p ≡ some y
      → y ≢ root x
      → depth y < depth x
      → Forest (insert dec x (root x) p) k root depth
  compressed p k root depth x y f e ne down = record {
    parent = λ j w q. elim (insert_cases x j (root x) w p q) [
      | inl (here, to) ↦ inr (
        ground (arith, f.top x y e, ap depth here, ap depth to),
        ap root to ∙ root-root p k root depth f x y e ∙ ap root (sym here),
      )
      | inr (_, there) ↦ f.parent j w there
    ];
    known = λ j w q. elim (insert_cases x j (root x) w p q) [
      | inl (here, to) ↦
          subst (λ v. (z : A) × (lookup dec v (insert dec x (root x) p) ≡ some z)) (sym to)
            (insert_known x (root x) (root x) (root x) p (f.home x y e))
      | inr (_, there) ↦ let (z, q') = f.known j w there in insert_known x w (root x) z p q'
    ];
    home = λ j w q.
        let (v, q') = old j w q in
        insert_other x (root j) (root x) p (below j v q') ∙ f.home j v q';
    top = λ j w q. let (v, q') = old j w q in f.top j v q';
    low = λ j w q. let (v, q') = old j w q in f.low j v q';
  }
    where
      -- An id that is known now was known before.
      old :
          (j w : A)
          → lookup dec j (insert dec x (root x) p) ≡ some w
          → (v : A) × (lookup dec j p ≡ some v)
      old j w q = elim (insert_cases x j (root x) w p q) [
        | inl (here, to) ↦ (y, ap (λ i. lookup dec i p) here ∙ e)
        | inr (_, there) ↦ (w, there)
      ]

      -- The id that moves is no root.
      below : (j v : A) → lookup dec j p ≡ some v → root j ≢ x
      below j v q = λ same.
          let here = ap (λ i. lookup dec i p) (sym same) ∙ f.home j v q in
          ground (arith, ap (λ o. depth (or_else o x)) (sym e ∙ here ∙ ap some same))

  -- A run of the compression that ends, in a forest with the same roots.
  abbrev pub Compresses : Dict A A → ℕ → (A → A) → (A → ℕ) → Option (Dict A A) → Type 0
  Compresses p k root depth o =
      (p' : Dict A A) × (o ≡ some p') × Forest p' k root depth × Grown p p'

  compress_lem :
      (n : ℕ) (p : Dict A A) (k : ℕ) (root : A → A) (depth : A → ℕ)
      → Forest p k root depth
      → (x y : A) → lookup dec x p ≡ some y
      → depth x < n
      → Compresses p k root depth (compress dec n p x (root x))
  unfolding compress
  compress_lem zero p k root depth f x y e less = ground arith
  compress_lem (suc n) p k root depth f x y e less =
      rw (compress, e)
        (step (dec y (root x))
          (λ f' z e' down. compress_lem n (insert dec x (root x) p) k root depth f' y z e' down))
    where
      step :
          (d : Dec (y ≡ root x))
          → (Forest (insert dec x (root x) p) k root depth
              → (z : A) → lookup dec y (insert dec x (root x) p) ≡ some z
              → depth y < n
              → Compresses
                  (insert dec x (root x) p)
                  k
                  root
                  depth
                  (compress dec n (insert dec x (root x) p) y (root y)))
          → Compresses p k root depth (elim d [
            | yes q ↦ some p
            | no q ↦ compress dec n (insert dec x (root x) p) y (root x)
          ])
      step (yes q) above = (p, refl, f, λ j w there. (w, there))
      step (no q) above = elim (f.parent x y e) [
        | inl (same, here) ↦ ground (arith, q (same ∙ sym here))
        | inr (down, same) ↦
            let (v, known) = f.known x y e in
            let (z, e') = insert_known x y (root x) v p known in
            let f' = compressed p k root depth x y f e q down in
            let (p', end, f'', grown) = above f' z e' (omega (arith, down, less)) in
            (
              p',
              ap (λ r. compress dec n (insert dec x (root x) p) y r) (sym same) ∙ end,
              f'',
              λ j w there.
                  let (u, there') = insert_known x j (root x) w p there in grown j u there',
            )
      ]

  -- `find` ends with the root of an id, and no root changes.
  pub find_lem :
      (n : ℕ) (p : Dict A A) (k : ℕ) (root : A → A) (depth : A → ℕ)
      → Forest p k root depth
      → k < n
      → (x y : A) → lookup dec x p ≡ some y
      → (p' : Dict A A) × (find dec n p x ≡ some (p', root x)) × Forest p' k root depth × Grown p p'
  unfolding find
  find_lem n p k root depth f enough x y e =
      let less : depth x < n = omega (arith, f.low x y e, enough) in
      let (p', end, f', grown) = compress_lem n p k root depth f x y e less in
      (p', rw (find, find_root_lem n p k root depth f x y e less, end) refl, f', grown)
