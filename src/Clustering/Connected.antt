-- ===== src/Clustering/Connected.antt =====
-- The unions of all pairs: they end, and afterwards two ids have the same root exactly if the pairs
-- connect them.
use ga_ottt.Base.{
  ℕ, suc, ◌+◌, ◌≤◌, ◌≡◌, ◌⊎◌, ◌∙◌, sym, refl, ap, subst, inl, inr, Option, some, List, [], ◌∷◌,
  arith, length, All,
}
use ga_ottt.Dict.{Dict}
use ga_ottt.Clustering.{union_all}
use ga_ottt.Clustering.Forest.{Forest, Grown}
use ga_ottt.Clustering.Unions.{Known, moved, moved_root, moved_cases, union_lem}

-- Is `(x, y)` one of the pairs?
abbrev pub Joins : {A : Type 0} → List (A × A) → A → A → Type 0
Joins [] x y = ⊥
Joins ((a, b) ∷ pairs) x y = ((x ≡ a) × (y ≡ b)) ⊎ Joins pairs x y

-- The smallest equivalence relation that contains the pairs.
pub data Connected {A : Type 0} (pairs : List (A × A)) : A → A → Type 0 where
  edge : {x y : A} → Joins pairs x y → Connected pairs x y
  same : {x : A} → Connected pairs x x
  back : {x y : A} → Connected pairs x y → Connected pairs y x
  through : {x y z : A} → Connected pairs x y → Connected pairs y z → Connected pairs x z

module _ {A : Type 0} (dec : Discrete A) where
  -- Each id is connected with its root.
  abbrev pub Rooted : List (A × A) → (A → A) → Type 0
  Rooted pairs root = (x : A) → Connected pairs x (root x)

  -- After the pairs `done`, a forest whose roots are connected by `pairs` and put the ends of every
  -- pair of `done` together, and that parts nothing that `root` puts together.
  abbrev pub Unites :
      Dict A A → ℕ → List (A × A) → List (A × A) → (A → A) → Option (Dict A A) → Type 0
  Unites p k pairs done root o =
      (p' : Dict A A) × (root' : A → A) × (depth' : A → ℕ) × (o ≡ some p')
      × Forest dec p' k root' depth'
      × Grown dec p p'
      × Rooted pairs root'
      × All (λ e. root' e.0 ≡ root' e.1) done
      × ((x y : A) → root x ≡ root y → root' x ≡ root' y)

  moved_together :
      (root : A → A) (a b : A)
      → moved dec root (root a) (root b) a ≡ moved dec root (root a) (root b) b
  moved_together root a b = ground arith

  moved-Rooted :
      (pairs : List (A × A)) (root : A → A) (a b : A)
      → Connected pairs a b
      → Rooted pairs root
      → Rooted pairs (moved dec root (root a) (root b))
  moved-Rooted pairs root a b joined rooted x = elim (moved_cases dec root (root a) (root b) x) [
    | inl (at, to) ↦
        let x-b : Connected pairs x b =
          through (subst (λ r. Connected pairs x r) at (rooted x)) (back (rooted b)) in
        subst (λ r. Connected pairs x r) (sym to) (through x-b (through (back joined) (rooted a)))
    | inr (_, to) ↦ subst (λ r. Connected pairs x r) (sym to) (rooted x)
  ]

  All-Grown :
      (p p' : Dict A A) (done : List (A × A))
      → Grown dec p p'
      → All (λ e. Known dec p e.0 × Known dec p e.1) done
      → All (λ e. Known dec p' e.0 × Known dec p' e.1) done
  All-Grown p p' [] grown known = tt
  All-Grown p p' ((a, b) ∷ done) grown (((va, ea), (vb, eb)), known) =
      ((grown a va ea, grown b vb eb), All-Grown p p' done grown known)

  pub union_all_lem :
      (n : ℕ) (pairs done : List (A × A)) (p : Dict A A) (k : ℕ) (root : A → A) (depth : A → ℕ)
      → Forest dec p k root depth
      → k + length done ≤ n
      → All (λ e. Known dec p e.0 × Known dec p e.1) done
      → All (λ e. Connected pairs e.0 e.1) done
      → Rooted pairs root
      → Unites p (k + length done) pairs done root (union_all dec n p done)
  unfolding union_all
  union_all_lem n pairs [] p k root depth f enough known joined rooted = (
    p,
    root,
    depth,
    refl,
    subst (λ m. Forest dec p m root depth) (omega arith) f,
    λ j w there. (w, there),
    rooted,
    tt,
    λ x y same. same,
  )
  union_all_lem n pairs ((a, b) ∷ done) p k root depth f enough ((ka, kb), known) (ab, joined)
        rooted =
      let (p1, root1, depth1, end1, f1, grown1, moves) =
        union_lem dec n p k root depth f (omega (arith, enough)) a b ka kb in
      let to-moved : Rooted pairs root1 = λ x.
        subst (λ r. Connected pairs x r) (sym (moves x))
          (moved-Rooted pairs root a b ab rooted x) in
      let (p2, root2, depth2, end2, f2, grown2, rooted2, united, kept) =
        union_all_lem n pairs done p1 (suc k) root1 depth1 f1 (omega (arith, enough))
          (All-Grown p p1 done grown1 known) joined to-moved in
      (
        p2,
        root2,
        depth2,
        rw (union_all, end1) end2,
        subst (λ m. Forest dec p2 m root2 depth2) (omega arith) f2,
        λ j w there. let (u, there') = grown1 j w there in grown2 j u there',
        rooted2,
        (kept a b (moves a ∙ moved_together root a b ∙ sym (moves b)), united),
        λ x y same. kept x y (moves x ∙ ap (moved_root dec (root a) (root b)) same ∙ sym (moves y)),
      )
