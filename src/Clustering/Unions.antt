-- ===== src/Clustering/Unions.antt =====
-- One union: it ends, in a forest in which the nodes of the second root belong to the first.
use ga_ottt.Base.{
  ℕ, suc, ◌<◌, ◌≡◌, ◌≢◌, ◌⊎◌, ◌∙◌, sym, refl, ap, subst, inl, inr, Option, some, arith, ite,
}
use ga_ottt.Dict.{Dict, lookup, insert}
use ga_ottt.Clustering.{link, union}
use ga_ottt.Clustering.Forest.{
  Forest, Grown, insert_cases, insert_other, insert_known, root-root, find_lem,
}

module _ {A : Type 0} (dec : Discrete A) where
  abbrev pub Known : Dict A A → A → Type 0
  Known p x = (y : A) × (lookup dec x p ≡ some y)

  -- `ra` takes over the nodes of `rb`.
  abbrev pub moved_root : A → A → A → A
  moved_root ra rb r = ite (dec r rb) ra r

  abbrev pub moved : (A → A) → A → A → A → A
  moved root ra rb x = moved_root ra rb (root x)

  abbrev pub deeper : (A → A) → A → (A → ℕ) → A → ℕ
  deeper root rb depth x = ite (dec (root x) rb) (suc (depth x)) (depth x)

  pub moved_cases :
      (root : A → A) (ra rb x : A)
      → ((root x ≡ rb) × (moved root ra rb x ≡ ra))
        ⊎ ((root x ≢ rb) × (moved root ra rb x ≡ root x))
  moved_cases root ra rb x = ground arith

  linked :
      (p : Dict A A) (k : ℕ) (root : A → A) (depth : A → ℕ)
      → Forest dec p k root depth
      → (ra rb : A) → lookup dec ra p ≡ some ra
      → root ra ≡ ra
      → depth ra ≡ 0
      → lookup dec rb p ≡ some rb
      → root rb ≡ rb
      → ra ≢ rb
      → Forest dec (insert dec rb ra p) (suc k) (moved root ra rb) (deeper root rb depth)
  linked p k root depth f ra rb ea sa da eb sb ne = record {
    parent = λ x y q. elim (insert_cases dec rb x ra y p q) [
      | inl (here, to) ↦ inr (
        ground (arith, ap root to, ap depth to, ap root here),
        ground (arith, ap root to, ap root here),
      )
      | inr (other, there) ↦ elim (f.parent x y there) [
        | inl (loop, self) ↦ inl (loop, ground arith)
        | inr (down, up) ↦ inr (ground arith, ap (moved_root ra rb) up)
      ]
    ];
    known = λ x y q. elim (insert_cases dec rb x ra y p q) [
      | inl (here, to) ↦
          subst (λ v. Known (insert dec rb ra p) v) (sym to) (insert_known dec rb ra ra ra p ea)
      | inr (other, there) ↦ let (z, q') = f.known x y there in insert_known dec rb y ra z p q'
    ];
    home = λ x y q. elim (moved_cases root ra rb x) [
      | inl (_, to) ↦
          subst (λ r. lookup dec r (insert dec rb ra p) ≡ some r) (sym to)
            (insert_other dec rb ra ra p ne ∙ ea)
      | inr (other, to) ↦
          let (v, there) = old x y q in
          subst (λ r. lookup dec r (insert dec rb ra p) ≡ some r) (sym to)
            (insert_other dec rb (root x) ra p other ∙ f.home x v there)
    ];
    top = λ x y q. elim (moved_cases root ra rb x) [
      | inl (_, to) ↦ subst (λ r. deeper root rb depth r ≡ 0) (sym to) (ground arith)
      | inr (other, to) ↦
          let (v, there) = old x y q in
          subst (λ r. deeper root rb depth r ≡ 0) (sym to)
            (ground (arith, root-root dec p k root depth f x v there, f.top x v there))
    ];
    low = λ x y q. let (v, there) = old x y q in ground (arith, f.low x v there);
  }
    where
      old : (x y : A) → lookup dec x (insert dec rb ra p) ≡ some y → Known p x
      old x y q = elim (insert_cases dec rb x ra y p q) [
        | inl (here, to) ↦ (rb, ap (λ i. lookup dec i p) here ∙ eb)
        | inr (_, there) ↦ (y, there)
      ]

  weaken :
      (p : Dict A A) (k : ℕ) (root : A → A) (depth : A → ℕ)
      → Forest dec p k root depth
      → Forest dec p (suc k) root depth
  weaken p k root depth f = record {
    parent = f.parent;
    known = f.known;
    home = f.home;
    top = f.top;
    low = λ x y q. omega (arith, f.low x y q);
  }

  -- A forest in which the roots are as `to` says.
  abbrev pub Becomes : Dict A A → ℕ → (A → A) → Option (Dict A A) → Type 0
  Becomes p k to o =
      (p' : Dict A A) × (root' : A → A) × (depth' : A → ℕ) × (o ≡ some p')
      × Forest dec p' k root' depth'
      × Grown dec p p'
      × ((x : A) → root' x ≡ to x)

  link_lem :
      (p : Dict A A) (k : ℕ) (root : A → A) (depth : A → ℕ)
      → Forest dec p k root depth
      → (a b : A) → Known p a
      → Known p b
      → Becomes p (suc k) (moved root (root a) (root b)) (some (link dec p (root a) (root b)))
  unfolding link
  link_lem p k root depth f a b (va, ea) (vb, eb) = by (dec (root a) (root b)) refl
    where
      by :
          (d : Dec (root a ≡ root b))
          → dec (root a) (root b) ≡ d
          → Becomes p
              (suc k)
              (moved root (root a) (root b))
              (some (ite d p (insert dec (root b) (root a) p)))
      by (yes e) q = (
        p,
        root,
        depth,
        refl,
        weaken p k root depth f,
        λ j w there. (w, there),
        λ x. ground arith,
      )
      by (no ne) q = (
        insert dec (root b) (root a) p,
        moved root (root a) (root b),
        deeper root (root b) depth,
        refl,
        linked p k root depth f (root a) (root b) (f.home a va ea)
            (root-root dec p k root depth f a va ea) (f.top a va ea) (f.home b vb eb)
            (root-root dec p k root depth f b vb eb) ne,
        λ j w there. insert_known dec (root b) j (root a) w p there,
        λ x. refl,
      )

  pub union_lem :
      (n : ℕ) (p : Dict A A) (k : ℕ) (root : A → A) (depth : A → ℕ)
      → Forest dec p k root depth
      → k < n
      → (a b : A) → Known p a
      → Known p b
      → Becomes p (suc k) (moved root (root a) (root b)) (union dec n p a b)
  unfolding union
  union_lem n p k root depth f enough a b (va, ea) (vb, eb) =
      let (p1, end1, f1, grown1) = find_lem dec n p k root depth f enough a va ea in
      let (ub, eb1) = grown1 b vb eb in
      let (p2, end2, f2, grown2) = find_lem dec n p1 k root depth f1 enough b ub eb1 in
      let known : (j : A) → Known p j → Known p2 j =
        λ j h. let (w, there) = grown1 j h.0 h.1 in grown2 j w there in
      let (p', root', depth', end, f', grown, moves) =
        link_lem p2 k root depth f2 a b (known a (va, ea)) (known b (vb, eb)) in
      (
        p',
        root',
        depth',
        rw (union, end1, end2) end,
        f',
        λ j w there. let (u, there') = known j (w, there) in grown j u there',
        moves,
      )
