-- ===== src/Clustering/Start.antt =====
-- The dictionary that `_UnionFind` starts with is a forest of single nodes.
use ga_ottt.Base.{◌≡◌, ◌∙◌, sym, refl, ap, inl, inr, true, some, List, [], ◌∷◌, arith}
use ga_ottt.Dict.{Dict, lookup, insert, has}
use ga_ottt.Dict.Laws.{lookup-insert}
use ga_ottt.Clustering.{init_parents}
use ga_ottt.Clustering.Forest.{Forest, insert_cases, insert_known}
use ga_ottt.Clustering.Unions.{Known}

module _ {A : Type 0} (dec : Discrete A) where
  -- `{x: x for x in items}`
  abbrev pub IsIdentity : Dict A A → Type 0
  IsIdentity p = (x y : A) → lookup dec x p ≡ some y → y ≡ x

  init_parents-IsIdentity :
      (xs : List A) (p : Dict A A) → IsIdentity p → IsIdentity (init_parents dec xs p)
  unfolding init_parents
  init_parents-IsIdentity [] p fixed = fixed
  init_parents-IsIdentity (x ∷ xs) p fixed = init_parents-IsIdentity xs (insert dec x x p) (λ z w q.
      elim (insert_cases dec x z x w p q) [
        | inl (here, to) ↦ to ∙ sym here
        | inr (_, there) ↦ fixed z w there
      ])

  init_parents-keeps :
      (xs : List A) (p : Dict A A) (x : A) → Known dec p x → Known dec (init_parents dec xs p) x
  unfolding init_parents
  init_parents-keeps [] p x known = known
  init_parents-keeps (y ∷ ys) p x (v, e) =
      init_parents-keeps ys (insert dec y y p) x (insert_known dec y x y v p e)

  pub init_parents-Known :
      (xs : List A) (p : Dict A A) (x : A)
      → has dec x xs ≡ true
      → Known dec (init_parents dec xs p) x
  unfolding init_parents has
  init_parents-Known [] p x there = ground arith
  init_parents-Known (y ∷ ys) p x there = elim (dec y x) [
    | yes here ↦
        init_parents-keeps ys (insert dec y y p) x (y, ground (arith, lookup-insert dec y x y p))
    | no other ↦ init_parents-Known ys (insert dec y y p) x (ground arith)
  ]

  pub init_parents-Forest : (xs : List A) → Forest dec (init_parents dec xs []) 0 (λ x. x) (λ x. 0)
  unfolding lookup
  init_parents-Forest xs =
      let fixed = init_parents-IsIdentity xs [] (λ x y q. ground arith) in
      record {
        parent = λ x y q. inl (fixed x y q, refl);
        known = λ x y q. (y, ap (λ i. lookup dec i (init_parents dec xs [])) (fixed x y q) ∙ q);
        home = λ x y q. q ∙ ap some (fixed x y q);
        top = λ x y q. refl;
        low = λ x y q. omega arith;
      }
