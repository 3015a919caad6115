-- ===== src/Clustering/Groups.antt =====
-- The loop of `groups`: what stands in a group after it.
use ga_ottt.Base.{
  ℕ, ◌<◌, ◌≡◌, refl, ap, Bool, true, false, ◌&&◌, ◌||◌, some, List, [], ◌∷◌, ◌++◌, arith, ite, All,
  or_else,
}
use ga_ottt.Dict.{Dict, lookup, has}
use ga_ottt.Dict.Laws.{lookup-insert}
use ga_ottt.Clustering.{add_to, groups_from}
use ga_ottt.Clustering.Forest.{Forest, Grown, find_lem}
use ga_ottt.Clustering.Unions.{Known}

module _ {A : Type 0} (dec : Discrete A) where
  -- The members of the group `r`.
  abbrev pub row : A → Dict A (List A) → List A
  row r out = or_else (lookup dec r out) []

  abbrev pub same_id : A → A → Bool
  same_id x y = ite (dec x y) true false

  has-append : (x y : A) (l : List A) → has dec x (l ++ y ∷ []) ≡ (has dec x l || same_id y x)
  unfolding has
  has-append x y [] = ground arith
  has-append x y (i ∷ l) = ground (arith, has-append x y l)

  has-add_to :
      (r r0 x y : A) (out : Dict A (List A))
      → has dec x (row r (add_to dec r0 y out))
        ≡ (has dec x (row r out) || (same_id y x && same_id r0 r))
  unfolding add_to
  has-add_to r r0 x y out = elim (dec r0 r) [
    | yes here ↦
        rw (lookup-insert dec r0 r (row r0 out ++ y ∷ []) out)
          (ground (arith, has-append x y (row r0 out), ap (λ s. has dec x (row s out)) here))
    | no other ↦ rw (lookup-insert dec r0 r (row r0 out ++ y ∷ []) out) (ground arith)
  ]

  All-Known :
      (p p' : Dict A A) (xs : List A)
      → Grown dec p p'
      → All (Known dec p) xs
      → All (Known dec p') xs
  All-Known p p' [] grown known = tt
  All-Known p p' (x ∷ xs) grown ((v, e), known) = (grown x v e, All-Known p p' xs grown known)

  pub groups_from_lem :
      (n : ℕ) (xs : List A) (p : Dict A A) (k : ℕ) (root : A → A) (depth : A → ℕ)
      (out : Dict A (List A))
      → Forest dec p k root depth
      → k < n
      → All (Known dec p) xs
      → (out' : Dict A (List A)) × (groups_from dec n xs p out ≡ some out')
        × ((r x : A)
            → has dec x (row r out')
              ≡ (has dec x (row r out) || (has dec x xs && same_id (root x) r)))
  unfolding groups_from has
  groups_from_lem n [] p k root depth out f enough known = (out, refl, λ r x. ground arith)
  groups_from_lem n (x ∷ xs) p k root depth out f enough ((v, e), known) =
      let (p', end, f', grown) = find_lem dec n p k root depth f enough x v e in
      let (out', end', members) =
        groups_from_lem n xs p' k root depth (add_to dec (root x) x out) f' enough
          (All-Known p p' xs grown known) in
      (
        out',
        rw (groups_from, end) end',
        λ r z. ground (arith, members r z, has-add_to r (root x) z x out, ap root),
      )
