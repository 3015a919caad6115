-- ===== src/Clustering.antt =====
-- gaottt/core/clustering.py, `_UnionFind` and the grouping of `cluster_by_similarity`. The dictionary
-- of parents is the state; its two loops take fuel, and run out of it or raise the KeyError of a
-- missing id with the same answer `none`. The similarity of two embeddings is an argument.
pub mod Forest
pub mod Unions
pub mod Connected
pub mod Start
pub mod Groups
pub mod Similar
pub mod Threshold
use ga_ottt.Base.{
  ℕ, zero, suc, ◌-◌, Bool, true, false, Option, none, some, List, [], ◌∷◌, ◌++◌, length, ite,
  if◌then◌else◌, leb, or_else,
}
use ga_ottt.Dict.{Dict, lookup, insert, keys, values}

module _ {A : Type 0} (dec : Discrete A) where
  -- `{x: x for x in items}`
  unfoldable pub init_parents : List A → Dict A A → Dict A A
  init_parents [] p = p
  init_parents (x ∷ xs) p = init_parents xs (insert dec x x p)

  -- The first loop of `find`
  unfoldable pub find_root : ℕ → Dict A A → A → Option A
  find_root zero p x = none
  find_root (suc n) p x = elim (lookup dec x p) [
    | none ↦ none
    | some y ↦ elim (dec y x) [ yes e ↦ some x | no e ↦ find_root n p y ]
  ]

  -- The second loop of `find`
  unfoldable pub compress : ℕ → Dict A A → A → A → Option (Dict A A)
  compress zero p x root = none
  compress (suc n) p x root = elim (lookup dec x p) [
    | none ↦ none
    | some y ↦ elim (dec y root) [ yes e ↦ some p | no e ↦ compress n (insert dec x root p) y root ]
  ]

  unfoldable pub find : ℕ → Dict A A → A → Option (Dict A A × A)
  unfolding find_root compress
  find n p x = elim (find_root n p x) [
    | none ↦ none
    | some root ↦ elim (compress n p x root) [ none ↦ none | some p' ↦ some (p', root) ]
  ]

  -- `self._parent[rb] = ra`, unless the roots are the same
  unfoldable pub link : Dict A A → A → A → Dict A A
  link p ra rb = ite (dec ra rb) p (insert dec rb ra p)

  unfoldable pub union : ℕ → Dict A A → A → A → Option (Dict A A)
  unfolding find link
  union n p a b = elim (find n p a) [
    | none ↦ none
    | some (p1, ra) ↦ elim (find n p1 b) [ none ↦ none | some (p2, rb) ↦ some (link p2 ra rb) ]
  ]

  unfoldable pub union_all : ℕ → Dict A A → List (A × A) → Option (Dict A A)
  unfolding union
  union_all n p [] = some p
  union_all n p ((a, b) ∷ pairs) = elim (union n p a b) [
    | none ↦ none
    | some p' ↦ union_all n p' pairs
  ]

  -- `out.setdefault(r, []).append(x)`
  unfoldable pub add_to : A → A → Dict A (List A) → Dict A (List A)
  add_to r x out = insert dec r (or_else (lookup dec r out) [] ++ x ∷ []) out

  -- The loop of `groups` over the keys `xs`
  unfoldable pub groups_from : ℕ → List A → Dict A A → Dict A (List A) → Option (Dict A (List A))
  unfolding find add_to
  groups_from n [] p out = some out
  groups_from n (x ∷ xs) p out = elim (find n p x) [
    | none ↦ none
    | some (p', r) ↦ groups_from n xs p' (add_to r x out)
  ]

  unfoldable pub groups : ℕ → Dict A A → Option (Dict A (List A))
  unfolding groups_from
  groups n p = groups_from n (keys p) p []

-- The pairs `i < j` that reach the threshold, in the order of the two loops.
unfoldable pub pairs_with : {A : Type 0} → (A → A → Bool) → A → List A → List (A × A)
pairs_with similar x [] = []
pairs_with similar x (y ∷ ys) =
    if similar x y then (x, y) ∷ pairs_with similar x ys else pairs_with similar x ys

unfoldable pub similar_pairs : {A : Type 0} → (A → A → Bool) → List A → List (A × A)
unfolding pairs_with
similar_pairs similar [] = []
similar_pairs similar (x ∷ xs) = pairs_with similar x xs ++ similar_pairs similar xs

module _ {A : Type 0} (dec : Discrete A) where
  unfoldable pub raw_groups : ℕ → List A → List (A × A) → Option (Dict A (List A))
  unfolding groups union_all init_parents
  raw_groups n ids pairs = elim (union_all dec n (init_parents dec ids []) pairs) [
    | none ↦ none
    | some p ↦ groups dec n p
  ]

  -- The groups of the ids, with fuel for every union.
  unfoldable pub similar_groups : (A → A → Bool) → List A → Option (Dict A (List A))
  unfolding raw_groups similar_pairs
  similar_groups similar ids =
      let pairs : List (A × A) = similar_pairs similar ids in
      raw_groups (suc (length pairs)) ids pairs
