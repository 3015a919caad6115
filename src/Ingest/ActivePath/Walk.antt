-- ===== src/Ingest/ActivePath/Walk.antt =====
-- The walk ends on every mapping, and gives every simple path to a root in the reverse order.
use mathlib.Core.List.{reverse, append_assoc, append-nil}
use ga_ottt.Base.{
  ℕ, zero, suc, ◌+◌, ◌≤◌, ◌<◌, ◌≡◌, refl, ap, ◌∙◌, Bool, true, false, not, Option, none, some, List,
  [], ◌∷◌, ◌++◌, map, arith, if◌then◌else◌, length, keep, All, ℕ_discrete, is_some,
}
use ga_ottt.Dict.{Dict, keys, lookup, has, add}
use ga_ottt.Dict.Laws.{Distinct, has-add, has-keys}
use ga_ottt.Ingest.ActivePath.{Node, walk, walk_active_path, reversed}

-- The ids that the walk has not seen.
abbrev unseen : List ℕ → List ℕ → ℕ
unseen seen ids = length (keep (λ k. not (has ℕ_discrete k seen)) ids)

unseen-add-le : (k : ℕ) (seen ids : List ℕ) → unseen (add ℕ_discrete k seen) ids ≤ unseen seen ids
unseen-add-le k seen [] = omega arith
unseen-add-le k seen (j ∷ ids) =
    ground (arith, unseen-add-le k seen ids, has-add ℕ_discrete k j seen)

unseen-add-lt :
    (k : ℕ) (seen ids : List ℕ)
    → has ℕ_discrete k seen ≡ false
    → has ℕ_discrete k ids ≡ true
    → unseen (add ℕ_discrete k seen) ids < unseen seen ids
unfolding has
unseen-add-lt k seen [] new there = cc
unseen-add-lt k seen (j ∷ ids) new there =
    ground
      (arith, unseen-add-lt k seen ids new, unseen-add-le k seen ids, has-add ℕ_discrete k j seen)

module _ {M : Type 0} (mapping : Dict ℕ (Node M)) where
  walk_total :
      (fuel : ℕ) (seen : List ℕ) (chain : List (Node M)) (cur : Option ℕ)
      → unseen seen (keys mapping) + 1 < fuel
      → is_some (walk mapping fuel seen chain cur) ≡ true
  unfolding walk
  walk_total zero seen chain cur enough = absurd (omega arith)
  walk_total (suc fuel) seen chain none enough = refl
  walk_total (suc fuel) seen chain (some cur) enough =
      by (has ℕ_discrete cur seen) (lookup ℕ_discrete cur mapping) refl refl
        (λ node. walk_total fuel (add ℕ_discrete cur seen) (chain ++ node ∷ []) node.parent)
    where
      by :
          (again : Bool) (found : Option (Node M))
          → has ℕ_discrete cur seen ≡ again
          → lookup ℕ_discrete cur mapping ≡ found
          → ((node : Node M)
              → unseen (add ℕ_discrete cur seen) (keys mapping) + 1 < fuel
              → is_some
                  (walk mapping fuel (add ℕ_discrete cur seen) (chain ++ node ∷ []) node.parent)
                ≡ true)
          → is_some (
              if again then some chain else (elim found [
                | none ↦ some chain
                | some node ↦
                    walk mapping fuel (add ℕ_discrete cur seen) (chain ++ node ∷ []) node.parent
              ]))
            ≡ true
      by true found ea ef ih = refl
      by false none ea ef ih = refl
      by false (some node) ea ef ih = ih node (
          omega (
            arith,
            enough,
            unseen-add-lt cur seen (keys mapping) ea
                (has-keys ℕ_discrete cur mapping ∙ ap is_some ef),
          ))

  -- The nodes from `cur` on, each with its id, as far as the mapping has them.
  abbrev pub Leads : Option ℕ → List (ℕ × Node M) → Type 0
  Leads none [] = Unit
  Leads (some cur) [] = lookup ℕ_discrete cur mapping ≡ none
  Leads none (step ∷ path) = ⊥
  Leads (some cur) ((k, node) ∷ path) =
      (cur ≡ k) × (lookup ℕ_discrete k mapping ≡ some node) × Leads node.parent path

  Fresh : List ℕ → List ℕ → Type 0
  Fresh seen ids = All (λ k. has ℕ_discrete k seen ≡ false) ids

  Fresh-add :
      (k : ℕ) (seen ids : List ℕ)
      → has ℕ_discrete k ids ≡ false
      → Fresh seen ids
      → Fresh (add ℕ_discrete k seen) ids
  unfolding has Fresh
  Fresh-add k seen [] out fresh = tt
  Fresh-add k seen (j ∷ ids) out fresh =
      ground (arith, has-add ℕ_discrete k j seen, Fresh-add k seen ids, fresh)

  walk_lem :
      (fuel : ℕ) (seen : List ℕ) (chain : List (Node M)) (cur : Option ℕ) (path : List (ℕ × Node M))
      {r : List (Node M)}
      → Leads cur path
      → Distinct ℕ_discrete (map (λ s. s.0) path)
      → Fresh seen (map (λ s. s.0) path)
      → walk mapping fuel seen chain cur ≡ some r
      → r ≡ chain ++ map (λ s. s.1) path
  unfolding walk
  walk_lem zero seen chain cur path leads distinct fresh e = cc
  walk_lem (suc fuel) seen chain none [] leads distinct fresh e = cc (append-nil chain)
  walk_lem (suc fuel) seen chain none (_ ∷ path) leads distinct fresh e = elim leads [ ]
  walk_lem (suc fuel) seen chain (some cur) [] leads distinct fresh e =
      ground (arith, append-nil chain)
  walk_lem (suc fuel) seen chain (some cur) ((k, node) ∷ path) {r} (at, found, leads) distinct fresh
        e =
      let rest : walk mapping fuel (add ℕ_discrete k seen) (chain ++ node ∷ []) node.parent
          ≡ some r =
        unfold Fresh in ground (arith, at, found, fresh, e) in
      walk_lem fuel (add ℕ_discrete k seen) (chain ++ node ∷ []) node.parent path leads distinct.1
        (Fresh-add k seen (map (λ s. s.0) path) distinct.0 (unfold Fresh in fresh.1)) rest
      ∙ append_assoc chain (node ∷ []) (map (λ s. s.1) path)

  found_chain :
      (result : Option (List (Node M))) (chain : List (Node M))
      → is_some result ≡ true
      → ((r : List (Node M)) → result ≡ some r → r ≡ chain)
      → reversed mapping result ≡ some (reverse chain)
  found_chain none chain h e = cc
  found_chain (some r) chain h e = ap (λ c. some (reverse c)) (e r refl)

  unseen-nil : (ids : List ℕ) → unseen [] ids ≤ length ids
  unfolding has
  unseen-nil [] = omega arith
  unseen-nil (k ∷ ids) = ground (arith, unseen-nil ids)

  length-keys : (d : Dict ℕ (Node M)) → length (keys d) ≡ length d
  length-keys [] = refl
  length-keys (e ∷ d) = ap suc (length-keys d)

  walk_from_leaf : (leaf : Option ℕ) → is_some (walk mapping (length mapping + 2) [] [] leaf) ≡ true
  walk_from_leaf leaf =
      walk_total (length mapping + 2) [] [] leaf
        (omega (arith, unseen-nil (keys mapping), length-keys mapping))

  nothing_seen : (ids : List ℕ) → Fresh [] ids
  unfolding has Fresh
  nothing_seen [] = tt
  nothing_seen (k ∷ ids) = (refl, nothing_seen ids)

  to_path :
      (result : Option (List (Node M)))
      → is_some result ≡ true
      → (chain : List (Node M)) × (reversed mapping result ≡ some chain)
  to_path none h = cc
  to_path (some chain) h = (reverse chain, refl)

  pub walk_active_path_total :
      (leaf : Option ℕ) → (chain : List (Node M)) × (walk_active_path mapping leaf ≡ some chain)
  unfolding walk_active_path
  walk_active_path_total leaf = to_path _ (walk_from_leaf leaf)

  -- When the nodes of a path are those that the parent links give from the leaf on, as far as the
  -- mapping has them, and no id is twice among them, the walk gives the path's nodes in the reverse
  -- order.
  pub walk_active_path_lem :
      (leaf : Option ℕ) (path : List (ℕ × Node M))
      → Leads leaf path
      → Distinct ℕ_discrete (map (λ s. s.0) path)
      → walk_active_path mapping leaf ≡ some (reverse (map (λ s. s.1) path))
  unfolding walk_active_path
  walk_active_path_lem leaf path leads distinct =
      found_chain _ (map (λ s. s.1) path) (walk_from_leaf leaf)
        (λ r. walk_lem (length mapping + 2) [] [] leaf path leads distinct (nothing_seen _))
