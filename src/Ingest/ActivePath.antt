-- ===== src/Ingest/ActivePath.antt =====
-- gaottt/ingest/loader.py, `_openai_walk_active_path`: the nodes from the leaf of a conversation to
-- its root, which the nodes' `parent` links give, in the order of the conversation.
pub mod Walk
use ga_ottt.Base.{
  ℕ, zero, suc, ◌+◌, Bool, true, false, Option, none, some, List, [], ◌∷◌, ◌++◌, if◌then◌else◌,
  length, ℕ_discrete,
}
use mathlib.Core.List.{reverse}
use ga_ottt.Dict.{Dict, lookup, has, add}

-- `parent` is none where it is missing or empty.
pub record Node (M : Type 0) : Type 0 where
  pub parent : Option ℕ
  pub message : Option M

module _ {M : Type 0} (mapping : Dict ℕ (Node M)) where
  -- The loop, with fuel for its rounds; `none` means that the fuel ran out.
  unfoldable pub walk : ℕ → List ℕ → List (Node M) → Option ℕ → Option (List (Node M))
  walk zero seen chain cur = none
  walk (suc fuel) seen chain none = some chain
  walk (suc fuel) seen chain (some cur) =
      let further : Option (List (Node M)) = elim (lookup ℕ_discrete cur mapping) [
        | none ↦ some chain
        | some node ↦ walk fuel (add ℕ_discrete cur seen) (chain ++ node ∷ []) node.parent
      ] in
      if has ℕ_discrete cur seen then some chain else further

  abbrev pub reversed : Option (List (Node M)) → Option (List (Node M))
  reversed none = none
  reversed (some chain) = some (reverse chain)

  unfoldable pub walk_active_path : Option ℕ → Option (List (Node M))
  unfolding walk
  walk_active_path leaf = reversed (walk (length mapping + 2) [] [] leaf)
