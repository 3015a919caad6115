-- ===== src/Diversity.antt =====
-- gaottt/core/diversity.py: the choice of a varied selection for explore. Floats are a type with the
-- operations that the code uses on them; the weights of a score are part of `combine`. An embedding
-- stands for `numpy`'s array, and the cosine of two is an argument.
pub mod Greedy
pub mod Total
use ga_ottt.Base.{
  ℕ, zero, suc, Bool, true, false, Option, none, some, List, [], ◌∷◌, ◌++◌, ite, if◌then◌else◌,
  keep, or_else, is_some,
}
use ga_ottt.Dict.{Dict, lookup, has, add}

-- `combine rel red hit` is `λ·rel − (1−λ)·red − diversity·penalty`, the penalty being `cohort_penalty`
-- or 0.0, and `larger` is Python's `max` of two.
pub record Scores (F V : Type 0) : Type 0 where
  pub cosine : V → V → F
  pub combine : F → F → Bool → F
  pub larger : F → F → F
  pub above : F → F → Bool
  pub zero_score : F
  pub minus_infinity : F

-- The arguments of `mmr_select` but the lists.
pub record Pool (A K F V : Type 0) : Type 0 where
  pub relevance : Dict A F
  pub embeddings : Dict A V
  pub cluster_key_of : A → Option K

-- `remaining.remove(x)`: the first occurrence.
unfoldable pub remove_first : {A : Type 0} → Discrete A → A → List A → List A
remove_first dec x [] = []
remove_first dec x (y ∷ ys) = ite (dec y x) ys (y ∷ remove_first dec x ys)

module _ {F : Type 0} where
  -- `apply_relevance_floor`, over the measured cosines; `at_least` is `>=`.
  unfoldable pub apply_relevance_floor :
      {A : Type 0} → Discrete A → (F → F → Bool) → List A → Dict A F → F → F → List A
  apply_relevance_floor dec at_least candidates raw_cosines minus_infinity floor =
      keep (λ a. at_least (or_else (lookup dec a raw_cosines) minus_infinity) floor) candidates

module _ {A K F V : Type 0} (dec : Discrete A) (same_key : Discrete K) (o : Scores F V) where
  abbrev pub embedded : Pool A K F V → A → Bool
  embedded pool a = is_some (lookup dec a pool.embeddings)

  -- `max(…, default=0.0)` over the embeddings of the selected.
  unfoldable pub largest : F → List F → F
  largest best [] = best
  largest best (c ∷ cs) = largest (o.larger best c) cs

  unfoldable pub cosines : Pool A K F V → V → List A → List F
  cosines pool v [] = []
  cosines pool v (s ∷ selected) =
      let rest = cosines pool v selected in
      elim (lookup dec s pool.embeddings) [ none ↦ rest | some w ↦ o.cosine v w ∷ rest ]

  abbrev pub first_or_zero : List F → F
  first_or_zero [] = o.zero_score
  first_or_zero (c ∷ cs) = largest c cs

  unfoldable pub redundancy : Pool A K F V → A → List A → F
  unfolding cosines largest
  redundancy pool a selected = elim (lookup dec a pool.embeddings) [
    | none ↦ o.zero_score
    | some v ↦ first_or_zero (cosines pool v selected)
  ]

  abbrev pub add_key : Option K → List K → List K
  add_key none keys = keys
  add_key (some k) keys = add same_key k keys

  abbrev pub key_hit : Option K → List K → Bool
  key_hit none keys = false
  key_hit (some k) keys = has same_key k keys

  unfoldable pub keys_of : Pool A K F V → List A → List K → List K
  keys_of pool [] keys = keys
  keys_of pool (a ∷ as') keys = keys_of pool as' (add_key (pool.cluster_key_of a) keys)

  unfoldable pub score : Pool A K F V → List A → List K → A → F
  unfolding redundancy
  score pool selected keys a =
      o.combine (or_else (lookup dec a pool.relevance) o.zero_score) (redundancy pool a selected)
        (key_hit (pool.cluster_key_of a) keys)

  -- The inner loop, from the best so far.
  unfoldable pub scan : (A → F) → Option A → F → List A → Option A
  scan value best best_score [] = best
  scan value best best_score (a ∷ remaining) =
      if o.above (value a) best_score
      then scan value (some a) (value a) remaining
      else scan value best best_score remaining

  -- The outer loop with `n` picks to go; `none` is the AssertionError.
  unfoldable pub pick : ℕ → Pool A K F V → List A → List K → List A → Option (List A)
  unfolding scan score remove_first
  pick zero pool selected keys remaining = some []
  pick (suc n) pool selected keys [] = some []
  pick (suc n) pool selected keys (a ∷ remaining) =
      elim (scan (score pool selected keys) none o.minus_infinity (a ∷ remaining)) [
        | none ↦ none
        | some b ↦
            elim (pick n pool (selected ++ b ∷ []) (add_key (pool.cluster_key_of b) keys)
              (remove_first dec b (a ∷ remaining))) [ none ↦ none | some picks ↦ some (b ∷ picks) ]
      ]

  unfoldable pub mmr_select : Pool A K F V → List A → List A → ℕ → Option (List A)
  unfolding pick keys_of
  mmr_select pool candidates preselected n_select =
      pick n_select pool (keep (embedded pool) preselected) (keys_of pool preselected [])
        (keep (embedded pool) candidates)
