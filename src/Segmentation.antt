-- ===== src/Segmentation.antt =====
-- gaottt/core/segmentation.py, `segment_query`. A text is the list of its characters; stripping and
-- the split by the regular expression are arguments, as are the two numbers of the configuration.
pub mod Bounds
use ga_ottt.Base.{
  ℕ, Bool, true, false, ◌||◌, List, [], ◌∷◌, ◌++◌, not, if◌then◌else◌, length, ltb, leb, take, keep,
  map,
}

module _ {C : Type 0} (space : C) where
  -- `f"{a} {b}"`
  abbrev pub joined : List C → List C → List C
  joined a b = a ++ space ∷ b

  abbrev pub not_empty : List C → Bool
  not_empty [] = false
  not_empty (c ∷ cs) = true

  -- `merged[-1] = f"{merged[-1]} {part}"`, of a list that has a last element.
  unfoldable pub join_last : List C → List (List C) → List C → List (List C)
  join_last m [] part = joined m part ∷ []
  join_last m (n ∷ merged) part = m ∷ join_last n merged part

  -- One pass of the loop over the parts.
  unfoldable pub merge_part : ℕ → List (List C) → List C → List (List C)
  unfolding join_last
  merge_part min_chars [] part = part ∷ []
  merge_part min_chars (m ∷ merged) part =
      if ltb (length part) min_chars then join_last m merged part else (m ∷ merged) ++ part ∷ []

  unfoldable pub merge_parts : ℕ → List (List C) → List (List C) → List (List C)
  unfolding merge_part
  merge_parts min_chars merged [] = merged
  merge_parts min_chars merged (part ∷ parts) =
      merge_parts min_chars (merge_part min_chars merged part) parts

  -- The loop that folds a short first segment forward; `m` is the first.
  unfoldable pub fold_into : ℕ → List C → List (List C) → List (List C)
  fold_into min_chars m [] = m ∷ []
  fold_into min_chars m (n ∷ merged) =
      let rest = fold_into min_chars (joined m n) merged in
      if ltb (length m) min_chars then rest else m ∷ n ∷ merged

  unfoldable pub fold_forward : ℕ → List (List C) → List (List C)
  unfolding fold_into
  fold_forward min_chars [] = []
  fold_forward min_chars (m ∷ merged) = fold_into min_chars m merged

  -- `sorted(merged, key=len, reverse=True)`, which keeps the order of equals.
  unfoldable pub insert_longest : List C → List (List C) → List (List C)
  insert_longest m [] = m ∷ []
  insert_longest m (n ∷ ns) =
      if ltb (length m) (length n) then n ∷ insert_longest m ns else m ∷ n ∷ ns

  unfoldable pub longest_first : List (List C) → List (List C)
  unfolding insert_longest
  longest_first [] = []
  longest_first (m ∷ ms) = insert_longest m (longest_first ms)

  unfoldable pub capped : ℕ → List (List C) → List (List C)
  unfolding longest_first
  capped cap merged = if ltb cap (length merged) then take cap (longest_first merged) else merged

  unfoldable pub from_merged : ℕ → List C → List (List C) → List (List C)
  unfolding capped
  from_merged max_segments stripped merged =
      if leb (length merged) 1 then stripped ∷ [] else capped max_segments merged

  unfoldable pub from_parts : ℕ → ℕ → List C → List (List C) → List (List C)
  unfolding from_merged merge_parts fold_forward
  from_parts min_chars max_segments stripped parts =
      if leb (length parts) 1
      then stripped ∷ []
      else from_merged max_segments stripped
          (fold_forward min_chars (merge_parts min_chars [] parts))

  unfoldable pub segment_query :
      (List C → List C) → (List C → List (List C)) → ℕ → ℕ → List C → List (List C)
  unfolding from_parts
  segment_query strip split min_chars max_segments text =
      let stripped : List C = strip text in
      if not (not_empty stripped) || ltb max_segments 2
      then text ∷ []
      else from_parts min_chars max_segments stripped (keep not_empty (map strip (split stripped)))
