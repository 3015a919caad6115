-- ===== src/Tests/SegmentationTests.antt =====
-- gaottt/core/segmentation.py on characters that are numbers: 9 separates, 0 is the space.
use ga_ottt.Base.{ℕ, ◌≡◌, ◌⊎◌, refl, List, [], ◌∷◌, ◌==◌, if◌then◌else◌}
use ga_ottt.Segmentation.{segment_query}
use ga_ottt.Segmentation.Bounds.{WithinBounds, segment_query-WithinBounds}

abbrev strip : List ℕ → List ℕ
strip t = t

abbrev push : ℕ → List (List ℕ) → List (List ℕ)
push c [] = (c ∷ []) ∷ []
push c (p ∷ ps) = (c ∷ p) ∷ ps

abbrev split : List ℕ → List (List ℕ)
split [] = [] ∷ []
split (c ∷ cs) = if c == 9 then [] ∷ split cs else push c (split cs)

-- The parts are 1, 2 3 4, 5, and 6 7 8.
abbrev query : List ℕ
query = 1 ∷ 9 ∷ 2 ∷ 3 ∷ 4 ∷ 9 ∷ 5 ∷ 9 ∷ 6 ∷ 7 ∷ 8 ∷ []

segment_query-WithinBounds_example :
    (segment_query 0 strip split 3 4 query ≡ query ∷ [])
    ⊎ (segment_query 0 strip split 3 4 query ≡ query ∷ [])
    ⊎ WithinBounds 0 3 4 (segment_query 0 strip split 3 4 query)
segment_query-WithinBounds_example = segment_query-WithinBounds 0 strip split 3 4 query

segments_of_query :
    segment_query 0 strip split 3 4 query ≡ (1 ∷ 0 ∷ 2 ∷ 3 ∷ 4 ∷ 0 ∷ 5 ∷ []) ∷ (6 ∷ 7 ∷ 8 ∷ []) ∷ []
unfolding segment_query
segments_of_query = refl
