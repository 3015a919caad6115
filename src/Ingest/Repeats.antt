-- ===== src/Ingest/Repeats.antt =====
-- A paragraph that is too long for a chunk: the chunk before it comes twice, and without room for a
-- character the splitting does not end.
use ga_ottt.Base.{
  ℕ, zero, suc, ◌≤◌, ◌<◌, ◌≡◌, refl, Bool, false, none, some, List, [], ◌∷◌, ◌++◌, arith, length,
  leb,
}
use ga_ottt.Ingest.Text.{is_empty, strip, rfind, split_blank}
use ga_ottt.Ingest.{
  separators, after_rfind, cut_at, then_rest, hard_split_rounds, hard_split, with_current, extend,
  add_paragraph, add_paragraphs, chunk_text,
}

module _ (is_space : ℕ → Bool) where
  is_empty-false : (text : List ℕ) → 0 < length text → is_empty text ≡ false
  is_empty-false [] h = absurd (omega arith)
  is_empty-false (c ∷ text) h = refl

  first_packed :
      {n : ℕ} (first : List ℕ)
      → 0 < length (strip is_space first)
      → length (strip is_space first) ≤ n
      → add_paragraph is_space n [] [] first ≡ some ([], strip is_space first)
  unfolding add_paragraph with_current
  first_packed first some_first fits =
      ground (arith, is_empty-false (strip is_space first) some_first)

  long_split :
      {n : ℕ} (current long : List ℕ) {pieces : List (List ℕ)}
      → 0 < length current
      → n < length (strip is_space long)
      → hard_split is_space n (strip is_space long) ≡ some pieces
      → add_paragraph is_space n [] current long ≡ some (current ∷ pieces, current)
  unfolding add_paragraph with_current extend
  long_split current long some_current too_long split =
      ground (arith, is_empty-false current some_current, split)

  packed_pair :
      {n : ℕ} (first long : List ℕ) {pieces : List (List ℕ)}
      → 0 < length (strip is_space first)
      → length (strip is_space first) ≤ n
      → n < length (strip is_space long)
      → hard_split is_space n (strip is_space long) ≡ some pieces
      → add_paragraphs is_space n (some ([], [])) (first ∷ long ∷ [])
        ≡ some (strip is_space first ∷ pieces ++ strip is_space first ∷ [])
  unfolding add_paragraphs with_current
  packed_pair first long some_first fits too_long split =
      rw (first_packed first some_first fits, add_paragraphs)
        (rw (long_split (strip is_space first) long some_first too_long split, add_paragraphs)
          (rw (is_empty-false (strip is_space first) some_first) refl))

  lt→leb-false : {n m : ℕ} → n < m → leb m n ≡ false
  lt→leb-false h = ground arith

  -- When a stripped document is longer than the limit and has two paragraphs, of which the first
  -- stripped is not empty and fits the limit and the second stripped is longer and has been split
  -- into pieces, the chunks are the first paragraph, the pieces, and the first paragraph again.
  pub chunk_text_repeats :
      (max_chars : ℕ) (document first long : List ℕ) (pieces : List (List ℕ))
      → max_chars < length (strip is_space document)
      → split_blank (strip is_space document) ≡ first ∷ long ∷ []
      → 0 < length (strip is_space first)
      → length (strip is_space first) ≤ max_chars
      → hard_split is_space max_chars (strip is_space long) ≡ some pieces
      → max_chars < length (strip is_space long)
      → chunk_text is_space max_chars document
        ≡ some (strip is_space first ∷ pieces ++ strip is_space first ∷ [])
  unfolding chunk_text
  chunk_text_repeats max_chars document first long pieces over parts some_first fits split
        too_long =
      rw (is_empty-false (strip is_space document) (omega arith), lt→leb-false over, parts)
        (packed_pair first long some_first fits too_long split)

  cut_at_zero : (seps text : List ℕ) → cut_at seps 0 text ≡ 0
  unfolding cut_at after_rfind rfind
  cut_at_zero [] text = refl
  cut_at_zero (sep ∷ seps) text = cut_at_zero seps text

  -- Without room for a character the loop does not end.
  pub hard_split_rounds_zero :
      (fuel : ℕ) (text : List ℕ)
      → strip is_space text ≡ text
      → 0 < length text
      → hard_split_rounds is_space fuel 0 text ≡ none
  unfolding hard_split_rounds then_rest
  hard_split_rounds_zero zero text e h = refl
  hard_split_rounds_zero (suc fuel) [] e h = absurd (omega arith)
  hard_split_rounds_zero (suc fuel) (c ∷ cs) e h =
      ground (arith, cut_at_zero separators (c ∷ cs), e, hard_split_rounds_zero fuel (c ∷ cs) e)
