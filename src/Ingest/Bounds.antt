-- ===== src/Ingest/Bounds.antt =====
-- Chunks of a document fit the limit, and the splitting ends.
use ga_ottt.Base.{
  ℕ, ◌+◌, ◌≤◌, ◌<◌, ◌≡◌, refl, Bool, true, false, Option, none, some, List, [], ◌∷◌, ◌++◌, arith,
  if◌then◌else◌, length, length-append, ltb, leb,
}
use ga_ottt.Ingest.Text.{is_empty, strip, split_blank, blank_line}
use ga_ottt.Ingest.{hard_split, with_current, extend, add_paragraph, add_paragraphs, chunk_text}
use ga_ottt.Ingest.Cuts.{Fits, Split, Fits-append, hard_split-Split}

module _ (is_space : ℕ → Bool) where
  with_current-Fits :
      (n : ℕ) (chunks : List (List ℕ)) (current : List ℕ)
      → Fits n chunks
      → length current ≤ n
      → Fits n (with_current is_space chunks current)
  unfolding with_current
  with_current-Fits n chunks [] fits h = fits
  with_current-Fits n chunks (c ∷ cs) fits h = Fits-append n chunks ((c ∷ cs) ∷ []) fits (h, tt)

  -- The loop's state: the chunks fit, and so does the current one.
  abbrev Packed : ℕ → Option (List (List ℕ) × List ℕ) → Type 0
  Packed n none = ⊥
  Packed n (some (chunks, current)) = Fits n chunks × (length current ≤ n)

  extend-Packed :
      (n : ℕ) (chunks : List (List ℕ)) (current : List ℕ) (pieces : Option (List (List ℕ)))
      → Fits n chunks
      → length current ≤ n
      → Split n pieces
      → Packed n (extend is_space chunks current pieces)
  unfolding extend
  extend-Packed n chunks current none fits h s = s
  extend-Packed n chunks current (some pieces) fits h s = (Fits-append n chunks pieces fits s, h)

  joined_bound :
      (n : ℕ) (current para : List ℕ)
      → length current + length para + 2 ≤ n
      → length (if is_empty current then para else current ++ blank_line ++ para) ≤ n
  joined_bound n [] para h = omega arith
  joined_bound n (c ∷ cs) para h =
      omega (arith, length-append (c ∷ cs ++ blank_line) para, length-append (c ∷ cs) blank_line)

  add_paragraph-Packed :
      (n : ℕ) (chunks : List (List ℕ)) (current part : List ℕ)
      → 0 < n
      → Fits n chunks
      → length current ≤ n
      → Packed n (add_paragraph is_space n chunks current part)
  unfolding add_paragraph
  add_paragraph-Packed n chunks current part pos fits h =
      by (is_empty para) (leb (length current + length para + 2) n) (ltb n (length para)) refl refl
    where
      para : List ℕ
      para = strip is_space part

      by :
          (e l t : Bool)
          → leb (length current + length para + 2) n ≡ l
          → ltb n (length para) ≡ t
          → Packed n (
              if e
              then some (chunks, current)
              else if l
              then some (chunks, if is_empty current then para else current ++ blank_line ++ para)
              else if t
              then extend is_space
                  (with_current is_space chunks current)
                  current
                  (hard_split is_space n para)
              else some (with_current is_space chunks current, para))
      by true l t el et = (fits, h)
      by false true t el et = (fits, joined_bound n current para (ground arith))
      by false false true el et =
          extend-Packed n _ current _ (with_current-Fits n chunks current fits h) h
            (hard_split-Split is_space n para pos)
      by false false false el et = (with_current-Fits n chunks current fits h, ground arith)

  add_paragraphs-Split :
      (n : ℕ) (state : Option (List (List ℕ) × List ℕ)) (parts : List (List ℕ))
      → 0 < n
      → Packed n state
      → Split n (add_paragraphs is_space n state parts)
  unfolding add_paragraphs
  add_paragraphs-Split n none parts pos p = p
  add_paragraphs-Split n (some (chunks, current)) [] pos (fits, h) =
      with_current-Fits n chunks current fits h
  add_paragraphs-Split n (some (chunks, current)) (part ∷ parts) pos (fits, h) =
      add_paragraphs-Split n (add_paragraph is_space n chunks current part) parts pos
        (add_paragraph-Packed n chunks current part pos fits h)

  pub chunk_text-Split :
      (n : ℕ) (document : List ℕ) → 0 < n → Split n (chunk_text is_space n document)
  unfolding chunk_text
  chunk_text-Split n document pos =
      by (is_empty text) (leb (length text) n) (ltb 1 (length (split_blank text))) refl
    where
      text : List ℕ
      text = strip is_space document

      by :
          (e l m : Bool)
          → leb (length text) n ≡ l
          → Split n (
              if e
              then some []
              else if l
              then some (text ∷ [])
              else if m
              then add_paragraphs is_space n (some ([], [])) (split_blank text)
              else hard_split is_space n text)
      by true l m el = tt
      by false true m el = (ground arith, tt)
      by false false true el =
          add_paragraphs-Split n (some ([], [])) (split_blank text) pos (tt, omega arith)
      by false false false el = hard_split-Split is_space n text pos

  to_chunks :
      (n : ℕ) (found : Option (List (List ℕ)))
      → Split n found
      → (chunks : List (List ℕ)) × (found ≡ some chunks) × Fits n chunks
  to_chunks n none s = absurd s
  to_chunks n (some chunks) s = (chunks, refl, s)

  -- For a limit of at least one character, the splitting of every document ends, and no chunk is
  -- longer than the limit.
  pub chunk_text_bounds :
      (max_chars : ℕ) (document : List ℕ)
      → 0 < max_chars
      → (chunks : List (List ℕ)) × (chunk_text is_space max_chars document ≡ some chunks)
        × Fits max_chars chunks
  chunk_text_bounds max_chars document pos =
      to_chunks max_chars (chunk_text is_space max_chars document)
        (chunk_text-Split max_chars document pos)
