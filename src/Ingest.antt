-- ===== src/Ingest.antt =====
-- gaottt/ingest/loader.py: the splitting of documents into chunks here, the active path of an
-- exported conversation and its exchanges in the children. A text is the list of its code points;
-- which of them `str.isspace` counts is an argument.
pub mod Text
pub mod Cuts
pub mod Bounds
pub mod Ink
pub mod Content
pub mod Repeats
pub mod ActivePath
pub mod Messages
pub mod Turns
use ga_ottt.Base.{
  ℕ, zero, suc, ◌+◌, ◌≤◌, Bool, true, false, ◌||◌, not, Option, none, some, List, [], ◌∷◌, ◌++◌,
  if◌then◌else◌, length, ltb, leb, take, drop, ◌==◌,
}
use ga_ottt.Ingest.Text.{is_empty, strip, rfind, half, split_blank, blank_line}

-- `["。", "\n", "．", ".", "！", "？"]`
abbrev pub separators : List ℕ
separators = 0x3002 ∷ 10 ∷ 0xFF0E ∷ 46 ∷ 0xFF01 ∷ 0xFF1F ∷ []

-- What the search of one separator does to the cut: `rest` is the cut that the others give.
unfoldable pub after_rfind : ℕ → Option ℕ → ℕ → ℕ
after_rfind max_chars none rest = rest
after_rfind max_chars (some pos) rest = if ltb (half max_chars) pos then suc pos else rest

unfoldable pub cut_at : List ℕ → ℕ → List ℕ → ℕ
unfolding after_rfind
cut_at [] max_chars text = max_chars
cut_at (sep ∷ seps) max_chars text =
    after_rfind max_chars (rfind sep text max_chars) (cut_at seps max_chars text)

-- The chunk that is appended, before the chunks of the rest.
unfoldable pub then_rest : List ℕ → Option (List (List ℕ)) → Option (List (List ℕ))
then_rest chunk none = none
then_rest chunk (some chunks) = some (chunk ∷ chunks)

module _ (is_space : ℕ → Bool) where
  -- The loop of `_hard_split`, with fuel for its rounds; `none` means that the fuel ran out.
  unfoldable pub hard_split_rounds : ℕ → ℕ → List ℕ → Option (List (List ℕ))
  unfolding then_rest
  hard_split_rounds zero max_chars text = none
  hard_split_rounds (suc fuel) max_chars text =
      let cut : ℕ = cut_at separators max_chars text in
      let split =
        then_rest (strip is_space (take cut text))
          (hard_split_rounds fuel max_chars (strip is_space (drop cut text))) in
      if ltb max_chars (length text) then split else some (if is_empty text then [] else text ∷ [])

  unfoldable pub hard_split : ℕ → List ℕ → Option (List (List ℕ))
  unfolding hard_split_rounds
  hard_split max_chars text = hard_split_rounds (suc (length text)) max_chars text

  -- `if current: chunks.append(current)`
  unfoldable pub with_current : List (List ℕ) → List ℕ → List (List ℕ)
  with_current chunks current = if is_empty current then chunks else chunks ++ current ∷ []

  -- `chunks.extend(...)` with the pieces of a paragraph that is too long; `current` stays.
  unfoldable pub extend :
      List (List ℕ) → List ℕ → Option (List (List ℕ)) → Option (List (List ℕ) × List ℕ)
  extend chunks current none = none
  extend chunks current (some pieces) = some (chunks ++ pieces, current)

  -- One pass of the loop over the paragraphs, on `chunks` and `current`.
  unfoldable pub add_paragraph :
      ℕ → List (List ℕ) → List ℕ → List ℕ → Option (List (List ℕ) × List ℕ)
  unfolding with_current extend
  add_paragraph max_chars chunks current part =
      let para : List ℕ = strip is_space part in
      if is_empty para
      then some (chunks, current)
      else if leb (length current + length para + 2) max_chars
      then some (chunks, if is_empty current then para else current ++ blank_line ++ para)
      else if ltb max_chars (length para)
      then extend (with_current chunks current) current (hard_split max_chars para)
      else some (with_current chunks current, para)

  unfoldable pub add_paragraphs :
      ℕ → Option (List (List ℕ) × List ℕ) → List (List ℕ) → Option (List (List ℕ))
  unfolding add_paragraph
  add_paragraphs max_chars none parts = none
  add_paragraphs max_chars (some (chunks, current)) [] = some (with_current chunks current)
  add_paragraphs max_chars (some (chunks, current)) (part ∷ parts) =
      add_paragraphs max_chars (add_paragraph max_chars chunks current part) parts

  unfoldable pub chunk_text : ℕ → List ℕ → Option (List (List ℕ))
  unfolding add_paragraphs hard_split
  chunk_text max_chars document =
      let text : List ℕ = strip is_space document in
      let paragraphs : List (List ℕ) = split_blank text in
      if is_empty text
      then some []
      else if leb (length text) max_chars
      then some (text ∷ [])
      else if ltb 1 (length paragraphs)
      then add_paragraphs max_chars (some ([], [])) paragraphs
      else hard_split max_chars text
