-- ===== src/Ingest/Content.antt =====
-- What the splitting keeps of a document: all of its ink, but for the chunk before a paragraph that is too long.
use ga_ottt.Base.{
  ℕ, ◌+◌, ◌≤◌, ◌<◌, ◌≡◌, ◌⊎◌, refl, sym, ap, subst, ◌∙◌, inl, inr, Bool, true, false, Option, none,
  some, List, [], ◌∷◌, ◌++◌, arith, if◌then◌else◌, length, ltb, leb, All, Bool-cases,
}
use mathlib.Core.List.{append_assoc, append-nil}
use ga_ottt.Ingest.Text.{is_empty, strip, ink, ink_all, newline, blank_line, split_blank}
use ga_ottt.Ingest.Bounds.{chunk_text_bounds}
use ga_ottt.Ingest.{hard_split, with_current, extend, add_paragraph, add_paragraphs, chunk_text}
use ga_ottt.Ingest.Ink.{
  ink_all-append, ink-strip, Keeps, Keeps-eq, hard_split-Keeps, ink_all-split_blank, ink-joined,
}

module _ (is_space : ℕ → Bool) where
  module _ (newline_space : is_space newline ≡ true) where
    ink_all-with_current :
        (chunks : List (List ℕ)) (current : List ℕ)
        → ink_all is_space (with_current is_space chunks current)
          ≡ ink_all is_space chunks ++ ink is_space current
    unfolding with_current
    ink_all-with_current chunks [] = unfold ink in sym (append-nil _)
    ink_all-with_current chunks (c ∷ cs) =
        ink_all-append is_space chunks ((c ∷ cs) ∷ [])
        ∙ ap (λ t. ink_all is_space chunks ++ t) (unfold ink_all in append-nil _)

    -- The ink of the loop's state.
    abbrev Holds : List ℕ → Option (List (List ℕ) × List ℕ) → Type 0
    Holds text none = Unit
    Holds text (some (chunks, current)) = ink_all is_space chunks ++ ink is_space current ≡ text

    add_paragraph-Holds :
        (n : ℕ) (chunks : List (List ℕ)) (current part : List ℕ)
        → length (strip is_space part) ≤ n
        → Holds
            ((ink_all is_space chunks ++ ink is_space current) ++ ink is_space part)
            (add_paragraph is_space n chunks current part)
    unfolding add_paragraph
    add_paragraph-Holds n chunks current part short =
        subst
          (λ t.
            Holds ((ink_all is_space chunks ++ ink is_space current) ++ t)
              (add_paragraph is_space n chunks current part))
          (ink-strip is_space part)
          (by (strip is_space part) short
            (leb (length current + length (strip is_space part) + 2) n))
      where
        by :
            (para : List ℕ)
            → length para ≤ n
            → (l : Bool)
            → Holds ((ink_all is_space chunks ++ ink is_space current) ++ ink is_space para) (
                if is_empty para
                then some (chunks, current)
                else if l
                then some (chunks, if is_empty current then para else current ++ blank_line ++ para)
                else if ltb n (length para)
                then extend is_space
                    (with_current is_space chunks current)
                    current
                    (hard_split is_space n para)
                else some (with_current is_space chunks current, para))
        by [] h l = unfold ink in sym (append-nil (ink_all is_space chunks ++ ink is_space current))
        by (c ∷ cs) h true = rw (ink-joined is_space newline_space current (c ∷ cs)) (
            sym (
              append_assoc (ink_all is_space chunks) (ink is_space current)
                (ink is_space (c ∷ cs))))
        by (c ∷ cs) h false = elim (Bool-cases (ltb n (length (c ∷ cs)))) [
          | inl long ↦ absurd (ground arith)
          | inr fits ↦
              rw fits (ap (λ t. t ++ ink is_space (c ∷ cs)) (ink_all-with_current chunks current))
        ]

    ink_all-cons :
        (text part : List ℕ) (parts : List (List ℕ))
        → text ++ ink is_space part ++ ink_all is_space parts
          ≡ text ++ ink_all is_space (part ∷ parts)
    unfolding ink_all
    ink_all-cons text part parts = append_assoc text (ink is_space part) (ink_all is_space parts)

    add_paragraphs-Keeps :
        (n : ℕ) (text : List ℕ) (state : Option (List (List ℕ) × List ℕ)) (parts : List (List ℕ))
        → All (λ part. length (strip is_space part) ≤ n) parts
        → Holds text state
        → Keeps is_space (text ++ ink_all is_space parts) (add_paragraphs is_space n state parts)
    unfolding add_paragraphs
    add_paragraphs-Keeps n text none parts all h = tt
    add_paragraphs-Keeps n text (some (chunks, current)) [] all h =
        unfold ink_all in ink_all-with_current chunks current ∙ h ∙ sym (append-nil _)
    add_paragraphs-Keeps n text (some (chunks, current)) (part ∷ parts) (short, all) h =
        Keeps-eq is_space _ _ _ (ink_all-cons text part parts) (
          add_paragraphs-Keeps n (text ++ ink is_space part)
            (add_paragraph is_space n chunks current part) parts all
            (subst
              (λ t. Holds (t ++ ink is_space part) (add_paragraph is_space n chunks current part)) h
              (add_paragraph-Holds n chunks current part short)))

    chunk_text-Keeps :
        (n : ℕ) (document : List ℕ)
        → (length (split_blank (strip is_space document)) ≤ 1)
          ⊎ All (λ part. length (strip is_space part) ≤ n) (split_blank (strip is_space document))
        → Keeps is_space (ink is_space document) (chunk_text is_space n document)
    unfolding chunk_text
    chunk_text-Keeps n document short =
        Keeps-eq is_space _ _ (chunk_text is_space n document) (ink-strip is_space document)
          (by (strip is_space document) (leb (length (strip is_space document)) n) short)
      where
        by :
            (text : List ℕ) (l : Bool)
            → (length (split_blank text) ≤ 1)
              ⊎ All (λ part. length (strip is_space part) ≤ n) (split_blank text)
            → Keeps is_space (ink is_space text) (
                if is_empty text
                then some []
                else if l
                then some (text ∷ [])
                else if ltb 1 (length (split_blank text))
                then add_paragraphs is_space n (some ([], [])) (split_blank text)
                else hard_split is_space n text)
        by [] l s = unfold ink ink_all in refl
        by (c ∷ cs) true s = unfold ink_all in append-nil _
        by (c ∷ cs) false s = elim (Bool-cases (ltb 1 (length (split_blank (c ∷ cs))))) [
          | inl several ↦ rw several (packed s several)
          | inr one ↦ rw one (hard_split-Keeps is_space n (c ∷ cs))
        ]
          where
            packed :
                (length (split_blank (c ∷ cs)) ≤ 1)
                  ⊎ All (λ part. length (strip is_space part) ≤ n) (split_blank (c ∷ cs))
                → ltb 1 (length (split_blank (c ∷ cs))) ≡ true
                → Keeps is_space
                    (ink is_space (c ∷ cs))
                    (add_paragraphs is_space n (some ([], [])) (split_blank (c ∷ cs)))
            packed (inl one) several = absurd (ground arith)
            packed (inr all) several =
                Keeps-eq is_space _ _
                  (add_paragraphs is_space n (some ([], [])) (split_blank (c ∷ cs)))
                  (ink_all-split_blank is_space newline_space (c ∷ cs))
                  (add_paragraphs-Keeps n [] (some ([], [])) (split_blank (c ∷ cs)) all
                    (unfold ink ink_all in refl))

    found_content :
        (text : List ℕ) (found : Option (List (List ℕ))) {chunks : List (List ℕ)}
        → found ≡ some chunks
        → Keeps is_space text found
        → ink_all is_space chunks ≡ text
    found_content text none e k = cc
    found_content text (some found) e k = subst (Keeps is_space text) e k

    -- Where line feeds are white space and the limit is at least one character: when the stripped
    -- document has one paragraph, or no stripped paragraph is longer than the limit, the splitting
    -- ends, and the chunks together are the document without its white space.
    pub chunk_text_content :
        (max_chars : ℕ) (document : List ℕ)
        → 0 < max_chars
        → (length (split_blank (strip is_space document)) ≤ 1)
          ⊎ All
              (λ part. length (strip is_space part) ≤ max_chars)
              (split_blank (strip is_space document))
        → (chunks : List (List ℕ)) × (chunk_text is_space max_chars document ≡ some chunks)
          × (ink_all is_space chunks ≡ ink is_space document)
    chunk_text_content max_chars document pos short =
        let (chunks, found, _) = chunk_text_bounds is_space max_chars document pos in
        (chunks, found, found_content _ _ found (chunk_text-Keeps max_chars document short))
