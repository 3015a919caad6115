-- ===== src/Ingest/Ink.antt =====
-- The ink of a text through stripping, cutting, the split at blank lines, and `_hard_split`.
use ga_ottt.Base.{
  ℕ, zero, suc, ◌≡◌, refl, ap, ◌∙◌, inl, inr, Bool, true, Option, none, some, List, [], ◌∷◌, ◌++◌,
  arith, if◌then◌else◌, length, ltb, take, drop, ◌==◌, Bool-cases,
}
use mathlib.Core.List.{append_assoc, append-nil}
use ga_ottt.Ingest.Text.{
  is_empty, strip, lstrip, rstrip, trimmed, ink, ink_all, newline, blank_line, Newlines, no_newline,
  one_newline, blank, one_more, put_char, last_part, split_after, split_blank,
}
use ga_ottt.Ingest.{separators, cut_at, then_rest, hard_split_rounds, hard_split}

module _ (is_space : ℕ → Bool) where
  pub ink-append : (a b : List ℕ) → ink is_space (a ++ b) ≡ ink is_space a ++ ink is_space b
  unfolding ink
  ink-append [] b = refl
  ink-append (c ∷ a) b = ground (arith, ink-append a b)

  pub ink_all-append :
      (a b : List (List ℕ)) → ink_all is_space (a ++ b) ≡ ink_all is_space a ++ ink_all is_space b
  unfolding ink_all
  ink_all-append [] b = refl
  ink_all-append (x ∷ a) b = simp (ink_all-append a b, append_assoc)

  pub ink-take-drop :
      (n : ℕ) (text : List ℕ)
      → ink is_space (take n text) ++ ink is_space (drop n text) ≡ ink is_space text
  unfolding ink
  ink-take-drop zero text = refl
  ink-take-drop (suc n) [] = refl
  ink-take-drop (suc n) (c ∷ text) = ground (arith, ink-take-drop n text)

  pub ink-lstrip : (text : List ℕ) → ink is_space (lstrip is_space text) ≡ ink is_space text
  unfolding ink lstrip
  ink-lstrip [] = refl
  ink-lstrip (c ∷ text) = ground (arith, ink-lstrip text)

  pub ink-trimmed :
      (c : ℕ) (text : List ℕ) → ink is_space (trimmed is_space c text) ≡ ink is_space (c ∷ text)
  unfolding ink
  ink-trimmed c [] = ground arith
  ink-trimmed c (d ∷ text) = refl

  pub ink-rstrip : (text : List ℕ) → ink is_space (rstrip is_space text) ≡ ink is_space text
  unfolding rstrip
  ink-rstrip [] = refl
  ink-rstrip (c ∷ text) = ink-trimmed c (rstrip is_space text) ∙ ink-cons c _ _ (ink-rstrip text)
    where
      ink-cons :
          (c : ℕ) (a b : List ℕ)
          → ink is_space a ≡ ink is_space b
          → ink is_space (c ∷ a) ≡ ink is_space (c ∷ b)
      ink-cons c a b e = unfold ink in ground arith

  pub ink-strip : (text : List ℕ) → ink is_space (strip is_space text) ≡ ink is_space text
  unfolding strip
  ink-strip text = ink-rstrip (lstrip is_space text) ∙ ink-lstrip text

  pub nothing_left :
      (n : ℕ) (text : List ℕ)
      → ink_all is_space (if is_empty text then [] else text ∷ []) ≡ ink is_space text
  unfolding ink_all ink
  nothing_left n [] = refl
  nothing_left n (c ∷ text) = append-nil _

  -- The pieces that were found have the ink of the text.
  abbrev pub Keeps : List ℕ → Option (List (List ℕ)) → Type 0
  Keeps text none = Unit
  Keeps text (some chunks) = ink_all is_space chunks ≡ text

  pub Keeps-eq :
      (a b : List ℕ) (found : Option (List (List ℕ))) → a ≡ b → Keeps a found → Keeps b found
  Keeps-eq a b none e k = k
  Keeps-eq a b (some chunks) e k = k ∙ e

  pub then_rest-Keeps :
      (chunk text : List ℕ) (rest : Option (List (List ℕ)))
      → Keeps text rest
      → Keeps (ink is_space chunk ++ text) (then_rest chunk rest)
  unfolding then_rest ink_all
  then_rest-Keeps chunk text none k = k
  then_rest-Keeps chunk text (some chunks) k = ap (λ t. ink is_space chunk ++ t) k

  pub hard_split_rounds-Keeps :
      (fuel n : ℕ) (text : List ℕ)
      → Keeps (ink is_space text) (hard_split_rounds is_space fuel n text)
  unfolding hard_split_rounds
  hard_split_rounds-Keeps zero n text = tt
  hard_split_rounds-Keeps (suc fuel) n text = elim (Bool-cases (ltb n (length text))) [
    | inl long ↦ rw long (
        Keeps-eq _ _ _ whole (
          then_rest-Keeps (strip is_space (take cut text)) _ _
            (hard_split_rounds-Keeps fuel n (strip is_space (drop cut text)))))
    | inr short ↦ rw short (nothing_left n text)
  ]
    where
      cut : ℕ
      cut = cut_at separators n text

      whole :
          ink is_space (strip is_space (take cut text))
            ++ ink is_space (strip is_space (drop cut text))
          ≡ ink is_space text
      whole = rw (ink-strip (take cut text), ink-strip (drop cut text)) (ink-take-drop cut text)

  pub hard_split-Keeps :
      (n : ℕ) (text : List ℕ) → Keeps (ink is_space text) (hard_split is_space n text)
  unfolding hard_split
  hard_split-Keeps n text = hard_split_rounds-Keeps (suc (length text)) n text

  module _ (newline_space : is_space newline ≡ true) where
    pub ink_all-put_char :
        (n : Newlines) (c : ℕ) (parts : List (List ℕ))
        → ink_all is_space (put_char n c parts) ≡ ink is_space (c ∷ []) ++ ink_all is_space parts
    unfolding ink_all ink
    ink_all-put_char n c [] = ground (arith, newline_space)
    ink_all-put_char no_newline c (part ∷ parts) = ground (arith, newline_space)
    ink_all-put_char one_newline c (part ∷ parts) = ground (arith, newline_space)
    ink_all-put_char blank c (part ∷ parts) = ground (arith, newline_space)

    pub ink_all-last_part : (n : Newlines) → ink_all is_space (last_part n) ≡ []
    unfolding ink_all ink
    ink_all-last_part no_newline = refl
    ink_all-last_part one_newline = ground (arith, newline_space)
    ink_all-last_part blank = refl

    pub ink_all-split_after :
        (n : Newlines) (text : List ℕ) → ink_all is_space (split_after n text) ≡ ink is_space text
    unfolding split_after ink
    ink_all-split_after n [] = ink_all-last_part n
    ink_all-split_after n (c ∷ text) = elim (Bool-cases (c == newline)) [
      | inl line ↦ ground (arith, ink_all-split_after (one_more n) text, newline_space)
      | inr other ↦ rw other (
          ink_all-put_char n c (split_after no_newline text)
          ∙ ground (arith, ink_all-split_after no_newline text))
    ]

    pub ink_all-split_blank :
        (text : List ℕ) → ink_all is_space (split_blank text) ≡ ink is_space text
    unfolding split_blank
    ink_all-split_blank text = ink_all-split_after no_newline text

    pub ink-joined :
        (current para : List ℕ)
        → ink is_space (if is_empty current then para else current ++ blank_line ++ para)
          ≡ ink is_space current ++ ink is_space para
    ink-joined [] para = unfold ink in refl
    ink-joined (c ∷ cs) para =
        rw (ink-append (c ∷ cs ++ blank_line) para, ink-append (c ∷ cs) blank_line)
          (ap (λ t. t ++ ink is_space para)
            (ap (λ t. ink is_space (c ∷ cs) ++ t) blank ∙ append-nil _))
      where
        blank : ink is_space blank_line ≡ []
        blank = unfold ink in ground (arith, newline_space)
