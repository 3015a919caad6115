-- ===== src/Ingest/Text.antt =====
-- What gaottt/ingest/loader.py uses of Python's `str` and `re`: `strip`, `rfind`, and the split at
-- blank lines. The ink of a text is what is left of it without white space.
use Prim.Native.Nat.{◌/◌}
use ga_ottt.Base.{
  ℕ, zero, suc, Bool, true, false, not, Option, none, some, List, [], ◌∷◌, ◌++◌, if◌then◌else◌,
  keep, ◌==◌,
}

abbrev pub is_empty : List ℕ → Bool
is_empty [] = true
is_empty (c ∷ cs) = false

-- `n // 2`
unfoldable pub half : ℕ → ℕ
half n = n / 2

-- The line feed, and `"\n\n"`
abbrev pub newline : ℕ
newline = 10

abbrev pub blank_line : List ℕ
blank_line = newline ∷ newline ∷ []

-- `text.rfind(sep, 0, n)`; `none` is -1.
unfoldable pub rfind : ℕ → List ℕ → ℕ → Option ℕ
rfind sep text zero = none
rfind sep [] (suc n) = none
rfind sep (c ∷ text) (suc n) = elim (rfind sep text n) [
  | some i ↦ some (suc i)
  | none ↦ if c == sep then some 0 else none
]

-- The line feeds read since the last other character.
pub data Newlines : Type 0 where
  no_newline one_newline blank : Newlines

abbrev pub one_more : Newlines → Newlines
one_more no_newline = one_newline
one_more _ = blank

-- The character joins the first part, or opens a new one after a blank line.
abbrev pub put_char : Newlines → ℕ → List (List ℕ) → List (List ℕ)
put_char n c [] = (c ∷ []) ∷ []
put_char no_newline c (part ∷ parts) = (c ∷ part) ∷ parts
put_char one_newline c (part ∷ parts) = (newline ∷ c ∷ part) ∷ parts
put_char blank c (part ∷ parts) = [] ∷ (c ∷ part) ∷ parts

abbrev pub last_part : Newlines → List (List ℕ)
last_part no_newline = [] ∷ []
last_part one_newline = (newline ∷ []) ∷ []
last_part blank = [] ∷ [] ∷ []

-- `re.split(r"\n\n+", text)`
unfoldable pub split_after : Newlines → List ℕ → List (List ℕ)
split_after n [] = last_part n
split_after n (c ∷ text) =
    let other = put_char n c (split_after no_newline text) in
    let next = split_after (one_more n) text in if c == newline then next else other

unfoldable pub split_blank : List ℕ → List (List ℕ)
unfolding split_after
split_blank text = split_after no_newline text

module _ (is_space : ℕ → Bool) where
  unfoldable pub lstrip : List ℕ → List ℕ
  lstrip [] = []
  lstrip (c ∷ text) = if is_space c then lstrip text else c ∷ text

  abbrev pub trimmed : ℕ → List ℕ → List ℕ
  trimmed c [] = if is_space c then [] else c ∷ []
  trimmed c (d ∷ text) = c ∷ d ∷ text

  unfoldable pub rstrip : List ℕ → List ℕ
  rstrip [] = []
  rstrip (c ∷ text) = trimmed c (rstrip text)

  unfoldable pub strip : List ℕ → List ℕ
  unfolding lstrip rstrip
  strip text = rstrip (lstrip text)

  -- The text without its white space.
  unfoldable pub ink : List ℕ → List ℕ
  ink text = keep (λ c. not (is_space c)) text

  unfoldable pub ink_all : List (List ℕ) → List ℕ
  unfolding ink
  ink_all [] = []
  ink_all (part ∷ parts) = ink part ++ ink_all parts
