-- ===== src/Ingest/Cuts.antt =====
-- The cuts of `_hard_split`: each leaves a chunk that fits, and the loop ends.
use ga_ottt.Base.{
  ℕ, zero, suc, ◌-◌, ◌≤◌, ◌<◌, ◌≡◌, refl, inl, inr, Bool, Option, none, some, List, [], ◌∷◌, ◌++◌,
  arith, if◌then◌else◌, length, ltb, take, drop, ◌==◌, All, Bool-cases,
}
use ga_ottt.Ingest.Text.{is_empty, strip, lstrip, rstrip, trimmed, rfind}
use ga_ottt.Ingest.{separators, after_rfind, cut_at, then_rest, hard_split_rounds, hard_split}

pub length-take-le : (n : ℕ) (text : List ℕ) → length (take n text) ≤ n
length-take-le zero text = omega arith
length-take-le (suc n) [] = omega arith
length-take-le (suc n) (c ∷ text) = omega (arith, length-take-le n text)

pub length-drop-le : (n : ℕ) (text : List ℕ) → length (drop n text) ≤ length text - n
length-drop-le zero text = omega arith
length-drop-le (suc n) [] = omega arith
length-drop-le (suc n) (c ∷ text) = omega (arith, length-drop-le n text)

pub rfind-lt : (sep : ℕ) (text : List ℕ) (n : ℕ) {i : ℕ} → rfind sep text n ≡ some i → i < n
unfolding rfind
rfind-lt sep text zero h = cc
rfind-lt sep [] (suc n) h = cc
rfind-lt sep (c ∷ text) (suc n) h = by (rfind sep text n) (λ j. rfind-lt sep text n {i = j}) h
  where
    by :
        (found : Option ℕ) {i : ℕ}
        → ((j : ℕ) → found ≡ some j → j < n)
        → (elim found [ some j ↦ some (suc j) | none ↦ if c == sep then some 0 else none ]) ≡ some i
        → i < suc n
    by none below e = ground arith
    by (some j) below e = ground (arith, below j refl)

-- A cut leaves a chunk that is not empty and fits.
pub cut_at_bounds :
    (seps : List ℕ) (max_chars : ℕ) (text : List ℕ)
    → 0 < max_chars
    → (0 < cut_at seps max_chars text) × (cut_at seps max_chars text ≤ max_chars)
unfolding cut_at after_rfind
cut_at_bounds [] max_chars text pos = omega arith
cut_at_bounds (sep ∷ seps) max_chars text pos =
    by (rfind sep text max_chars) (λ i. rfind-lt sep text max_chars {i = i})
      (cut_at_bounds seps max_chars text pos)
  where
    by :
        (found : Option ℕ)
        → ((i : ℕ) → found ≡ some i → i < max_chars)
        → (0 < cut_at seps max_chars text) × (cut_at seps max_chars text ≤ max_chars)
        → (0 < after_rfind max_chars found (cut_at seps max_chars text))
          × (after_rfind max_chars found (cut_at seps max_chars text) ≤ max_chars)
    by none below rest = rest
    by (some i) below rest = ground (arith, below i refl)

-- The pieces are there, and each fits.
abbrev pub Fits : ℕ → List (List ℕ) → Type 0
Fits max_chars chunks = All (λ chunk. length chunk ≤ max_chars) chunks

abbrev pub Split : ℕ → Option (List (List ℕ)) → Type 0
Split max_chars none = ⊥
Split max_chars (some chunks) = Fits max_chars chunks

pub Fits-append : (n : ℕ) (xs ys : List (List ℕ)) → Fits n xs → Fits n ys → Fits n (xs ++ ys)
Fits-append n [] ys p q = q
Fits-append n (x ∷ xs) ys (h, p) q = (h, Fits-append n xs ys p q)

module _ (is_space : ℕ → Bool) where
  pub length-lstrip-le : (text : List ℕ) → length (lstrip is_space text) ≤ length text
  unfolding lstrip
  length-lstrip-le [] = omega arith
  length-lstrip-le (c ∷ text) = ground (arith, length-lstrip-le text)

  pub length-trimmed-le :
      (c : ℕ) (text : List ℕ) → length (trimmed is_space c text) ≤ suc (length text)
  length-trimmed-le c [] = ground arith
  length-trimmed-le c (d ∷ text) = omega arith

  pub length-rstrip-le : (text : List ℕ) → length (rstrip is_space text) ≤ length text
  unfolding rstrip
  length-rstrip-le [] = omega arith
  length-rstrip-le (c ∷ text) =
      omega (arith, length-trimmed-le c (rstrip is_space text), length-rstrip-le text)

  pub length-strip-le : (text : List ℕ) → length (strip is_space text) ≤ length text
  unfolding strip
  length-strip-le text =
      omega (arith, length-rstrip-le (lstrip is_space text), length-lstrip-le text)

  pub then_rest-Split :
      (n : ℕ) (chunk : List ℕ) (rest : Option (List (List ℕ)))
      → length chunk ≤ n
      → Split n rest
      → Split n (then_rest chunk rest)
  unfolding then_rest
  then_rest-Split n chunk none h s = s
  then_rest-Split n chunk (some chunks) h s = (h, s)

  pub hard_split_rounds-Split :
      (fuel max_chars : ℕ) (text : List ℕ)
      → 0 < max_chars
      → length text < fuel
      → Split max_chars (hard_split_rounds is_space fuel max_chars text)
  unfolding hard_split_rounds
  hard_split_rounds-Split zero max_chars text pos enough = absurd (omega arith)
  hard_split_rounds-Split (suc fuel) max_chars text pos enough =
      elim (Bool-cases (ltb max_chars (length text))) [
        | inl long ↦ rw long (
            then_rest-Split max_chars _ _
              (omega (arith, length-strip-le (take cut text), length-take-le cut text, bounds))
              (hard_split_rounds-Split fuel max_chars (strip is_space (drop cut text)) pos
                (ground (arith, length-strip-le (drop cut text), length-drop-le cut text, bounds))))
        | inr short ↦ rw short (last text (ground arith))
      ]
    where
      cut : ℕ
      cut = cut_at separators max_chars text

      bounds : (0 < cut) × (cut ≤ max_chars)
      bounds = cut_at_bounds separators max_chars text pos

      last :
          (text : List ℕ)
          → length text ≤ max_chars
          → Fits max_chars (if is_empty text then [] else text ∷ [])
      last [] h = tt
      last (c ∷ text) h = (h, tt)

  pub hard_split-Split :
      (max_chars : ℕ) (text : List ℕ)
      → 0 < max_chars
      → Split max_chars (hard_split is_space max_chars text)
  unfolding hard_split
  hard_split-Split max_chars text pos =
      hard_split_rounds-Split (suc (length text)) max_chars text pos (omega arith)
