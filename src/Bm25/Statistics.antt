-- ===== src/Bm25/Statistics.antt =====
-- The running statistics of the index: what `_active_count` and `_active_total_dl` are of the
-- documents that it holds.
use ga_ottt.Base.{
  ℕ, suc, ◌+◌, ◌-◌, ◌≤◌, ◌≡◌, refl, true, false, Option, none, some, List, [], ◌∷◌, ◌++◌, ite,
  arith, if◌then◌else◌, length, get_or, is_some,
}
use ga_ottt.Dict.{has}
use ga_ottt.Dict.Laws.{Distinct}

module _ {K : Type 0} (dec : Discrete K) where
  -- The number of documents that are not removed.
  unfoldable pub number : List K → List K → ℕ
  number removed [] = 0
  number removed (d ∷ ids) =
      let rest = number removed ids in if has dec d removed then rest else rest + 1

  -- The sum of their lengths.
  unfoldable pub total : List K → List K → List ℕ → ℕ
  total removed [] lens = 0
  total removed (d ∷ ids) [] = 0
  total removed (d ∷ ids) (n ∷ lens) =
      let rest = total removed ids lens in if has dec d removed then rest else rest + n

  -- The position of a document.
  unfoldable pub position : K → List K → ℕ → Option ℕ
  position k [] at = none
  position k (d ∷ ids) at = ite (dec d k) (some at) (position k ids (at + 1))

  -- The set `s` and the document `k`.
  abbrev pub With : K → List K → List K → Type 0
  With k s t = (j : K) → has dec j t ≡ ite (dec k j) true (has dec j s)

  number_outside :
      (k : K) (s t ids : List K) → With k s t → has dec k ids ≡ false → number t ids ≡ number s ids
  unfolding number has
  number_outside k s t [] w h = refl
  number_outside k s t (d ∷ ids) w h = ground (arith, w d, number_outside k s t ids w)

  total_outside :
      (k : K) (s t ids : List K) (lens : List ℕ)
      → With k s t
      → has dec k ids ≡ false
      → total t ids lens ≡ total s ids lens
  unfolding total has
  total_outside k s t [] lens w h = refl
  total_outside k s t (d ∷ ids) [] w h = refl
  total_outside k s t (d ∷ ids) (n ∷ lens) w h = ground (arith, w d, total_outside k s t ids lens w)

  pub number_without :
      (k : K) (s t ids : List K) (i at : ℕ)
      → With k s t
      → has dec k s ≡ false
      → Distinct dec ids
      → position k ids at ≡ some i
      → number s ids ≡ number t ids + 1
  unfolding number position
  number_without k s t [] i at w h u e = absurd cc
  number_without k s t (d ∷ ids) i at w h u e =
      ground (arith, w d, number_outside k s t ids w, number_without k s t ids i (at + 1) w h u.1)

  position-ge : (k : K) (ids : List K) (i at : ℕ) → position k ids at ≡ some i → at ≤ i
  unfolding position
  position-ge k [] i at e = absurd cc
  position-ge k (d ∷ ids) i at e = ground (arith, position-ge k ids i (at + 1))

  get_or_cons :
      (n : ℕ) (lens : List ℕ) (i at : ℕ)
      → at + 1 ≤ i
      → get_or (n ∷ lens) (i - at) 0 ≡ get_or lens (i - (at + 1)) 0
  get_or_cons n lens i at h = let e : i - at ≡ suc (i - (at + 1)) = omega arith in rw e refl

  get_or_here : (n : ℕ) (lens : List ℕ) (at : ℕ) → get_or (n ∷ lens) (at - at) 0 ≡ n
  get_or_here n lens at = let e : at - at ≡ 0 = omega arith in rw e refl

  pub total_without :
      (k : K) (s t ids : List K) (lens : List ℕ) (i at : ℕ)
      → With k s t
      → has dec k s ≡ false
      → Distinct dec ids
      → length ids ≡ length lens
      → position k ids at ≡ some i
      → total s ids lens ≡ total t ids lens + get_or lens (i - at) 0
  unfolding total position
  total_without k s t [] lens i at w h u l e = absurd cc
  total_without k s t (d ∷ ids) [] i at w h u l e = absurd (omega (arith, l))
  total_without k s t (d ∷ ids) (n ∷ lens) i at w h u l e = ground (
    arith,
    w d,
    total_outside k s t ids lens w,
    total_without k s t ids lens i (at + 1) w h u.1,
    position-ge k ids i (at + 1),
    get_or_cons n lens i at,
    get_or_here n lens at,
  )

  pub position-append :
      (k d : K) (ids : List K) (at : ℕ)
      → position k (ids ++ d ∷ []) at ≡ (
          if is_some (position k ids at)
          then position k ids at
          else ite (dec d k) (some (at + length ids)) none)
  unfolding position
  position-append k d [] at = ground arith
  position-append k d (j ∷ ids) at = ground (arith, position-append k d ids (at + 1))

  pub number-append :
      (s ids : List K) (d : K)
      → number s (ids ++ d ∷ []) ≡ number s ids + (if has dec d s then 0 else 1)
  unfolding number
  number-append s [] d = ground arith
  number-append s (j ∷ ids) d = ground (arith, number-append s ids d)

  pub total-append :
      (s ids : List K) (lens : List ℕ) (d : K) (n : ℕ)
      → length ids ≡ length lens
      → total s (ids ++ d ∷ []) (lens ++ n ∷ []) ≡ total s ids lens + (if has dec d s then 0 else n)
  unfolding total
  total-append s [] [] d n l = ground arith
  total-append s [] (m ∷ lens) d n l = absurd (omega (arith, l))
  total-append s (j ∷ ids) [] d n l = absurd (omega (arith, l))
  total-append s (j ∷ ids) (m ∷ lens) d n l = ground (arith, total-append s ids lens d n)

  pub has-position : (k : K) (ids : List K) (at : ℕ) → has dec k ids ≡ is_some (position k ids at)
  unfolding has position
  has-position k [] at = refl
  has-position k (d ∷ ids) at = ground (arith, has-position k ids (at + 1))

  pub has_append_no :
      (d j : K) (ids : List K)
      → has dec j (ids ++ d ∷ []) ≡ (if has dec j ids then true else ite (dec d j) true false)
  unfolding has
  has_append_no d j [] = ground arith
  has_append_no d j (i ∷ ids) = ground (arith, has_append_no d j ids)

  pub append-Distinct :
      (d : K) (ids : List K)
      → Distinct dec ids
      → has dec d ids ≡ false
      → Distinct dec (ids ++ d ∷ [])
  unfolding has
  append-Distinct d [] u h = (refl, tt)
  append-Distinct d (j ∷ ids) u h = ground (arith, append-Distinct d ids u.1, has_append_no d j ids)
