-- ===== src/Segmentation/Bounds.antt =====
-- The segments of a query that splits are long enough, and no more than the cap.
use ga_ottt.Base.{
  ℕ, zero, suc, ◌≤◌, ◌≡◌, ◌⊎◌, refl, inl, inr, Bool, true, false, not, ◌||◌, List, [], ◌∷◌, ◌++◌,
  arith, if◌then◌else◌, length, length-append, ltb, leb, take, keep, map, All, Bool-cases,
}
use ga_ottt.Segmentation.{
  joined, not_empty, join_last, merge_part, merge_parts, fold_into, fold_forward, insert_longest,
  longest_first, capped, from_merged, from_parts, segment_query,
}

module _ {C : Type 0} (space : C) where
  -- No segment is shorter than `min_chars`.
  abbrev pub LongEnough : ℕ → List (List C) → Type 0
  LongEnough min_chars ms = All (λ m. min_chars ≤ length m) ms

  -- None but the first.
  abbrev pub LongAfterFirst : ℕ → List (List C) → Type 0
  LongAfterFirst min_chars [] = Unit
  LongAfterFirst min_chars (m ∷ ms) = LongEnough min_chars ms

  LongEnough-append :
      (n : ℕ) (ms ns : List (List C)) → LongEnough n ms → LongEnough n ns → LongEnough n (ms ++ ns)
  LongEnough-append n [] ns p q = q
  LongEnough-append n (m ∷ ms) ns (h, p) q = (h, LongEnough-append n ms ns p q)

  join_last-LongEnough :
      (n : ℕ) (m : List C) (ms : List (List C)) (part : List C)
      → LongEnough n (m ∷ ms)
      → LongEnough n (join_last space m ms part)
  unfolding join_last
  join_last-LongEnough n m [] part (h, p) = (omega (arith, h, length-append m (space ∷ part)), tt)
  join_last-LongEnough n m (k ∷ ms) part (h, p) = (h, join_last-LongEnough n k ms part p)

  join_last-LongAfterFirst :
      (n : ℕ) (m : List C) (ms : List (List C)) (part : List C)
      → LongEnough n ms
      → LongAfterFirst n (join_last space m ms part)
  unfolding join_last
  join_last-LongAfterFirst n m [] part long = tt
  join_last-LongAfterFirst n m (k ∷ ms) part long = join_last-LongEnough n k ms part long

  merge_part-LongAfterFirst :
      (n : ℕ) (ms : List (List C)) (part : List C)
      → LongAfterFirst n ms
      → LongAfterFirst n (merge_part space n ms part)
  unfolding merge_part
  merge_part-LongAfterFirst n [] part long = tt
  merge_part-LongAfterFirst n (m ∷ ms) part long = elim (Bool-cases (ltb (length part) n)) [
    | inl short ↦ rw short (join_last-LongAfterFirst n m ms part long)
    | inr fits ↦ rw fits (LongEnough-append n ms (part ∷ []) long (ground arith, tt))
  ]

  merge_parts-LongAfterFirst :
      (n : ℕ) (ms parts : List (List C))
      → LongAfterFirst n ms
      → LongAfterFirst n (merge_parts space n ms parts)
  unfolding merge_parts
  merge_parts-LongAfterFirst n ms [] long = long
  merge_parts-LongAfterFirst n ms (part ∷ parts) long =
      merge_parts-LongAfterFirst n (merge_part space n ms part) parts
        (merge_part-LongAfterFirst n ms part long)

  -- Folding ends with one segment, or with all of them long enough.
  fold_into_lem :
      (n : ℕ) (m : List C) (ms : List (List C))
      → LongEnough n ms
      → (length (fold_into space n m ms) ≤ 1) ⊎ LongEnough n (fold_into space n m ms)
  unfolding fold_into
  fold_into_lem n m [] long = inl (omega arith)
  fold_into_lem n m (k ∷ ms) (h, long) = elim (Bool-cases (ltb (length m) n)) [
    | inl short ↦ rw short (fold_into_lem n (joined space m k) ms long)
    | inr fits ↦ rw fits (inr (ground arith, (h, long)))
  ]

  insert_longest-LongEnough :
      (n : ℕ) (m : List C) (ms : List (List C))
      → n ≤ length m
      → LongEnough n ms
      → LongEnough n (insert_longest space m ms)
  unfolding insert_longest
  insert_longest-LongEnough n m [] h long = (h, tt)
  insert_longest-LongEnough n m (k ∷ ms) h (hk, long) =
      ground (arith, insert_longest-LongEnough n m ms h long)

  length-insert_longest :
      (m : List C) (ms : List (List C)) → length (insert_longest space m ms) ≡ suc (length ms)
  unfolding insert_longest
  length-insert_longest m [] = refl
  length-insert_longest m (k ∷ ms) = ground (arith, length-insert_longest m ms)

  longest_first_lem :
      (n : ℕ) (ms : List (List C))
      → LongEnough n ms
      → LongEnough n (longest_first space ms) × (length (longest_first space ms) ≡ length ms)
  unfolding longest_first
  longest_first_lem n [] long = (tt, refl)
  longest_first_lem n (m ∷ ms) (h, long) =
      let (l, e) = longest_first_lem n ms long in
      (
        insert_longest-LongEnough n m (longest_first space ms) h l,
        omega (arith, length-insert_longest m (longest_first space ms), e),
      )

  take_lem :
      (n k : ℕ) (ms : List (List C))
      → LongEnough n ms
      → k ≤ length ms
      → LongEnough n (take k ms) × (length (take k ms) ≡ k)
  take_lem n zero ms long fits = (tt, refl)
  take_lem n (suc k) [] long fits = ground arith
  take_lem n (suc k) (m ∷ ms) (h, long) fits =
      let (l, e) = take_lem n k ms long (omega (arith, fits)) in ((h, l), omega (arith, e))

  -- Between two and `cap` segments, none too short.
  abbrev pub WithinBounds : ℕ → ℕ → List (List C) → Type 0
  WithinBounds n cap ms = LongEnough n ms × (2 ≤ length ms) × (length ms ≤ cap)

  capped-WithinBounds :
      (n cap : ℕ) (ms : List (List C))
      → LongEnough n ms
      → 2 ≤ length ms
      → 2 ≤ cap
      → WithinBounds n cap (capped space cap ms)
  unfolding capped
  capped-WithinBounds n cap ms long two cap_two = elim (Bool-cases (ltb cap (length ms))) [
    | inl over ↦
        let (l, e) = longest_first_lem n ms long in
        let (l', e') = take_lem n cap (longest_first space ms) l (ground arith) in
        rw over (l', omega (arith, e', cap_two), omega (arith, e'))
    | inr fits ↦ rw fits (long, two, ground arith)
  ]

  fold_forward_lem :
      (n : ℕ) (ms : List (List C))
      → LongAfterFirst n ms
      → (length (fold_forward space n ms) ≤ 1) ⊎ LongEnough n (fold_forward space n ms)
  unfolding fold_forward
  fold_forward_lem n [] long = inr tt
  fold_forward_lem n (m ∷ ms) long = fold_into_lem n m ms long

  from_parts-WithinBounds :
      (n cap : ℕ) (stripped : List C) (parts : List (List C))
      → 2 ≤ cap
      → (from_parts space n cap stripped parts ≡ stripped ∷ [])
        ⊎ WithinBounds n cap (from_parts space n cap stripped parts)
  unfolding from_parts from_merged
  from_parts-WithinBounds n cap stripped parts two = elim (Bool-cases (leb (length parts) 1)) [
    | inl one ↦ rw one (inl refl)
    | inr more ↦ rw more (by (leb (length merged) 1) refl)
  ]
    where
      merged : List (List C)
      merged = fold_forward space n (merge_parts space n [] parts)

      by :
          (b : Bool)
          → leb (length merged) 1 ≡ b
          → ((if b then stripped ∷ [] else capped space cap merged) ≡ stripped ∷ [])
            ⊎ WithinBounds n cap (if b then stripped ∷ [] else capped space cap merged)
      by true q = inl refl
      by false q =
          elim (fold_forward_lem n (merge_parts space n [] parts)
            (merge_parts-LongAfterFirst n [] parts tt)) [
              | inl one ↦ ground (arith, one, q)
              | inr long ↦ inr (capped-WithinBounds n cap merged long (ground (arith, q)) two)
            ]

  -- `segment_query` answers the text alone, the stripped text alone, or at least two segments, no
  -- more than `multi_source_max_segments`, none of them shorter than
  -- `multi_source_min_segment_chars`.
  pub segment_query-WithinBounds :
      (strip : List C → List C) (split : List C → List (List C)) (n cap : ℕ) (text : List C)
      → (segment_query space strip split n cap text ≡ text ∷ [])
        ⊎ (segment_query space strip split n cap text ≡ strip text ∷ [])
        ⊎ WithinBounds n cap (segment_query space strip split n cap text)
  unfolding segment_query
  segment_query-WithinBounds strip split n cap text =
      elim (Bool-cases (not (not_empty space (strip text)) || ltb cap 2)) [
        | inl whole ↦ rw whole (inl refl)
        | inr split_it ↦ rw split_it (
            inr (
              from_parts-WithinBounds n cap (strip text)
                (keep (not_empty space) (map strip (split (strip text)))) (ground arith)))
      ]
