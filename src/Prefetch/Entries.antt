-- ===== src/Prefetch/Entries.antt =====
-- The eviction loop and `move_to_end`, by what stays and what is counted.
use ga_ottt.Base.{
  ℕ, ◌+◌, ◌≤◌, ◌≡◌, refl, List, [], ◌∷◌, arith, length, length-append, Option-cases, inl, inr,
}
use ga_ottt.Dict.{Dict, keys, lookup, erase}
use ga_ottt.Dict.Laws.{Distinct, lookup-erase, lookup-append, length-erase-lt}
use ga_ottt.Dict.Unique.{erase-Distinct, append-Distinct}
use ga_ottt.Prefetch.{evict, move_to_end}

pub length-evict-le : {E : Type 0} (n : ℕ) (es : List E) (k : ℕ) → length (evict n es k).0 ≤ n
unfolding evict
length-evict-le n [] k = omega arith
length-evict-le n (e ∷ es) k = ground (arith, length-evict-le n es (k + 1))

pub evict-counts :
    {E : Type 0} (n : ℕ) (es : List E) (k : ℕ)
    → (evict n es k).1 + length (evict n es k).0 ≡ k + length es
unfolding evict
evict-counts n [] k = omega arith
evict-counts n (e ∷ es) k = ground (arith, evict-counts n es (k + 1))

pub evict_fits : {E : Type 0} (n : ℕ) (es : List E) (k : ℕ) → length es ≤ n → evict n es k ≡ (es, k)
unfolding evict
evict_fits n [] k h = refl
evict_fits n (e ∷ es) k h = ground arith

-- One entry too many: the first goes.
pub evict_one :
    {E : Type 0} (n : ℕ) (e : E) (es : List E) (k : ℕ)
    → length es ≡ n
    → evict n (e ∷ es) k ≡ (es, k + 1)
unfolding evict
evict_one n e es k h = ground (arith, evict_fits n es (k + 1))

module _ {K R : Type 0} (dec : Discrete K) where
  pub evict-Distinct :
      (n : ℕ) (es : Dict K R) (k : ℕ)
      → Distinct dec (keys es)
      → Distinct dec (keys (evict n es k).0)
  unfolding evict
  evict-Distinct n [] k h = tt
  evict-Distinct n (e ∷ es) k h = ground (arith, evict-Distinct n es (k + 1))

module _ {K R : Type 0} (dec : Discrete K) (key : K) where
  pub lookup-move_to_end :
      (j : K) (d : Dict K (ℕ × R)) → lookup dec j (move_to_end dec key d) ≡ lookup dec j d
  unfolding move_to_end lookup
  lookup-move_to_end j d = elim (Option-cases (lookup dec key d)) [
    | inl e ↦ rw (e, move_to_end) refl
    | inr (v, e) ↦
        rw (e, move_to_end)
          (ground (
            arith,
            lookup-append dec j (erase dec key d) ((key, v) ∷ []),
            lookup-erase dec key j d,
          ))
  ]

  pub move_to_end-Distinct :
      (d : Dict K (ℕ × R)) → Distinct dec (keys d) → Distinct dec (keys (move_to_end dec key d))
  unfolding move_to_end
  move_to_end-Distinct d h = elim (Option-cases (lookup dec key d)) [
    | inl e ↦ rw (e, move_to_end) h
    | inr (v, e) ↦
        rw (e, move_to_end)
          (append-Distinct dec key v (erase dec key d) (erase-Distinct dec key d h)
            (ground (arith, lookup-erase dec key key d)))
  ]

  pub length-move_to_end-le : (d : Dict K (ℕ × R)) → length (move_to_end dec key d) ≤ length d
  unfolding move_to_end
  length-move_to_end-le d = elim (Option-cases (lookup dec key d)) [
    | inl e ↦ rw (e, move_to_end) (omega arith)
    | inr (v, e) ↦
        rw (e, move_to_end)
          (omega
            (arith, length-append (erase dec key d) ((key, v) ∷ []), length-erase-lt dec key v d e))
  ]
