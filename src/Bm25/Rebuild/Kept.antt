-- ===== src/Bm25/Rebuild/Kept.antt =====
-- What a rebuild keeps.
use ga_ottt.Base.{
  ℕ, ◌+◌, ◌≡◌, refl, sym, subst, ◌⊎◌, ◌∙◌, inl, inr, List, [], ◌∷◌, arith, if◌then◌else◌, not,
  length, is_some,
}
use ga_ottt.Dict.{Dict, lookup, insert, has}
use ga_ottt.Dict.Laws.{Distinct, lookup-insert}
use ga_ottt.Links.Rows.{has-keep}
use ga_ottt.Bm25.{Index}
use ga_ottt.Bm25.Counted.{IsCounted}
use ga_ottt.Bm25.Statistics.{number, total, position, has-position}
use ga_ottt.Bm25.Rebuild.{sum, index_all, kept_ids, kept_lens, rebuilt, rebuild}

module _ {K : Type 0} (dec : Discrete K) where
  length-kept_ids : (s ids : List K) → length (kept_ids dec s ids) ≡ number dec s ids
  unfolding kept_ids number
  length-kept_ids s [] = refl
  length-kept_ids s (d ∷ ids) = ground (arith, length-kept_ids s ids)

  length-kept_lens :
      (s ids : List K) (lens : List ℕ)
      → length ids ≡ length lens
      → length (kept_lens dec s ids lens) ≡ number dec s ids
  unfolding kept_lens number
  length-kept_lens s [] lens h = refl
  length-kept_lens s (d ∷ ids) [] h = absurd (omega (arith, h))
  length-kept_lens s (d ∷ ids) (n ∷ lens) h = ground (arith, length-kept_lens s ids lens)

  sum-kept_lens :
      (s ids : List K) (lens : List ℕ) → sum (kept_lens dec s ids lens) ≡ total dec s ids lens
  unfolding kept_lens sum total
  sum-kept_lens s [] lens = refl
  sum-kept_lens s (d ∷ ids) [] = refl
  sum-kept_lens s (d ∷ ids) (n ∷ lens) = ground (arith, sum-kept_lens s ids lens)

  number_nil : (ids : List K) → number dec [] ids ≡ length ids
  unfolding number has
  number_nil [] = refl
  number_nil (d ∷ ids) = omega (arith, number_nil ids)

  total_nil :
      (ids : List K) (lens : List ℕ) → length ids ≡ length lens → total dec [] ids lens ≡ sum lens
  unfolding total has sum
  total_nil [] [] h = refl
  total_nil [] (n ∷ lens) h = absurd (omega (arith, h))
  total_nil (d ∷ ids) [] h = absurd (omega (arith, h))
  total_nil (d ∷ ids) (n ∷ lens) h = ground (arith, total_nil ids lens)

  kept_ids-Distinct : (s ids : List K) → Distinct dec ids → Distinct dec (kept_ids dec s ids)
  unfolding kept_ids
  kept_ids-Distinct s [] h = tt
  kept_ids-Distinct s (d ∷ ids) h =
      ground (arith, kept_ids-Distinct s ids h.1, has-keep dec (λ e. not (has dec e s)) d ids)

  lookup-index_all :
      (d : K) (ids : List K) (at : ℕ) (m : Dict K ℕ)
      → Distinct dec ids
      → lookup dec d (index_all dec ids at m)
        ≡ (if is_some (position dec d ids at) then position dec d ids at else lookup dec d m)
  unfolding index_all position
  lookup-index_all d [] at m h = refl
  lookup-index_all d (j ∷ ids) at m h = ground (
    arith,
    lookup-index_all d ids (at + 1) (insert dec j at m) h.1,
    lookup-insert dec j d at m,
    has-position dec d ids (at + 1),
  )

module _ {K T : Type 0} (dec : Discrete K) where
  -- A rebuilt index has nothing removed and the statistics of the old one.
  abbrev pub IsRebuilt : Index K T → Index K T → Type 0
  IsRebuilt old new =
      IsCounted dec new
      × (new.removed ≡ [])
      × (new.active_count ≡ old.active_count)
      × (new.active_total_dl ≡ old.active_total_dl)

  rebuilt-IsRebuilt : (ix : Index K T) → IsCounted dec ix → IsRebuilt ix (rebuilt dec ix)
  unfolding rebuilt
  rebuilt-IsRebuilt ix (same, distinct, index, known, count, total_dl) =
      let ids : List K = kept_ids dec ix.removed ix.doc_ids in
      let lens : List ℕ = kept_lens dec ix.removed ix.doc_ids ix.doc_lens in
      let n : length ids ≡ number dec ix.removed ix.doc_ids =
        length-kept_ids dec ix.removed ix.doc_ids in
      let m : length lens ≡ number dec ix.removed ix.doc_ids =
        length-kept_lens dec ix.removed ix.doc_ids ix.doc_lens same in
      (
        (
          n ∙ sym m,
          kept_ids-Distinct dec ix.removed ix.doc_ids distinct,
          λ d. at_position d ids (kept_ids-Distinct dec ix.removed ix.doc_ids distinct),
          λ d. unfold has in refl,
          sym (number_nil dec ids),
          sym (total_nil dec ids lens (n ∙ sym m)),
        ),
        refl,
        n ∙ sym count,
        sum-kept_lens dec ix.removed ix.doc_ids ix.doc_lens ∙ sym total_dl,
      )
    where
      at_position :
          (d : K) (ids : List K)
          → Distinct dec ids
          → lookup dec d (index_all dec ids 0 []) ≡ position dec d ids 0
      at_position d ids u = unfold lookup in ground (arith, lookup-index_all dec d ids 0 [] u)

  rebuild_cases :
      (ix : Index K T)
      → ((rebuild dec ix ≡ ix) × (ix.removed ≡ [])) ⊎ (rebuild dec ix ≡ rebuilt dec ix)
  unfolding rebuild
  rebuild_cases ix = go ix.removed
    where
      go :
          (s : List K)
          → ((elim s [ [] ↦ ix | d ∷ ds ↦ rebuilt dec ix ] ≡ ix) × (s ≡ []))
            ⊎ (elim s [ [] ↦ ix | d ∷ ds ↦ rebuilt dec ix ] ≡ rebuilt dec ix)
      go [] = inl (refl, refl)
      go (d ∷ ds) = inr refl

  -- The rebuild of an index that is counted is counted, has nothing removed, and has the old number
  -- of active documents and the old sum of their lengths.
  pub rebuild-IsRebuilt : (ix : Index K T) → IsCounted dec ix → IsRebuilt ix (rebuild dec ix)
  rebuild-IsRebuilt ix h = elim (rebuild_cases ix) [
    | inl (same, nothing) ↦ subst (IsRebuilt ix) (sym same) (h, nothing, refl, refl)
    | inr changed ↦ subst (IsRebuilt ix) (sym changed) (rebuilt-IsRebuilt ix h)
  ]
