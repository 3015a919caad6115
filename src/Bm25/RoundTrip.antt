-- ===== src/Bm25/RoundTrip.antt =====
-- `restore` undoes `remove`.
use ga_ottt.Base.{
  ℕ, ◌+◌, ◌-◌, ◌≤◌, ◌≡◌, refl, ◌∙◌, ap, inl, inr, true, false, some, List, [], ◌∷◌, arith, get_or,
  Option-cases,
}
use ga_ottt.Dict.{lookup, has, add, discard}
use ga_ottt.Dict.Laws.{has-add}
use ga_ottt.Bm25.{Index, remove_doc, remove, restore_doc, restore}
use ga_ottt.Bm25.Counted.{IsCounted, total_taken}
use ga_ottt.Bm25.Statistics.{position, With, number_without, has-position}

module _ {K : Type 0} (dec : Discrete K) where
  discard-add : (d : K) (s : List K) → has dec d s ≡ false → discard dec d (add dec d s) ≡ s
  unfolding has discard add
  discard-add d [] h = ground arith
  discard-add d (j ∷ s) h = ground (arith, discard-add d s)

module _ {K T : Type 0} (dec : Discrete K) where
  abbrev without_doc : Index K T → K → ℕ → Index K T
  without_doc ix d i = record ix {
    removed = add dec d ix.removed;
    active_count = ix.active_count - 1;
    active_total_dl = ix.active_total_dl - get_or ix.doc_lens i 0;
  }

  removal :
      (ix : Index K T) (d : K) (i : ℕ)
      → has dec d ix.removed ≡ false
      → lookup dec d ix.id_to_idx ≡ some i
      → remove_doc dec ix d ≡ without_doc ix d i
  unfolding remove_doc
  removal ix d i out e = rw (out, e) refl

  restoral :
      (ix : Index K T) (d : K) (i : ℕ)
      → has dec d ix.removed ≡ false
      → lookup dec d ix.id_to_idx ≡ some i
      → 1 ≤ ix.active_count
      → get_or ix.doc_lens i 0 ≤ ix.active_total_dl
      → restore_doc dec (without_doc ix d i) d ≡ ix
  unfolding restore_doc
  restoral ix d i out e c t =
      let w : has dec d (add dec d ix.removed) ≡ true =
        ground (arith, has-add dec d d ix.removed) in
      let back : discard dec d (add dec d ix.removed) ≡ ix.removed =
        discard-add dec d ix.removed out in
      let n : ix.active_count - 1 + 1 ≡ ix.active_count = omega arith in
      let m : ix.active_total_dl - get_or ix.doc_lens i 0 + get_or ix.doc_lens i 0
          ≡ ix.active_total_dl =
        omega arith in
      rw (w, e, back, n, m) refl

  -- In an index that is counted, removing a document that it holds and that is not removed, and
  -- restoring it, gives the index back, all of it.
  pub restore-remove :
      (ix : Index K T) (d : K)
      → IsCounted dec ix
      → has dec d ix.doc_ids ≡ true
      → has dec d ix.removed ≡ false
      → restore dec (remove dec ix (d ∷ [])) (d ∷ []) ≡ ix
  unfolding restore remove
  restore-remove ix d (same, distinct, index, known, count, sum) here out =
      elim (Option-cases (position dec d ix.doc_ids 0)) [
        | inl nowhere ↦ absurd (grind (arith, has-position dec d ix.doc_ids 0))
        | inr (i, at) ↦
            let e : lookup dec d ix.id_to_idx ≡ some i = cc (index d) in
            let s : List K = ix.removed in
            let t : List K = add dec d s in
            let w : With dec d s t = λ j. has-add dec d j s in
            ap (λ x. restore_doc dec x d) (removal ix d i out e)
            ∙ restoral ix d i out e
                (omega (arith, number_without dec d s t ix.doc_ids i 0 w out distinct at))
                (omega
                  (arith, total_taken dec d s t ix.doc_ids ix.doc_lens i w out distinct same at))
      ]
