-- ===== src/Bm25/Counted.antt =====
-- The statistics of the index through `add`, `remove`, `restore` and `reset`.
use ga_ottt.Base.{
  ℕ, ◌+◌, ◌-◌, ◌≡◌, refl, subst, ◌&&◌, inl, inr, true, false, none, some, List, [], ◌∷◌, ◌++◌,
  arith, not, length, length-append, get_or, Option-cases, Bool-cases, ◌==◌,
}
use ga_ottt.Dict.{Dict, lookup, insert, has, add, discard}
use ga_ottt.Dict.Laws.{Distinct, lookup-insert, has-add, has-discard}
use ga_ottt.Bm25.{
  Index, Answer, ok, value_error, add_doc, add_docs, add_documents, add_postings, count_tokens,
  remove_doc, remove, restore_doc, restore, reset, empty_index,
}
use ga_ottt.Bm25.Statistics.{
  number, total, position, With, number_without, total_without, position-append, number-append,
  total-append, has-position, append-Distinct, has_append_no,
}

module _ {K : Type 0} (dec : Discrete K) where
  only_known :
      (d j : K) (s t ids : List K)
      → With dec d s t
      → has dec d ids ≡ true
      → (has dec j s && not (has dec j ids)) ≡ false
      → (has dec j t && not (has dec j ids)) ≡ false
  only_known d j s t ids w e h = elim (dec d j) [
    | yes q ↦ let known : has dec j ids ≡ true = cc in ground (arith, known, w j)
    | no q ↦ ground (arith, w j)
  ]

  pub total_taken :
      (d : K) (s t ids : List K) (lens : List ℕ) (i : ℕ)
      → With dec d s t
      → has dec d s ≡ false
      → Distinct dec ids
      → length ids ≡ length lens
      → position dec d ids 0 ≡ some i
      → total dec s ids lens ≡ total dec t ids lens + get_or lens i 0
  total_taken d s t ids lens i w out distinct same e =
      let zero_off : i - 0 ≡ i = omega arith in
      subst (λ j. total dec s ids lens ≡ total dec t ids lens + get_or lens j 0) zero_off
        (total_without dec d s t ids lens i 0 w out distinct same e)

module _ {K T : Type 0} (dec : Discrete K) where
  -- The arrays have one length, no document stands twice, `_id_to_idx` holds each one's position,
  -- only documents of the index are removed, and the two counters are the number and the summed
  -- length of the documents that are not removed.
  abbrev pub IsCounted : Index K T → Type 0
  IsCounted ix =
      (length ix.doc_ids ≡ length ix.doc_lens)
      × Distinct dec ix.doc_ids
      × ((d : K) → lookup dec d ix.id_to_idx ≡ position dec d ix.doc_ids 0)
      × ((d : K) → (has dec d ix.removed && not (has dec d ix.doc_ids)) ≡ false)
      × (ix.active_count ≡ number dec ix.removed ix.doc_ids)
      × (ix.active_total_dl ≡ total dec ix.removed ix.doc_ids ix.doc_lens)

  taken_out :
      (ix : Index K T) (d : K) (i : ℕ)
      → IsCounted ix
      → has dec d ix.removed ≡ false
      → lookup dec d ix.id_to_idx ≡ some i
      → IsCounted (record ix {
        removed = add dec d ix.removed;
        active_count = ix.active_count - 1;
        active_total_dl = ix.active_total_dl - get_or ix.doc_lens i 0;
      })
  taken_out ix d i (same, distinct, index, known, count, sum) out e =
      let w : With dec d ix.removed (add dec d ix.removed) = λ j. has-add dec d j ix.removed in
      let at : position dec d ix.doc_ids 0 ≡ some i = cc (index d) in
      let here : has dec d ix.doc_ids ≡ true = ground (arith, has-position dec d ix.doc_ids 0) in
      (
        same,
        distinct,
        index,
        λ j. only_known dec d j ix.removed (add dec d ix.removed) ix.doc_ids w here (known j),
        omega (
          arith,
          number_without dec d ix.removed (add dec d ix.removed) ix.doc_ids i 0 w out distinct at,
        ),
        omega (
          arith,
          total_taken dec d ix.removed (add dec d ix.removed) ix.doc_ids ix.doc_lens i w out
              distinct same at,
        ),
      )

  put_back :
      (ix : Index K T) (d : K) (i : ℕ)
      → IsCounted ix
      → has dec d ix.removed ≡ true
      → lookup dec d ix.id_to_idx ≡ some i
      → IsCounted (record ix {
        removed = discard dec d ix.removed;
        active_count = ix.active_count + 1;
        active_total_dl = ix.active_total_dl + get_or ix.doc_lens i 0;
      })
  put_back ix d i (same, distinct, index, known, count, sum) gone e =
      let rest : List K = discard dec d ix.removed in
      let out : has dec d rest ≡ false = ground (arith, has-discard dec d d ix.removed) in
      let w : With dec d rest ix.removed = λ j. elim (dec d j) [
        | yes q ↦ let r : has dec j ix.removed ≡ true = cc in ground (arith, r)
        | no q ↦ ground (arith, has-discard dec d j ix.removed)
      ] in
      let at : position dec d ix.doc_ids 0 ≡ some i = cc (index d) in
      (
        same,
        distinct,
        index,
        λ j. ground (arith, known j, has-discard dec d j ix.removed),
        omega (arith, number_without dec d rest ix.removed ix.doc_ids i 0 w out distinct at),
        omega (
          arith,
          total_taken dec d rest ix.removed ix.doc_ids ix.doc_lens i w out distinct same at,
        ),
      )

  remove_doc-IsCounted : (ix : Index K T) (d : K) → IsCounted ix → IsCounted (remove_doc dec ix d)
  unfolding remove_doc
  remove_doc-IsCounted ix d h = elim (Bool-cases (has dec d ix.removed)) [
    | inl gone ↦ rw gone h
    | inr stays ↦ elim (Option-cases (lookup dec d ix.id_to_idx)) [
      | inl absent ↦ rw (stays, absent) h
      | inr (i, e) ↦ rw (stays, e) (taken_out ix d i h stays e)
    ]
  ]

  restore_doc-IsCounted : (ix : Index K T) (d : K) → IsCounted ix → IsCounted (restore_doc dec ix d)
  unfolding restore_doc
  restore_doc-IsCounted ix d h = elim (Bool-cases (has dec d ix.removed)) [
    | inr stays ↦ rw stays h
    | inl gone ↦ elim (Option-cases (lookup dec d ix.id_to_idx)) [
      | inl absent ↦ rw (gone, absent) h
      | inr (i, e) ↦ rw (gone, e) (put_back ix d i h gone e)
    ]
  ]

  remove-IsCounted : (ix : Index K T) (ds : List K) → IsCounted ix → IsCounted (remove dec ix ds)
  unfolding remove
  remove-IsCounted ix [] h = h
  remove-IsCounted ix (d ∷ ds) h =
      remove-IsCounted (remove_doc dec ix d) ds (remove_doc-IsCounted ix d h)

  restore-IsCounted : (ix : Index K T) (ds : List K) → IsCounted ix → IsCounted (restore dec ix ds)
  unfolding restore
  restore-IsCounted ix [] h = h
  restore-IsCounted ix (d ∷ ds) h =
      restore-IsCounted (restore_doc dec ix d) ds (restore_doc-IsCounted ix d h)

  grown :
      (ix : Index K T) (d : K) (n : ℕ) (inv : Dict T (List (ℕ × ℕ)))
      → IsCounted ix
      → lookup dec d ix.id_to_idx ≡ none
      → IsCounted (record {
        doc_ids = ix.doc_ids ++ d ∷ [];
        doc_lens = ix.doc_lens ++ n ∷ [];
        id_to_idx = insert dec d (length ix.doc_ids) ix.id_to_idx;
        inverted = inv;
        removed = ix.removed;
        active_count = ix.active_count + 1;
        active_total_dl = ix.active_total_dl + n;
      })
  grown ix d n inv (same, distinct, index, known, count, sum) fresh =
      let nowhere : position dec d ix.doc_ids 0 ≡ none = cc (index d) in
      let new : has dec d ix.doc_ids ≡ false = ground (arith, has-position dec d ix.doc_ids 0) in
      let active : has dec d ix.removed ≡ false = ground (arith, known d) in
      (
        omega (arith, length-append ix.doc_ids (d ∷ []), length-append ix.doc_lens (n ∷ [])),
        append-Distinct dec d ix.doc_ids distinct new,
        λ j. ground (
          arith,
          index j,
          lookup-insert dec d j (length ix.doc_ids) ix.id_to_idx,
          position-append dec j d ix.doc_ids 0,
        ),
        λ j. ground (arith, known j, has_append_no dec d j ix.doc_ids),
        ground (arith, number-append dec ix.removed ix.doc_ids d),
        ground (arith, total-append dec ix.removed ix.doc_ids ix.doc_lens d n same),
      )

-- The index after a call of `add`, also when it raises.
abbrev pub after : {A : Type 0} → Answer A → A → A
after (ok b) a = b
after value_error a = a

module _ {K T X : Type 0} (dec : Discrete K) (same_term : Discrete T) (tokenize : X → List T) where
  add_doc-IsCounted :
      (ix : Index K T) (d : K) (x : X)
      → IsCounted dec ix
      → IsCounted dec (add_doc dec same_term tokenize ix d x)
  unfolding add_doc
  add_doc-IsCounted ix d x h = elim (Option-cases (lookup dec d ix.id_to_idx)) [
    | inl fresh ↦
        let tf = count_tokens same_term (tokenize x) [] in
        let inv = add_postings same_term (length ix.doc_ids) tf ix.inverted in
        rw (fresh, add_doc) (grown dec ix d (length (tokenize x)) inv h fresh)
    | inr (i, e) ↦ rw (e, add_doc) h
  ]

  add_docs-IsCounted :
      (ix : Index K T) (ds : List K) (xs : List X)
      → IsCounted dec ix
      → IsCounted dec (add_docs dec same_term tokenize ix ds xs)
  unfolding add_docs
  add_docs-IsCounted ix [] xs h = h
  add_docs-IsCounted ix (d ∷ ds) [] h = h
  add_docs-IsCounted ix (d ∷ ds) (x ∷ xs) h =
      let one = add_doc dec same_term tokenize ix d x in
      add_docs-IsCounted one ds xs (add_doc-IsCounted ix d x h)

  add_documents-IsCounted :
      (ix : Index K T) (ds : List K) (xs : List X)
      → IsCounted dec ix
      → IsCounted dec (after (add_documents dec same_term tokenize ix ds xs) ix)
  unfolding add_documents
  add_documents-IsCounted ix ds xs h = elim (Bool-cases (length ds == length xs)) [
    | inl same ↦ rw same (add_docs-IsCounted ix ds xs h)
    | inr differ ↦ rw differ h
  ]

  -- From an index that is counted: whatever is added (a call that raises included), removed,
  -- restored or reset, the two running counters stay the number and the summed length of the
  -- documents that are not removed, the arrays stay aligned, and the dictionary stays the position
  -- of each document.
  pub operations-IsCounted :
      (ix : Index K T) (ds : List K) (xs : List X)
      → IsCounted dec ix
      → IsCounted dec (after (add_documents dec same_term tokenize ix ds xs) ix)
        × IsCounted dec (remove dec ix ds)
        × IsCounted dec (restore dec ix ds)
        × IsCounted dec (reset ix)
  unfolding reset empty_index lookup position number total
  operations-IsCounted ix ds xs h = (
    add_documents-IsCounted ix ds xs h,
    remove-IsCounted dec ix ds h,
    restore-IsCounted dec ix ds h,
    (refl, tt, λ d. refl, λ d. ground arith, refl, refl),
  )
