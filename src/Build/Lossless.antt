-- ===== src/Build/Lossless.antt =====
-- No mutation is lost by a build: those that happen while it runs are in the journal when it swaps.
use ga_ottt.Base.{
  ◌+◌, ◌≡◌, ◌∙◌, sym, refl, ap, Bool, false, none, some, List, [], ◌∷◌, ◌++◌, arith, length, All,
}
use ga_ottt.Bm25.{Index, remove, restore}
use ga_ottt.Build.{Entry, add_entry, remove_entry, restore_entry, Fresh, build_indexes, if_wired}
use ga_ottt.Build.View.{unknown, standing}
use ga_ottt.Build.Replay.{
  after, in_snapshot, WellFormed, Paired, add_to_index_lem, build_indexes_refines,
}
use ga_ottt.Build.Engine.{
  Engine, ready, journal_mutation, apply_mutation, mutate, mutate_all, swap, attempt,
}

module _ {K T X : Type 0} (dec : Discrete K) (same_term : Discrete T) (tokenize : X → List T)
    (is_empty : X → Bool) where
  -- What a mutation leaves alone, and the journal with the entries `es` at its end.
  abbrev pub Journaled : Engine K T X → List (Entry K X) → List (Entry K X) → Engine K T X → Type 0
  Journaled en j es en' =
      (en'.journal ≡ some (j ++ es))
      × (en'.mutation_generation ≡ en.mutation_generation + length es)
      × (en'.invalidated ≡ en.invalidated)
      × (en'.build_attempts ≡ en.build_attempts)
      × (en'.build_state ≡ en.build_state)

  apply_mutation_lem :
      (en : Engine K T X) (e : Entry K X)
      → WellFormed dec same_term tokenize is_empty e
      → (en' : Engine K T X) × (apply_mutation dec same_term tokenize is_empty en e ≡ some en')
        × (en'.journal ≡ en.journal)
        × (en'.mutation_generation ≡ en.mutation_generation)
        × (en'.invalidated ≡ en.invalidated)
        × (en'.build_attempts ≡ en.build_attempts)
        × (en'.build_state ≡ en.build_state)
  unfolding apply_mutation
  apply_mutation_lem en (add_entry ids texts gate_too) wf =
      let (h, end) = add_to_index_lem dec same_term tokenize is_empty en.hybrid ids texts wf in
      let (g, end') = add_to_index_lem dec same_term tokenize is_empty en.gate ids texts wf in
      (
        record en { hybrid = h; gate = g },
        rw (apply_mutation, end, end') refl,
        refl,
        refl,
        refl,
        refl,
        refl,
      )
  apply_mutation_lem en (remove_entry ids) wf = (
    record en {
      hybrid = if_wired dec same_term tokenize is_empty (λ ix. remove dec ix ids) en.hybrid;
    },
    refl,
    refl,
    refl,
    refl,
    refl,
    refl,
  )
  apply_mutation_lem en (restore_entry ids texts) wf = (
    record en {
      hybrid = if_wired dec same_term tokenize is_empty (λ ix. restore dec ix ids) en.hybrid;
    },
    refl,
    refl,
    refl,
    refl,
    refl,
    refl,
  )

  append_assoc :
      (j : List (Entry K X)) (e : Entry K X) (es : List (Entry K X))
      → (j ++ e ∷ []) ++ es ≡ j ++ e ∷ es
  append_assoc [] e es = refl
  append_assoc (i ∷ j) e es = ap (λ l. i ∷ l) (append_assoc j e es)

  append_nil : (j : List (Entry K X)) → j ++ [] ≡ j
  append_nil [] = refl
  append_nil (i ∷ j) = ap (λ l. i ∷ l) (append_nil j)

  journal_mutation-Journaled :
      (en : Engine K T X) (j : List (Entry K X)) (e : Entry K X)
      → en.journal ≡ some j
      → Journaled en j (e ∷ []) (journal_mutation en e)
  unfolding journal_mutation
  journal_mutation-Journaled en j e opened =
      rw (journal_mutation, opened) (refl, refl, refl, refl, refl)

  mutate_all-Journaled :
      (en : Engine K T X) (j es : List (Entry K X))
      → en.journal ≡ some j
      → All (WellFormed dec same_term tokenize is_empty) es
      → (en' : Engine K T X) × (mutate_all dec same_term tokenize is_empty en es ≡ some en')
        × Journaled en j es en'
  unfolding mutate_all mutate journal_mutation
  mutate_all-Journaled en j [] opened wf =
      (en, refl, (opened ∙ ap some (sym (append_nil j)), omega arith, refl, refl, refl))
  mutate_all-Journaled en j (e ∷ es) opened (wf, wfs) =
      let (j0, g0, i0, a0, s0) = journal_mutation-Journaled en j e opened in
      let (en1, end1, j1, g1, i1, a1, s1) = apply_mutation_lem (journal_mutation en e) e wf in
      let (en2, end2, (j2, g2, i2, a2, s2)) =
        mutate_all-Journaled en1 (j ++ e ∷ []) es (j1 ∙ j0) wfs in
      (
        en2,
        rw (mutate_all, end1) end2,
        (
          j2 ∙ ap some (append_assoc j e es),
          omega (arith, g0, g1, g2),
          i2 ∙ i1 ∙ i0,
          a2 ∙ a1 ∙ a0,
          s2 ∙ s1 ∙ s0,
        ),
      )

  All-append :
      (j es : List (Entry K X))
      → All (WellFormed dec same_term tokenize is_empty) j
      → All (WellFormed dec same_term tokenize is_empty) es
      → All (WellFormed dec same_term tokenize is_empty) (j ++ es)
  All-append [] es p q = q
  All-append (i ∷ j) es (h, p) q = (h, All-append j es p q)

  attempt_swaps :
      (gate_wired : Bool) (en : Engine K T X) (slices : List (List K × List X))
      (j : List (Entry K X)) (f : Fresh K T)
      → en.invalidated ≡ false
      → en.journal ≡ some j
      → build_indexes dec same_term tokenize is_empty gate_wired slices j ≡ some f
      → attempt dec same_term tokenize is_empty gate_wired en (some slices)
        ≡ swap dec same_term tokenize is_empty
            (record en { build_attempts = en.build_attempts + 1 })
            f
  unfolding attempt
  attempt_swaps gate_wired en slices j f valid opened built = ground arith

  -- For an engine whose build has opened its journal and is not invalidated, with as many texts as
  -- ids in every slice of the snapshot and every entry, and no empty text in a restore: mutations
  -- one after the other succeed, and an attempt that then takes the snapshot ends ready with the
  -- journal closed and a hybrid index in which a given id stands as the mutations of the whole
  -- journal, in their order, leave it from where it stands in the snapshot: an addition makes an
  -- unknown id searchable, a removal withdraws one, and a restore makes any searchable.
  pub attempt-mutate_all :
      (gate_wired : Bool) (en : Engine K T X) (j es : List (Entry K X))
      (slices : List (List K × List X)) (x : K)
      → en.journal ≡ some j
      → en.invalidated ≡ false
      → All (WellFormed dec same_term tokenize is_empty) j
      → All (WellFormed dec same_term tokenize is_empty) es
      → Paired dec same_term tokenize is_empty slices
      → (en1 en2 : Engine K T X) × (ix : Index K T) × (mutate_all dec same_term tokenize is_empty en
            es
          ≡ some en1)
        × (attempt dec same_term tokenize is_empty gate_wired en1 (some slices) ≡ en2)
        × (en2.build_state ≡ ready)
        × (en2.journal ≡ none)
        × (en2.hybrid ≡ some ix)
        × (standing dec ix x ≡ after dec x (j ++ es) (in_snapshot dec x slices unknown))
  unfolding swap
  attempt-mutate_all gate_wired en j es slices x opened valid wf wfs paired =
      let (en1, end, (opened', g, valid', a, s)) = mutate_all-Journaled en j es opened wfs in
      let (f, ix, built, wired, stands) =
        build_indexes_refines dec same_term tokenize is_empty gate_wired slices (j ++ es) x paired
          (All-append j es wf wfs) in
      (
        en1,
        swap dec same_term tokenize is_empty
            (record en1 { build_attempts = en1.build_attempts + 1 }) f,
        ix,
        end,
        attempt_swaps gate_wired en1 slices (j ++ es) f (valid' ∙ valid) opened' built,
        refl,
        refl,
        wired,
        stands,
      )
