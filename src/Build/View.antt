-- ===== src/Build/View.antt =====
-- What a BM25 index says of one id, and how the operations of the index change that.
use ga_ottt.Base.{◌≡◌, ◌∙◌, ap, Bool, true, false, List, [], ◌∷◌, arith, ite, length, is_some}
use ga_ottt.Dict.{lookup, has}
use ga_ottt.Dict.Laws.{lookup-insert, has-add, has-discard}
use ga_ottt.Bm25.{Index, add_doc, add_docs, remove_doc, remove, restore_doc, restore}

-- An id that the index does not know, one that searches find, one that is removed.
pub data Standing : Type 0 where
  unknown searchable withdrawn : Standing

abbrev pub when_added : Standing → Standing
when_added unknown = searchable
when_added searchable = searchable
when_added withdrawn = withdrawn

abbrev pub when_removed : Standing → Standing
when_removed unknown = unknown
when_removed searchable = withdrawn
when_removed withdrawn = withdrawn

-- A restore of a document with a text: an id that is not known is added.
abbrev pub when_restored : Standing → Standing
when_restored unknown = searchable
when_restored searchable = searchable
when_restored withdrawn = searchable

-- `restore` of the index itself.
abbrev pub when_put_back : Standing → Standing
when_put_back unknown = unknown
when_put_back searchable = searchable
when_put_back withdrawn = searchable

abbrev pub standing_of : Bool → Bool → Standing
standing_of false r = unknown
standing_of true false = searchable
standing_of true true = withdrawn

abbrev pub only_if : Bool → (Standing → Standing) → Standing → Standing
only_if true f s = f s
only_if false f s = s

abbrev pub same_key : {K : Type 0} → Discrete K → K → K → Bool
same_key dec d x = ite (dec d x) true false

module _ {K T : Type 0} (dec : Discrete K) where
  abbrev pub standing : Index K T → K → Standing
  standing ix x = standing_of (is_some (lookup dec x ix.id_to_idx)) (has dec x ix.removed)

  -- Only ids that are known are removed.
  abbrev pub WithdrawnKnown : Index K T → Type 0
  WithdrawnKnown ix =
      (x : K) → has dec x ix.removed ≡ true → is_some (lookup dec x ix.id_to_idx) ≡ true

  standing-remove_doc :
      (ix : Index K T) (d x : K)
      → standing (remove_doc dec ix d) x ≡ only_if (same_key dec d x) when_removed (standing ix x)
  unfolding remove_doc
  standing-remove_doc ix d x = elim (dec d x) [
    | yes here ↦ ground (
      arith,
      has-add dec d x ix.removed,
      ap (λ z. lookup dec z ix.id_to_idx) here,
      ap (λ z. has dec z ix.removed) here,
    )
    | no other ↦ ground (arith, has-add dec d x ix.removed)
  ]

  standing-restore_doc :
      (ix : Index K T) (d x : K)
      → standing (restore_doc dec ix d) x ≡ only_if (same_key dec d x) when_put_back (standing ix x)
  unfolding restore_doc
  standing-restore_doc ix d x = elim (dec d x) [
    | yes here ↦ ground (
      arith,
      has-discard dec d x ix.removed,
      ap (λ z. lookup dec z ix.id_to_idx) here,
      ap (λ z. has dec z ix.removed) here,
    )
    | no other ↦ ground (arith, has-discard dec d x ix.removed)
  ]

  remove_doc-WithdrawnKnown :
      (ix : Index K T) (d : K) → WithdrawnKnown ix → WithdrawnKnown (remove_doc dec ix d)
  unfolding remove_doc
  remove_doc-WithdrawnKnown ix d known x = elim (dec d x) [
    | yes here ↦
        ground
          (arith, known x, has-add dec d x ix.removed, ap (λ z. lookup dec z ix.id_to_idx) here)
    | no other ↦ ground (arith, known x, has-add dec d x ix.removed)
  ]

  restore_doc-WithdrawnKnown :
      (ix : Index K T) (d : K) → WithdrawnKnown ix → WithdrawnKnown (restore_doc dec ix d)
  unfolding restore_doc
  restore_doc-WithdrawnKnown ix d known x = ground (arith, known x, has-discard dec d x ix.removed)

  -- An index with the standings `view`.
  abbrev pub Shows : Index K T → (K → Standing) → Type 0
  Shows ix view = WithdrawnKnown ix × ((x : K) → standing ix x ≡ view x)

  pub remove-Shows :
      (ix : Index K T) (view : K → Standing) (ids : List K)
      → Shows ix view
      → Shows (remove dec ix ids) (λ x. only_if (has dec x ids) when_removed (view x))
  unfolding remove has
  remove-Shows ix view [] shows = shows
  remove-Shows ix view (d ∷ ids) (known, shows) =
      let (known', later) =
        remove-Shows (remove_doc dec ix d) (λ x. only_if (same_key dec d x) when_removed (view x))
          ids
          (
            remove_doc-WithdrawnKnown ix d known,
            λ x.
                standing-remove_doc ix d x ∙ ap (only_if (same_key dec d x) when_removed) (shows x),
          ) in
      (known', λ x. later x ∙ ground arith)

  pub restore-Shows :
      (ix : Index K T) (view : K → Standing) (ids : List K)
      → Shows ix view
      → Shows (restore dec ix ids) (λ x. only_if (has dec x ids) when_put_back (view x))
  unfolding restore has
  restore-Shows ix view [] shows = shows
  restore-Shows ix view (d ∷ ids) (known, shows) =
      let (known', later) =
        restore-Shows (restore_doc dec ix d)
          (λ x. only_if (same_key dec d x) when_put_back (view x)) ids
          (
            restore_doc-WithdrawnKnown ix d known,
            λ x.
                standing-restore_doc ix d x
                ∙ ap (only_if (same_key dec d x) when_put_back) (shows x),
          ) in
      (known', λ x. later x ∙ ground arith)

module _ {K T X : Type 0} (dec : Discrete K) (same_term : Discrete T) (tokenize : X → List T) where
  standing-add_doc :
      (ix : Index K T) (d x : K) (t : X)
      → WithdrawnKnown dec ix
      → standing dec (add_doc dec same_term tokenize ix d t) x
        ≡ only_if (same_key dec d x) when_added (standing dec ix x)
  unfolding add_doc
  standing-add_doc ix d x t known = elim (dec d x) [
    | yes here ↦ ground (
      arith,
      lookup-insert dec d x (length ix.doc_ids) ix.id_to_idx,
      known x,
      ap (λ z. lookup dec z ix.id_to_idx) here,
    )
    | no other ↦ ground (arith, lookup-insert dec d x (length ix.doc_ids) ix.id_to_idx)
  ]

  add_doc-WithdrawnKnown :
      (ix : Index K T) (d : K) (t : X)
      → WithdrawnKnown dec ix
      → WithdrawnKnown dec (add_doc dec same_term tokenize ix d t)
  unfolding add_doc
  add_doc-WithdrawnKnown ix d t known x =
      ground (arith, known x, lookup-insert dec d x (length ix.doc_ids) ix.id_to_idx)

  pub add_docs-Shows :
      (ix : Index K T) (view : K → Standing) (ids : List K) (texts : List X)
      → length ids ≡ length texts
      → Shows dec ix view
      → Shows dec
          (add_docs dec same_term tokenize ix ids texts)
          (λ x. only_if (has dec x ids) when_added (view x))
  unfolding add_docs has
  add_docs-Shows ix view [] texts same shows = shows
  add_docs-Shows ix view (d ∷ ids) [] same shows = ground arith
  add_docs-Shows ix view (d ∷ ids) (t ∷ texts) same (known, shows) =
      let (known', later) =
        add_docs-Shows (add_doc dec same_term tokenize ix d t)
          (λ x. only_if (same_key dec d x) when_added (view x)) ids texts (omega (arith, same))
          (
            add_doc-WithdrawnKnown ix d t known,
            λ x.
                standing-add_doc ix d x t known
                ∙ ap (only_if (same_key dec d x) when_added) (shows x),
          ) in
      (known', λ x. later x ∙ ground arith)
