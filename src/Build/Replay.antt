-- ===== src/Build/Replay.antt =====
-- The background build shows what the journal says: each id stands as the mutations leave it.
use ga_ottt.Base.{
  ◌≡◌, ◌∙◌, refl, ap, Bool, true, false, ◌&&◌, ◌||◌, Option, none, some, List, [], ◌∷◌, arith,
  if◌then◌else◌, not, length, All,
}
use ga_ottt.Dict.{has, add, lookup, keys, values}
use ga_ottt.Dict.Laws.{has-add}
use ga_ottt.Bm25.{Index, empty_index, add_docs, add_documents, remove, restore}
use ga_ottt.Build.{
  Entry, add_entry, remove_entry, restore_entry, Fresh, update_all, add_to_index, have_ids, missing,
  replay_restore, replay_entry, replay, fill, build_indexes,
}
use ga_ottt.Build.View.{
  Standing, unknown, searchable, withdrawn, when_added, when_removed, when_restored, when_put_back,
  standing, only_if, Shows, remove-Shows, restore-Shows, add_docs-Shows,
}

abbrev pub is_known : Standing → Bool
is_known unknown = false
is_known searchable = true
is_known withdrawn = true

module _ {K : Type 0} (dec : Discrete K) where
  has-update_all :
      (x : K) (ks s : List K) → has dec x (update_all dec ks s) ≡ (has dec x s || has dec x ks)
  unfolding update_all has
  has-update_all x [] s = ground arith
  has-update_all x (k ∷ ks) s = ground (arith, has-update_all x ks (add dec k s), has-add dec k x s)

  -- What one mutation makes of the standing of an id, and what a journal does.
  abbrev pub effect : {X : Type 0} → K → Entry K X → Standing → Standing
  effect x (add_entry ids texts gate_too) s = only_if (has dec x ids) when_added s
  effect x (remove_entry ids) s = only_if (has dec x ids) when_removed s
  effect x (restore_entry ids texts) s = only_if (has dec x ids) when_restored s

  abbrev pub after : {X : Type 0} → K → List (Entry K X) → Standing → Standing
  after x [] s = s
  after x (e ∷ journal) s = after x journal (effect x e s)

  -- The standing of an id in the snapshot.
  abbrev pub in_snapshot : {X : Type 0} → K → List (List K × List X) → Standing → Standing
  in_snapshot x [] s = s
  in_snapshot x ((ids, texts) ∷ slices) s =
      in_snapshot x slices (only_if (has dec x ids) when_added s)

module _ {K T X : Type 0} (dec : Discrete K) (same_term : Discrete T) (tokenize : X → List T)
    (is_empty : X → Bool) where
  -- Every id of the entry has its text, which is not empty if it is to be restored.
  abbrev pub WellFormed : Entry K X → Type 0
  WellFormed (add_entry ids texts gate_too) = length ids ≡ length texts
  WellFormed (remove_entry ids) = Unit
  WellFormed (restore_entry ids texts) =
      (length ids ≡ length texts) × All (λ t. is_empty t ≡ false) texts

  -- The hybrid index has the standings `view`, and the ids that are present are the known ones.
  abbrev pub Represents : (K → Standing) → Fresh K T → Type 0
  Represents view f =
      (ix : Index K T) × (f.hybrid ≡ some ix)
      × Shows dec ix view
      × ((x : K) → has dec x f.present ≡ is_known (view x))

  -- A step that succeeds.
  abbrev pub Leads : (K → Standing) → Option (Fresh K T) → Type 0
  Leads view o = (f : Fresh K T) × (o ≡ some f) × Represents view f

  pub add_to_index_lem :
      (g : Option (Index K T)) (ids : List K) (texts : List X)
      → length ids ≡ length texts
      → (g' : Option (Index K T)) × (add_to_index dec same_term tokenize is_empty g ids texts
          ≡ some g')
  unfolding add_to_index add_documents
  add_to_index_lem none ids texts same = (none, refl)
  add_to_index_lem (some ix) ids texts same =
      (some (add_docs dec same_term tokenize ix ids texts), ground arith)

  add_to_hybrid :
      (h : Option (Index K T)) (ix : Index K T) (ids : List K) (texts : List X)
      → h ≡ some ix
      → length ids ≡ length texts
      → add_to_index dec same_term tokenize is_empty h ids texts
        ≡ some (some (add_docs dec same_term tokenize ix ids texts))
  unfolding add_to_index add_documents
  add_to_hybrid h ix ids texts e same = rw e (ground arith)

  has-have_ids :
      (present : List K) (x : K) (ids : List K) (texts : List X)
      → length ids ≡ length texts
      → has dec x (have_ids dec same_term tokenize is_empty present ids texts)
        ≡ (has dec x ids && has dec x present)
  unfolding have_ids has
  has-have_ids present x [] texts same = refl
  has-have_ids present x (d ∷ ids) [] same = ground arith
  has-have_ids present x (d ∷ ids) (t ∷ texts) same = elim (dec d x) [
    | yes here ↦ ground (
      arith,
      has-have_ids present x ids texts (omega (arith, same)),
      ap (λ z. has dec z present) here,
    )
    | no other ↦ ground (arith, has-have_ids present x ids texts (omega (arith, same)))
  ]

  has-missing :
      (present : List K) (x : K) (ids : List K) (texts : List X)
      → length ids ≡ length texts
      → All (λ t. is_empty t ≡ false) texts
      → has dec x (keys (missing dec same_term tokenize is_empty present ids texts))
        ≡ (has dec x ids && not (has dec x present))
  unfolding missing has
  has-missing present x [] texts same full = refl
  has-missing present x (d ∷ ids) [] same full = ground arith
  has-missing present x (d ∷ ids) (t ∷ texts) same (f, full) = elim (dec d x) [
    | yes here ↦ ground (
      arith,
      has-missing present x ids texts (omega (arith, same)) full,
      ap (λ z. has dec z present) here,
    )
    | no other ↦ ground (arith, has-missing present x ids texts (omega (arith, same)) full)
  ]

  length-keys : (ms : List (K × X)) → length (keys ms) ≡ length (values ms)
  length-keys [] = refl
  length-keys ((d, t) ∷ ms) = omega (arith, length-keys ms)

  replay_restore-Leads :
      (view : K → Standing) (f : Fresh K T) (ix : Index K T) (ids : List K) (texts : List X)
      → f.hybrid ≡ some ix
      → Shows dec ix view
      → ((x : K) → has dec x f.present ≡ is_known (view x))
      → length ids ≡ length texts
      → All (λ t. is_empty t ≡ false) texts
      → Leads
          (λ x. only_if (has dec x ids) when_restored (view x))
          (replay_restore dec same_term tokenize is_empty ix f ids texts)
  unfolding replay_restore add_documents
  replay_restore-Leads view f ix ids texts e shows present same full =
      let ms = missing dec same_term tokenize is_empty f.present ids texts in
      let haves = have_ids dec same_term tokenize is_empty f.present ids texts in
      let (known, standings) =
        add_docs-Shows dec same_term tokenize (restore dec ix haves)
          (λ x. only_if (has dec x haves) when_put_back (view x)) (keys ms) (values ms)
          (length-keys ms) (restore-Shows dec ix view haves shows) in
      (
        record f {
          hybrid =
              some (add_docs dec same_term tokenize (restore dec ix haves) (keys ms) (values ms));
          present = update_all dec (keys ms) f.present;
        },
        ground (arith, length-keys ms),
        (
          add_docs dec same_term tokenize (restore dec ix haves) (keys ms) (values ms),
          refl,
          (
            known,
            λ x.
                standings x
                ∙ ground (
                  arith,
                  has-have_ids f.present x ids texts same,
                  has-missing f.present x ids texts same full,
                  present x,
                ),
          ),
          λ x.
              has-update_all dec x (keys ms) f.present
              ∙ ground (arith, has-missing f.present x ids texts same full, present x),
        ),
      )

  -- The state after documents were added to both indexes.
  abbrev pub added : Fresh K T → Index K T → Option (Index K T) → List K → List X → Fresh K T
  added f ix g ids texts = record {
    hybrid = some (add_docs dec same_term tokenize ix ids texts);
    gate = g;
    present = update_all dec ids f.present;
  }

  added-Represents :
      (view : K → Standing) (f : Fresh K T) (ix : Index K T) (g : Option (Index K T)) (ids : List K)
      (texts : List X)
      → length ids ≡ length texts
      → Shows dec ix view
      → ((x : K) → has dec x f.present ≡ is_known (view x))
      → Represents (λ x. only_if (has dec x ids) when_added (view x)) (added f ix g ids texts)
  added-Represents view f ix g ids texts same shows present = (
    add_docs dec same_term tokenize ix ids texts,
    refl,
    add_docs-Shows dec same_term tokenize ix view ids texts same shows,
    λ x. has-update_all dec x ids f.present ∙ ground (arith, present x),
  )

  replay_entry-Leads :
      (view : K → Standing) (f : Fresh K T) (e : Entry K X)
      → WellFormed e
      → Represents view f
      → Leads (λ x. effect dec x e (view x)) (replay_entry dec same_term tokenize is_empty f e)
  unfolding replay_entry
  replay_entry-Leads view f (add_entry ids texts gate_too) same (ix, e, shows, present) =
      let (g, end) = to_gate gate_too in
      (
        added f ix g ids texts,
        rw (replay_entry, add_to_hybrid f.hybrid ix ids texts e same, end) refl,
        added-Represents view f ix g ids texts same shows present,
      )
    where
      to_gate :
          (b : Bool)
          → (g : Option (Index K T)) × ((if b
                then add_to_index dec same_term tokenize is_empty f.gate ids texts
                else some f.gate)
              ≡ some g)
      to_gate true = add_to_index_lem f.gate ids texts same
      to_gate false = (f.gate, refl)
  replay_entry-Leads view f (remove_entry ids) wf (ix, e, (known, shows), present) =
      let (known', shows') = remove-Shows dec ix view ids (known, shows) in
      (
        record f { hybrid = some (remove dec ix ids) },
        rw e refl,
        (remove dec ix ids, refl, (known', shows'), λ x. present x ∙ ground arith),
      )
  replay_entry-Leads view f (restore_entry ids texts) (same, full) (ix, e, shows, present) =
      rw (replay_entry, e) (replay_restore-Leads view f ix ids texts e shows present same full)

  replay-Leads :
      (view : K → Standing) (f : Fresh K T) (journal : List (Entry K X))
      → All WellFormed journal
      → Represents view f
      → Leads (λ x. after dec x journal (view x)) (replay dec same_term tokenize is_empty f journal)
  unfolding replay
  replay-Leads view f [] wf r = (f, refl, r)
  replay-Leads view f (e ∷ journal) (wf, wfs) r =
      let (f', end, r') = replay_entry-Leads view f e wf r in
      let (f'', end', r'') = replay-Leads (λ x. effect dec x e (view x)) f' journal wfs r' in
      (f'', rw (replay, end) end', r'')

  -- Each slice has as many texts as ids.
  abbrev pub Paired : List (List K × List X) → Type 0
  Paired slices = All (λ e. length e.0 ≡ length e.1) slices

  fill-Leads :
      (view : K → Standing) (f : Fresh K T) (slices : List (List K × List X))
      → Paired slices
      → Represents view f
      → Leads
          (λ x. in_snapshot dec x slices (view x))
          (fill dec same_term tokenize is_empty f slices)
  unfolding fill
  fill-Leads view f [] paired r = (f, refl, r)
  fill-Leads view f ((ids, texts) ∷ slices) (same, paired) (ix, e, shows, present) =
      let (g, end) = add_to_index_lem f.gate ids texts same in
      let (f', end', r') =
        fill-Leads (λ x. only_if (has dec x ids) when_added (view x)) (added f ix g ids texts)
          slices paired (added-Represents view f ix g ids texts same shows present) in
      (f', rw (fill, add_to_hybrid f.hybrid ix ids texts e same, end) end', r')

  -- With as many texts as ids in every slice and entry, and no empty text in a restore, an attempt ends
  -- with a hybrid index in which an id stands as the journal leaves it from the snapshot.
  pub build_indexes_refines :
      (gate_wired : Bool) (slices : List (List K × List X)) (journal : List (Entry K X)) (x : K)
      → Paired slices
      → All WellFormed journal
      → (f : Fresh K T) × (ix : Index K T) × (build_indexes dec same_term tokenize is_empty
            gate_wired slices journal
          ≡ some f)
        × (f.hybrid ≡ some ix)
        × (standing dec ix x ≡ after dec x journal (in_snapshot dec x slices unknown))
  unfolding build_indexes empty_index lookup has
  build_indexes_refines gate_wired slices journal x paired wf =
      let start : Fresh K T = record {
        hybrid = some empty_index;
        gate = if gate_wired then some empty_index else none;
        present = [];
      } in
      let (f, end, r) =
        fill-Leads (λ y. unknown) start slices paired
          (empty_index, refl, (λ y h. ground arith, λ y. refl), λ y. refl) in
      let (f', end', (ix, e, (_, standings), _)) =
        replay-Leads (λ y. in_snapshot dec y slices unknown) f journal wf r in
      (f', ix, rw (build_indexes, end) end', e, standings x)
