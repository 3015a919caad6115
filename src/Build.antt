-- ===== src/Build.antt =====
-- gaottt/core/engine.py, the background build of the BM25 indexes: the journal of the mutations that
-- happen meanwhile, its replay on fresh indexes, and the swap. `hybrid` and `gate` are the two indexes,
-- either of which may not be wired. The snapshot is the list of the slices that the fill takes, and
-- `none` is an exception of the attempt. Texts are of a type with a test for the empty one.
pub mod View
pub mod Replay
pub mod Engine
pub mod Lossless
use ga_ottt.Base.{
  ℕ, ◌+◌, Bool, true, false, Option, none, some, List, [], ◌∷◌, ◌++◌, if◌then◌else◌, not, ite,
}
use ga_ottt.Dict.{has, add, keys, values}
use ga_ottt.Bm25.{Index, Answer, ok, value_error, empty_index, add_documents, remove, restore}

-- `_BM25JournalEntry`, by its `op`; the flag is `gate_too`.
pub data Entry (K X : Type 0) : Type 0 where
  add_entry : List K → List X → Bool → Entry K X
  remove_entry : List K → Entry K X
  restore_entry : List K → List X → Entry K X

-- The new indexes, and the ids that they hold.
pub record Fresh (K T : Type 0) : Type 0 where
  pub hybrid : Option (Index K T)
  pub gate : Option (Index K T)
  pub present : List K

-- `set.update`
unfoldable pub update_all : {K : Type 0} → Discrete K → List K → List K → List K
update_all dec [] s = s
update_all dec (k ∷ ks) s = update_all dec ks (add dec k s)

module _ {K T X : Type 0} (dec : Discrete K) (same_term : Discrete T) (tokenize : X → List T)
    (is_empty : X → Bool) where
  -- `add` on an index that may not be wired.
  unfoldable pub add_to_index : Option (Index K T) → List K → List X → Option (Option (Index K T))
  add_to_index none ids texts = some none
  add_to_index (some ix) ids texts = elim (add_documents dec same_term tokenize ix ids texts) [
    | ok ix' ↦ some (some ix')
    | value_error ↦ none
  ]

  abbrev pub if_wired : (Index K T → Index K T) → Option (Index K T) → Option (Index K T)
  if_wired f none = none
  if_wired f (some ix) = some (f ix)

  -- The ids of a restore that the new index holds.
  unfoldable pub have_ids : List K → List K → List X → List K
  have_ids present [] texts = []
  have_ids present (d ∷ ids) [] = []
  have_ids present (d ∷ ids) (t ∷ texts) =
      if has dec d present then d ∷ have_ids present ids texts else have_ids present ids texts

  -- The others, with a text that is not empty.
  unfoldable pub missing : List K → List K → List X → List (K × X)
  missing present [] texts = []
  missing present (d ∷ ids) [] = []
  missing present (d ∷ ids) (t ∷ texts) =
      if has dec d present
      then missing present ids texts
      else if is_empty t
      then missing present ids texts
      else (d, t) ∷ missing present ids texts

  -- The restores of one entry: what is there is restored, what is missing is added.
  unfoldable pub replay_restore : Index K T → Fresh K T → List K → List X → Option (Fresh K T)
  unfolding have_ids missing update_all
  replay_restore ix f ids texts =
      let ms : List (K × X) = missing f.present ids texts in
      elim (add_documents dec same_term tokenize (restore dec ix (have_ids f.present ids texts))
        (keys ms) (values ms)) [
          | ok ix' ↦
              some (record f { hybrid = some ix'; present = update_all dec (keys ms) f.present })
          | value_error ↦ none
        ]

  -- `_replay_bm25_journal_entry`
  unfoldable pub replay_entry : Fresh K T → Entry K X → Option (Fresh K T)
  unfolding add_to_index replay_restore update_all
  replay_entry f (add_entry ids texts gate_too) = elim (add_to_index f.hybrid ids texts) [
    | none ↦ none
    | some h ↦ elim (if gate_too then add_to_index f.gate ids texts else some f.gate) [
      | none ↦ none
      | some g ↦ some (record { hybrid = h; gate = g; present = update_all dec ids f.present })
    ]
  ]
  replay_entry f (remove_entry ids) =
      some (record f { hybrid = if_wired (λ ix. remove dec ix ids) f.hybrid })
  replay_entry f (restore_entry ids texts) = elim f.hybrid [
    | none ↦ some f
    | some ix ↦ replay_restore ix f ids texts
  ]

  unfoldable pub replay : Fresh K T → List (Entry K X) → Option (Fresh K T)
  unfolding replay_entry
  replay f [] = some f
  replay f (e ∷ journal) = elim (replay_entry f e) [ none ↦ none | some f' ↦ replay f' journal ]

  -- The fills of the slices of the snapshot.
  unfoldable pub fill : Fresh K T → List (List K × List X) → Option (Fresh K T)
  unfolding add_to_index update_all
  fill f [] = some f
  fill f ((ids, texts) ∷ slices) = elim (add_to_index f.hybrid ids texts) [
    | none ↦ none
    | some h ↦ elim (add_to_index f.gate ids texts) [
      | none ↦ none
      | some g ↦
          fill (record { hybrid = h; gate = g; present = update_all dec ids f.present }) slices
    ]
  ]

  -- One attempt, from fresh indexes, of which the hybrid one is wired, to those that are swapped in.
  unfoldable pub build_indexes :
      Bool → List (List K × List X) → List (Entry K X) → Option (Fresh K T)
  unfolding fill replay
  build_indexes gate_wired slices journal =
      elim (fill
        (record {
          hybrid = some empty_index;
          gate = if gate_wired then some empty_index else none;
          present = [];
        })
        slices) [ none ↦ none | some f ↦ replay f journal ]
