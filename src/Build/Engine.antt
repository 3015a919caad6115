-- ===== src/Build/Engine.antt =====
-- gaottt/core/engine.py around the background build: a mutation is journaled while a build runs and then
-- applied to the current indexes, an attempt replays the journal and swaps, and a compaction that
-- rebuilds the indexes meanwhile invalidates the build. The hybrid index is wired. The journal's lock
-- makes each of these one step; an attempt's snapshot, or `none` for an exception while it was
-- taken, is an argument.
use ga_ottt.Base.{
  ℕ, ◌+◌, Bool, true, false, ◌||◌, Option, none, some, List, [], ◌∷◌, ◌++◌, if◌then◌else◌, ltb,
}
use ga_ottt.Bm25.{Index, remove, restore}
use ga_ottt.Build.{
  Entry, add_entry, remove_entry, restore_entry, Fresh, add_to_index, if_wired, build_indexes,
}

pub data BuildState : Type 0 where
  idle building ready failed : BuildState

pub record Engine (K T X : Type 0) : Type 0 where
  pub hybrid : Option (Index K T)
  pub gate : Option (Index K T)
  pub journal : Option (List (Entry K X))
  pub snapshot_dirty : Bool
  pub gate_diverged : Bool
  pub mutation_generation : ℕ
  pub invalidated : Bool
  pub build_attempts : ℕ
  pub build_state : BuildState

abbrev pub is_remove : {K X : Type 0} → Entry K X → Bool
is_remove (add_entry ids texts gate_too) = false
is_remove (remove_entry ids) = true
is_remove (restore_entry ids texts) = false

-- Without a journal a restore returns before it marks the snapshot.
abbrev pub is_restore : {K X : Type 0} → Entry K X → Bool
is_restore (add_entry ids texts gate_too) = false
is_restore (remove_entry ids) = false
is_restore (restore_entry ids texts) = true

module _ {K T X : Type 0} where
  unfoldable pub journal_mutation : Engine K T X → Entry K X → Engine K T X
  journal_mutation en e = elim en.journal [
    | none ↦
        if is_restore e
        then en
        else record en { snapshot_dirty = true; gate_diverged = en.gate_diverged || is_remove e }
    | some j ↦ record en {
      snapshot_dirty = true;
      gate_diverged = en.gate_diverged || is_remove e;
      journal = some (j ++ e ∷ []);
      mutation_generation = en.mutation_generation + 1;
    }
  ]

  -- `_start_bm25_background_build`
  unfoldable pub start_background_build : Engine K T X → Engine K T X
  start_background_build en = record en {
    journal = elim en.journal [ none ↦ some [] | some j ↦ some j ];
    invalidated = false;
    build_attempts = 0;
    build_state = building;
  }

  -- The end of a build without a swap.
  unfoldable pub close_journal : Engine K T X → BuildState → Engine K T X
  close_journal en st = record en { journal = none; build_state = st }

  -- An exception of an attempt: one retry.
  unfoldable pub attempt_failed : Engine K T X → Engine K T X
  unfolding close_journal
  attempt_failed en = if ltb en.build_attempts 2 then en else close_journal en failed

module _ {K T X : Type 0} (dec : Discrete K) (same_term : Discrete T) (tokenize : X → List T)
    (is_empty : X → Bool) where
  -- What the engine does to its current indexes; `none` is the ValueError of unequal lengths.
  unfoldable pub apply_mutation : Engine K T X → Entry K X → Option (Engine K T X)
  unfolding add_to_index
  apply_mutation en (add_entry ids texts gate_too) =
      elim (add_to_index dec same_term tokenize is_empty en.hybrid ids texts) [
        | none ↦ none
        | some h ↦ elim (add_to_index dec same_term tokenize is_empty en.gate ids texts) [
          | none ↦ none
          | some g ↦ some (record en { hybrid = h; gate = g })
        ]
      ]
  apply_mutation en (remove_entry ids) = some (record en {
    hybrid = if_wired dec same_term tokenize is_empty (λ ix. remove dec ix ids) en.hybrid;
  })
  apply_mutation en (restore_entry ids texts) = some (record en {
    hybrid = if_wired dec same_term tokenize is_empty (λ ix. restore dec ix ids) en.hybrid;
  })

  unfoldable pub mutate : Engine K T X → Entry K X → Option (Engine K T X)
  unfolding journal_mutation apply_mutation
  mutate en e = apply_mutation (journal_mutation en e) e

  unfoldable pub mutate_all : Engine K T X → List (Entry K X) → Option (Engine K T X)
  unfolding mutate
  mutate_all en [] = some en
  mutate_all en (e ∷ es) = elim (mutate en e) [ none ↦ none | some en' ↦ mutate_all en' es ]

  unfoldable pub swap : Engine K T X → Fresh K T → Engine K T X
  swap en f = record en { hybrid = f.hybrid; gate = f.gate; journal = none; build_state = ready }

  -- One attempt, the `gate_wired` of the engine, and its snapshot.
  unfoldable pub attempt : Bool → Engine K T X → Option (List (List K × List X)) → Engine K T X
  unfolding swap attempt_failed close_journal build_indexes
  attempt gate_wired en snapshot =
      let begun : Engine K T X = record en { build_attempts = en.build_attempts + 1 } in
      if en.invalidated then close_journal begun ready else elim snapshot [
        | none ↦ attempt_failed begun
        | some slices ↦ elim en.journal [
          | none ↦ attempt_failed begun
          | some j ↦ elim (build_indexes dec same_term tokenize is_empty gate_wired slices j) [
            | none ↦ attempt_failed begun
            | some f ↦ swap begun f
          ]
        ]
      ]
