-- ===== src/Tests/BuildTests.antt =====
-- The background build of gaottt/core/engine.py: texts are lists of numbers, each number a term.
use ga_ottt.Base.{ℕ, ◌≡◌, refl, Bool, true, false, none, some, List, [], ◌∷◌, ◌++◌, ℕ_discrete, All}
use ga_ottt.Bm25.{Index, empty_index}
use ga_ottt.Build.{Entry, add_entry, remove_entry, restore_entry}
use ga_ottt.Build.View.{unknown, searchable, standing}
use ga_ottt.Build.Replay.{after, in_snapshot, WellFormed, Paired}
use ga_ottt.Build.Engine.{Engine, building, ready, mutate_all, attempt}
use ga_ottt.Build.Lossless.{attempt-mutate_all}

abbrev terms : List ℕ → List ℕ
terms t = t

abbrev is_empty : List ℕ → Bool
is_empty [] = true
is_empty (t ∷ ts) = false

-- A build has begun on an empty index.
abbrev begun : Engine ℕ ℕ (List ℕ)
begun = record {
  hybrid = some empty_index;
  gate = none;
  journal = some [];
  snapshot_dirty = false;
  gate_diverged = false;
  mutation_generation = 0;
  invalidated = false;
  build_attempts = 0;
  build_state = building;
}

-- The documents 1 and 2 are stored, in two slices.
abbrev stored : List (List ℕ × List (List ℕ))
stored = ((1 ∷ []), ((7 ∷ 8 ∷ []) ∷ [])) ∷ ((2 ∷ []), ((9 ∷ []) ∷ [])) ∷ []

-- Meanwhile 3 is added, 1 removed, and 4, which was archived, restored.
abbrev meanwhile : List (Entry ℕ (List ℕ))
meanwhile =
    add_entry (3 ∷ []) ((7 ∷ []) ∷ []) true
    ∷ remove_entry (1 ∷ [])
    ∷ restore_entry (4 ∷ []) ((8 ∷ []) ∷ [])
    ∷ []

meanwhile-WellFormed : All (WellFormed ℕ_discrete ℕ_discrete terms is_empty) meanwhile
meanwhile-WellFormed = (refl, (tt, ((refl, (refl, tt)), tt)))

stored-Paired : Paired ℕ_discrete ℕ_discrete terms is_empty stored
stored-Paired = (refl, (refl, tt))

attempt-mutate_all_example :
    (en1 en2 : Engine ℕ ℕ (List ℕ)) × (ix : Index ℕ ℕ) × (mutate_all ℕ_discrete ℕ_discrete terms
        is_empty begun meanwhile
      ≡ some en1)
    × (attempt ℕ_discrete ℕ_discrete terms is_empty false en1 (some stored) ≡ en2)
    × (en2.build_state ≡ ready)
    × (en2.journal ≡ none)
    × (en2.hybrid ≡ some ix)
    × (standing ℕ_discrete ix 4
        ≡ after ℕ_discrete 4 ([] ++ meanwhile) (in_snapshot ℕ_discrete 4 stored unknown))
attempt-mutate_all_example =
    attempt-mutate_all ℕ_discrete ℕ_discrete terms is_empty false begun [] meanwhile stored 4 refl
      refl tt meanwhile-WellFormed stored-Paired

restored_while_building :
    after ℕ_discrete 4 meanwhile (in_snapshot ℕ_discrete 4 stored unknown) ≡ searchable
unfolding ga_ottt.Dict.has ℕ_discrete
restored_while_building = refl
