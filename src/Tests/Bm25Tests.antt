-- ===== src/Tests/Bm25Tests.antt =====
-- gaottt/index/bm25_index.py on two documents; a text is the list of its terms.
use ga_ottt.Base.{ℕ, ◌≡◌, refl, true, false, List, [], ◌∷◌, ℕ_discrete}
use ga_ottt.Dict.{lookup, has}
use ga_ottt.Bm25.{Index, add_documents, remove, restore, reset}
use ga_ottt.Bm25.Statistics.{number, total, position}
use ga_ottt.Bm25.Counted.{IsCounted, after, operations-IsCounted}
use ga_ottt.Bm25.Rebuild.{rebuild}
use ga_ottt.Bm25.Rebuild.Kept.{IsRebuilt, rebuild-IsRebuilt}
use ga_ottt.Bm25.RoundTrip.{restore-remove}

abbrev terms : List ℕ → List ℕ
terms ts = ts

abbrev nothing : Index ℕ ℕ
nothing = record {
  doc_ids = [];
  doc_lens = [];
  id_to_idx = [];
  inverted = [];
  removed = [];
  active_count = 0;
  active_total_dl = 0;
}

nothing-IsCounted : IsCounted ℕ_discrete nothing
unfolding lookup position has number total
nothing-IsCounted = (refl, tt, λ d. refl, λ d. refl, refl, refl)

abbrev two : Index ℕ ℕ
two =
    after
      (add_documents ℕ_discrete ℕ_discrete terms nothing (1 ∷ 2 ∷ [])
        ((7 ∷ 7 ∷ []) ∷ (8 ∷ []) ∷ []))
      nothing

two-IsCounted : IsCounted ℕ_discrete two
two-IsCounted =
    (operations-IsCounted ℕ_discrete ℕ_discrete terms nothing (1 ∷ 2 ∷ [])
      ((7 ∷ 7 ∷ []) ∷ (8 ∷ []) ∷ []) nothing-IsCounted).0

operations-IsCounted_example :
    IsCounted ℕ_discrete
      (after (add_documents ℕ_discrete ℕ_discrete terms two (3 ∷ []) ((9 ∷ []) ∷ [])) two)
    × IsCounted ℕ_discrete (remove ℕ_discrete two (3 ∷ []))
    × IsCounted ℕ_discrete (restore ℕ_discrete two (3 ∷ []))
    × IsCounted ℕ_discrete (reset two)
operations-IsCounted_example =
    operations-IsCounted ℕ_discrete ℕ_discrete terms two (3 ∷ []) ((9 ∷ []) ∷ []) two-IsCounted

abbrev one : Index ℕ ℕ
one = record {
  doc_ids = 1 ∷ [];
  doc_lens = 2 ∷ [];
  id_to_idx = (1, 0) ∷ [];
  inverted = (7, (0, 2) ∷ []) ∷ [];
  removed = [];
  active_count = 1;
  active_total_dl = 2;
}

one-IsCounted : IsCounted ℕ_discrete one
unfolding lookup position has number total
one-IsCounted = (refl, (refl, tt), λ d. refl, λ d. refl, refl, refl)

one-here : has ℕ_discrete 1 one.doc_ids ≡ true
unfolding has ℕ_discrete
one-here = refl

one_kept : has ℕ_discrete 1 one.removed ≡ false
unfolding has
one_kept = refl

restore-remove_example : restore ℕ_discrete (remove ℕ_discrete one (1 ∷ [])) (1 ∷ []) ≡ one
restore-remove_example = restore-remove ℕ_discrete one 1 one-IsCounted one-here one_kept

abbrev shrunk : Index ℕ ℕ
shrunk = remove ℕ_discrete two (1 ∷ [])

shrunk-IsCounted : IsCounted ℕ_discrete shrunk
shrunk-IsCounted =
    (operations-IsCounted ℕ_discrete ℕ_discrete terms two (1 ∷ []) [] two-IsCounted).1

rebuild-IsRebuilt_example : IsRebuilt ℕ_discrete shrunk (rebuild ℕ_discrete shrunk)
rebuild-IsRebuilt_example = rebuild-IsRebuilt ℕ_discrete shrunk shrunk-IsCounted
