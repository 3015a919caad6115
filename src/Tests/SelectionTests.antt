-- ===== src/Tests/SelectionTests.antt =====
-- gaottt/core/clustering.py and gaottt/core/diversity.py on four ids; scores are numbers.
use ga_ottt.Base.{
  ℕ, suc, ◌+◌, ◌-◌, ◌≡◌, ◌⊎◌, ◌↔◌, refl, Bool, true, false, ◌&&◌, ◌||◌, none, some, List, [], ◌∷◌,
  arith, ℕ_discrete, if◌then◌else◌, ◌==◌, ltb, length, keep,
}
use ga_ottt.Dict.{Dict, has}
use ga_ottt.Dict.Laws.{Distinct}
use ga_ottt.Clustering.{similar_groups, raw_groups}
use ga_ottt.Clustering.Similar.{raw_groups-IsPartition, Within, Together, IsPartition, FollowsPairs}
use ga_ottt.Clustering.Threshold.{Linked, similar_groups-Linked}
use ga_ottt.Diversity.{Scores, Pool, embedded, keys_of, mmr_select}
use ga_ottt.Diversity.Greedy.{IsGreedy, StrictOrder}
use ga_ottt.Diversity.Total.{Counts, places, mmr_select-IsGreedy}

abbrev ids : List ℕ
ids = 1 ∷ 2 ∷ 3 ∷ 4 ∷ []

-- Neighbours on the line from 1 to 3; 4 is alone.
abbrev near : ℕ → ℕ → Bool
near x y = x + 1 == y && ltb y 4

first_there : has ℕ_discrete 1 ids ≡ true
unfolding has ℕ_discrete
first_there = refl

third_there : has ℕ_discrete 3 ids ≡ true
unfolding has ℕ_discrete
third_there = refl

similar_groups-Linked_example :
    (out : Dict ℕ (List ℕ)) × (similar_groups ℕ_discrete near ids ≡ some out)
    × (Together ℕ_discrete out 1 3 ↔ Linked ℕ_discrete near ids 1 3)
similar_groups-Linked_example =
    similar_groups-Linked ℕ_discrete near ids 1 3 first_there third_there

groups_of_four : similar_groups ℕ_discrete near ids ≡ some ((1, 1 ∷ 2 ∷ 3 ∷ []) ∷ (4, 4 ∷ []) ∷ [])
unfolding similar_groups ga_ottt.Dict.lookup ga_ottt.Dict.insert ℕ_discrete
groups_of_four = refl

abbrev pairs : List (ℕ × ℕ)
pairs = (1, 2) ∷ (2, 3) ∷ []

pairs-Within : Within ℕ_discrete ids pairs
unfolding has ℕ_discrete
pairs-Within = ((refl, refl), ((refl, refl), tt))

raw_groups-IsPartition_example :
    (out : Dict ℕ (List ℕ)) × (raw_groups ℕ_discrete 3 ids pairs ≡ some out)
    × IsPartition ℕ_discrete ids out
    × FollowsPairs ℕ_discrete ids pairs out
raw_groups-IsPartition_example =
    raw_groups-IsPartition ℕ_discrete 3 ids pairs pairs-Within (omega arith)

-- A hit of the cluster costs 2, and a selected equal costs 3.
abbrev scores : Scores ℕ ℕ
scores = record {
  cosine = λ v w. if v == w then 3 else 0;
  combine = λ rel red hit. suc (rel + 5 - red - (if hit then 2 else 0));
  larger = λ x y. if ltb x y then y else x;
  above = λ x y. ltb y x;
  zero_score = 0;
  minus_infinity = 0;
}

-- The ids 1 and 2 have the same embedding, 3 has none, and 4 is of the cluster of 1.
abbrev pool : Pool ℕ ℕ ℕ ℕ
pool = record {
  relevance = (1, 9) ∷ (2, 8) ∷ (4, 8) ∷ [];
  embeddings = (1, 50) ∷ (2, 50) ∷ (4, 60) ∷ [];
  cluster_key_of = λ a. if a == 1 || a == 4 then some 0 else none;
}

ordered : StrictOrder ℕ_discrete ℕ_discrete scores
ordered = record { trans = λ x y z p q. ground arith; split = λ x y z p. ground arith }

counts : Counts ℕ_discrete ℕ_discrete scores
counts rel red hit = ground arith

ids-Distinct : Distinct ℕ_discrete ids
unfolding has ℕ_discrete
ids-Distinct = (refl, (refl, (refl, (refl, tt))))

mmr_select-IsGreedy_example :
    (picks : List ℕ) × (mmr_select ℕ_discrete ℕ_discrete scores pool ids [] 2 ≡ some picks)
    × (length picks
        ≡ places ℕ_discrete ℕ_discrete scores 2
            (keep (embedded ℕ_discrete ℕ_discrete scores pool) ids))
    × IsGreedy ℕ_discrete ℕ_discrete scores 2 pool
        (keep (embedded ℕ_discrete ℕ_discrete scores pool) [])
        (keys_of ℕ_discrete ℕ_discrete scores pool [] [])
        (keep (embedded ℕ_discrete ℕ_discrete scores pool) ids)
        picks
    × Distinct ℕ_discrete picks
    × ((has ℕ_discrete 4 picks ≡ false)
        ⊎ (has ℕ_discrete 4 (keep (embedded ℕ_discrete ℕ_discrete scores pool) ids) ≡ true))
mmr_select-IsGreedy_example =
    mmr_select-IsGreedy ℕ_discrete ℕ_discrete scores ordered counts pool ids [] 2 4 ids-Distinct

picks_of_four : mmr_select ℕ_discrete ℕ_discrete scores pool ids [] 2 ≡ some (1 ∷ 4 ∷ [])
unfolding mmr_select ga_ottt.Dict.lookup ℕ_discrete has ga_ottt.Dict.add
picks_of_four = refl
