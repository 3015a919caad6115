-- ===== src/Diversity/Total.antt =====
-- `mmr_select` answers, with as many picks as there are places or candidates, and no candidate twice.
use ga_ottt.Base.{
  ℕ, zero, suc, ◌≡◌, ◌⊎◌, ◌∙◌, sym, subst, refl, ap, inl, inr, Bool, true, false, ◌&&◌, not, Option,
  none, some, List, [], ◌∷◌, ◌++◌, arith, ite, if◌then◌else◌, length, leb, keep, or_else,
  Bool-cases,
}
use ga_ottt.Dict.{lookup, has}
use ga_ottt.Dict.Laws.{Distinct}
use ga_ottt.Diversity.{
  Scores, Pool, remove_first, embedded, add_key, key_hit, keys_of, redundancy, score, pick,
  mmr_select,
}
use ga_ottt.Diversity.Greedy.{FirstBest, IsGreedy, StrictOrder, scan_cases}

module _ {A : Type 0} (dec : Discrete A) where
  abbrev pub same_as : A → A → Bool
  same_as b x = ite (dec b x) true false

  has-remove_first :
      (b x : A) (xs : List A)
      → Distinct dec xs
      → has dec x (remove_first dec b xs) ≡ (has dec x xs && not (same_as b x))
  unfolding has remove_first
  has-remove_first b x [] distinct = refl
  has-remove_first b x (y ∷ ys) distinct = elim (dec y b) [
    | yes here ↦ elim (dec b x) [
      | yes at ↦ ground (arith, distinct.0, ap (λ z. has dec z ys) (here ∙ at))
      | no off ↦ ground arith
    ]
    | no other ↦ ground (arith, has-remove_first b x ys distinct.1)
  ]

  Distinct-remove_first :
      (b : A) (xs : List A) → Distinct dec xs → Distinct dec (remove_first dec b xs)
  unfolding has remove_first
  Distinct-remove_first b [] distinct = tt
  Distinct-remove_first b (y ∷ ys) (fresh, distinct) = elim (dec y b) [
    | yes here ↦ ground (arith, distinct)
    | no other ↦
        ground (arith, Distinct-remove_first b ys distinct, has-remove_first b y ys distinct)
  ]

module _ {A K F V : Type 0} (dec : Discrete A) (same_key : Discrete K) (o : Scores F V) where
  FirstBest-has :
      (value : A → F) (b : A) (xs : List A)
      → FirstBest dec same_key o value b xs
      → has dec b xs ≡ true
  unfolding has
  FirstBest-has value b [] h = elim h [ ]
  FirstBest-has value b (x ∷ xs) (inl (here, _)) = ground arith
  FirstBest-has value b (x ∷ xs) (inr (_, later)) = ground (arith, FirstBest-has value b xs later)

  length-remove_first :
      (b : A) (xs : List A) → has dec b xs ≡ true → suc (length (remove_first dec b xs)) ≡ length xs
  unfolding has remove_first
  length-remove_first b [] there = ground arith
  length-remove_first b (x ∷ xs) there = ground (arith, length-remove_first b xs)

  abbrev pub places : ℕ → List A → ℕ
  places n xs = if leb n (length xs) then n else length xs

  -- Every score counts.
  abbrev pub Counts : Type 0
  Counts = (rel red : F) (hit : Bool) → o.above (o.combine rel red hit) o.minus_infinity ≡ true

  -- A selection that answers.
  abbrev pub Selects : ℕ → Pool A K F V → List A → List K → List A → Option (List A) → Type 0
  Selects n pool selected keys remaining r =
      (picks : List A) × (r ≡ some picks)
      × (length picks ≡ places n remaining)
      × IsGreedy dec same_key o n pool selected keys remaining picks

  pick_lem :
      StrictOrder dec same_key o
      → Counts
      → (n : ℕ) (pool : Pool A K F V) (selected : List A) (keys : List K) (remaining : List A)
      → Selects n pool selected keys remaining (pick dec same_key o n pool selected keys remaining)
  unfolding pick score
  pick_lem order counts zero pool selected keys remaining = ([], refl, ground arith, refl)
  pick_lem order counts (suc n) pool selected keys [] = ([], refl, ground arith, refl)
  pick_lem order counts (suc n) pool selected keys (a ∷ remaining) =
      elim (scan_cases dec same_key o order (score dec same_key o pool selected keys) none
        o.minus_infinity (a ∷ remaining)) [
          | inl (end, (low, _)) ↦ ground (
            arith,
            low,
            counts (or_else (lookup dec a pool.relevance) o.zero_score)
                (redundancy dec same_key o pool a selected)
                (key_hit dec same_key o (pool.cluster_key_of a) keys),
          )
          | inr (b, end, first, up) ↦
              let (picks, rest, count, greedy) =
                pick_lem order counts n pool (selected ++ b ∷ [])
                  (add_key dec same_key o (pool.cluster_key_of b) keys)
                  (remove_first dec b (a ∷ remaining)) in
              (
                b ∷ picks,
                rw (pick, end, rest) refl,
                ground (
                  arith,
                  count,
                  length-remove_first b (a ∷ remaining) (
                      FirstBest-has (score dec same_key o pool selected keys) b (a ∷ remaining)
                        first),
                ),
                (b, picks, refl, first, greedy),
              )
        ]

  -- The picks stand among the candidates, none of them twice.
  abbrev pub Chosen : List A → List A → Type 0
  Chosen remaining picks =
      Distinct dec picks × ((x : A) → has dec x picks ≡ true → has dec x remaining ≡ true)

  IsGreedy-Chosen :
      (n : ℕ) (pool : Pool A K F V) (selected : List A) (keys : List K) (remaining picks : List A)
      → Distinct dec remaining
      → IsGreedy dec same_key o n pool selected keys remaining picks
      → Chosen remaining picks
  unfolding has
  IsGreedy-Chosen zero pool selected keys remaining picks distinct e =
      subst (Chosen remaining) (sym e) (tt, λ x there. ground arith)
  IsGreedy-Chosen (suc n) pool selected keys [] picks distinct e =
      subst (Chosen []) (sym e) (tt, λ x there. ground arith)
  IsGreedy-Chosen (suc n) pool selected keys (a ∷ remaining) picks distinct
        (b, rest, e, first, greedy) =
      let left = remove_first dec b (a ∷ remaining) in
      let (apart, inside) =
        IsGreedy-Chosen n pool (selected ++ b ∷ [])
          (add_key dec same_key o (pool.cluster_key_of b) keys) left rest
          (Distinct-remove_first dec b (a ∷ remaining) distinct) greedy in
      let there = FirstBest-has (score dec same_key o pool selected keys) b (a ∷ remaining) first in
      subst (Chosen (a ∷ remaining)) (sym e) (
        (
          elim (Bool-cases (has dec b rest)) [
            | inl again ↦
                ground (arith, inside b again, has-remove_first dec b b (a ∷ remaining) distinct)
            | inr fresh ↦ fresh
          ],
          apart,
        ),
        λ x h. elim (dec b x) [
          | yes here ↦ ap (λ z. has dec z (a ∷ remaining)) (sym here) ∙ there
          | no other ↦
              ground
                (arith, inside x (ground arith), has-remove_first dec b x (a ∷ remaining) distinct)
        ],
      )

  has-keep :
      (p : A → Bool) (x : A) (xs : List A) → has dec x xs ≡ false → has dec x (keep p xs) ≡ false
  unfolding has
  has-keep p x [] absent = refl
  has-keep p x (y ∷ ys) absent = ground (arith, has-keep p x ys)

  Distinct-keep : (p : A → Bool) (xs : List A) → Distinct dec xs → Distinct dec (keep p xs)
  Distinct-keep p [] distinct = tt
  Distinct-keep p (x ∷ xs) (fresh, distinct) =
      ground (arith, Distinct-keep p xs distinct, has-keep p x xs fresh)

  -- When the comparison of scores is a strict order and every score is above minus infinity, for
  -- candidates of which none is listed twice, `mmr_select` answers with as many picks as there are
  -- places or embedded candidates, whichever is fewer; the picks are a greedy selection, each the
  -- first of the best of what is left; none is picked twice, and each stands among the embedded
  -- candidates.
  pub mmr_select-IsGreedy :
      StrictOrder dec same_key o
      → Counts
      → (pool : Pool A K F V) (candidates preselected : List A) (n : ℕ) (x : A)
      → Distinct dec candidates
      → (picks : List A) × (mmr_select dec same_key o pool candidates preselected n ≡ some picks)
        × (length picks ≡ places n (keep (embedded dec same_key o pool) candidates))
        × IsGreedy dec same_key o n pool
            (keep (embedded dec same_key o pool) preselected)
            (keys_of dec same_key o pool preselected [])
            (keep (embedded dec same_key o pool) candidates)
            picks
        × Distinct dec picks
        × ((has dec x picks ≡ false)
            ⊎ (has dec x (keep (embedded dec same_key o pool) candidates) ≡ true))
  unfolding mmr_select
  mmr_select-IsGreedy order counts pool candidates preselected n x distinct =
      let remaining = keep (embedded dec same_key o pool) candidates in
      let selected = keep (embedded dec same_key o pool) preselected in
      let keys = keys_of dec same_key o pool preselected [] in
      let (picks, end, count, greedy) = pick_lem order counts n pool selected keys remaining in
      let (apart, inside) =
        IsGreedy-Chosen n pool selected keys remaining picks
          (Distinct-keep (embedded dec same_key o pool) candidates distinct) greedy in
      (
        picks,
        end,
        count,
        greedy,
        apart,
        elim (Bool-cases (has dec x picks)) [
          | inl there ↦ inr (inside x there)
          | inr absent ↦ inl absent
        ],
      )
