-- ===== src/Prefetch/Calls.antt =====
-- Runs of calls on a `PrefetchCache`: the bound on its size and its counters.
use ga_ottt.Base.{ℕ, ◌+◌, ◌≤◌, ◌≡◌, refl, ◌∙◌, List, [], ◌∷◌, arith, length}
use ga_ottt.Dict.{keys}
use ga_ottt.Dict.Laws.{Distinct, length-erase-le}
use ga_ottt.Dict.Unique.{insert-Distinct, erase-Distinct}
use ga_ottt.Prefetch.{Cache, ok, init, get, put, invalidate}
use ga_ottt.Prefetch.Entries.{
  length-evict-le, evict-Distinct, move_to_end-Distinct, length-move_to_end-le,
}

pub data Call (K R : Type 0) : Type 0 where
  gets : K → ℕ → Call K R
  puts : K → R → ℕ → Call K R
  invalidates : Call K R

-- The number of lookups among the calls.
abbrev pub lookups : {K R : Type 0} → List (Call K R) → ℕ
lookups [] = 0
lookups (Call.gets k now ∷ cs) = lookups cs + 1
lookups (Call.puts k r now ∷ cs) = lookups cs
lookups (Call.invalidates ∷ cs) = lookups cs

module _ {K R : Type 0} (dec : Discrete K) where
  pub record IsValid (c : Cache K R) : Type 0 where
    pub positive : 1 ≤ c.max_size
    pub bounded : length c.entries ≤ c.max_size
    pub distinct : Distinct dec (keys c.entries)

  unfoldable pub step : Cache K R → Call K R → Cache K R
  step c (Call.gets k now) = (get dec c k now).0
  step c (Call.puts k r now) = put dec c k r now
  step c Call.invalidates = (invalidate c).0

  pub run : Cache K R → List (Call K R) → Cache K R
  run c [] = c
  run c (call ∷ calls) = run (step c call) calls

  get-IsValid : (c : Cache K R) (k : K) (now : ℕ) → IsValid c → IsValid (get dec c k now).0
  unfolding get
  get-IsValid c k now v = ground (
    arith,
    length-erase-le dec k c.entries,
    erase-Distinct dec k c.entries v.distinct,
    length-move_to_end-le dec k c.entries,
    move_to_end-Distinct dec k c.entries v.distinct,
  )

  put-IsValid : (c : Cache K R) (k : K) (r : R) (now : ℕ) → IsValid c → IsValid (put dec c k r now)
  unfolding put
  put-IsValid c k r now v = record {
    positive = v.positive;
    bounded = length-evict-le _ _ _;
    distinct =
        evict-Distinct dec _ _ _
          (move_to_end-Distinct dec k _ (insert-Distinct dec k (now, r) c.entries v.distinct));
  }

  pub step-IsValid : (c : Cache K R) (call : Call K R) → IsValid c → IsValid (step c call)
  unfolding step invalidate
  step-IsValid c (Call.gets k now) v = get-IsValid c k now v
  step-IsValid c (Call.puts k r now) v = put-IsValid c k r now v
  step-IsValid c Call.invalidates v = record {
    positive = v.positive;
    bounded = omega arith;
    distinct = tt;
  }

  step_config : (c : Cache K R) (call : Call K R) → (step c call).max_size ≡ c.max_size
  unfolding step get put invalidate
  step_config c (Call.gets k now) = ground arith
  step_config c (Call.puts k r now) = refl
  step_config c Call.invalidates = refl

  step_counts :
      (c : Cache K R) (call : Call K R)
      → (step c call).hits + (step c call).misses ≡ c.hits + c.misses + lookups (call ∷ [])
  unfolding step get put invalidate
  step_counts c (Call.gets k now) = ground arith
  step_counts c (Call.puts k r now) = omega arith
  step_counts c Call.invalidates = omega arith

  lookups_head :
      (call : Call K R) (calls : List (Call K R))
      → lookups (call ∷ calls) ≡ lookups (call ∷ []) + lookups calls
  lookups_head (Call.gets k now) calls = omega arith
  lookups_head (Call.puts k r now) calls = omega arith
  lookups_head Call.invalidates calls = omega arith

  run_lem :
      (c : Cache K R) (calls : List (Call K R))
      → IsValid c
      → IsValid (run c calls)
        × ((run c calls).max_size ≡ c.max_size)
        × ((run c calls).hits + (run c calls).misses ≡ c.hits + c.misses + lookups calls)
  unfolding run
  run_lem c [] v = (v, refl, omega arith)
  run_lem c (call ∷ calls) v =
      let (v', m, n) = run_lem (step c call) calls (step-IsValid c call v) in
      (v', m ∙ step_config c call, omega (arith, step_counts c call, lookups_head call calls))

  -- Whatever calls follow the construction of a cache with bounds that `__init__` accepts, the
  -- cache never holds more than `max_size` entries nor two under one key, and its hits and misses
  -- together count the lookups made.
  pub run-init :
      (max_size ttl : ℕ) (calls : List (Call K R)) (c : Cache K R)
      → init max_size ttl ≡ ok c
      → (length (run c calls).entries ≤ max_size)
        × Distinct dec (keys (run c calls).entries)
        × ((run c calls).hits + (run c calls).misses ≡ lookups calls)
  unfolding init
  run-init max_size ttl calls c e =
      let v : IsValid c = record {
        positive = ground arith;
        bounded = ground arith;
        distinct = ground arith;
      } in
      let (w, m, n) = run_lem c calls v in (ground arith, w.distinct, ground arith)
