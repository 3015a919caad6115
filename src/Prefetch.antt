-- ===== src/Prefetch.antt =====
-- gaottt/core/prefetch.py, `PrefetchCache`: a bounded cache with expiry. Times are ticks of a clock
-- that each call reads once and that is an argument here; the query type and the results are
-- parameters. `now - cached_at > ttl` is written `cached_at + ttl < now`.
pub mod Entries
pub mod Calls
pub mod Reads
pub mod Pool
use ga_ottt.Base.{
  ℕ, ◌+◌, ◌-◌, Bool, true, false, Option, none, some, List, [], ◌∷◌, ◌++◌, ltb, leb, if◌then◌else◌,
  length, keep,
}
use ga_ottt.Dict.{Dict, lookup, insert, erase, values}

-- `(query, top_k, wave_depth, wave_k)`
abbrev pub CacheKey : Type 0 → Type 0
CacheKey Q = Q × ℕ × Option ℕ × Option ℕ

pub data Error : Type 0 where
  value_error : Error

pub data Result (A : Type 0) : Type 0 where
  ok : A → Result A
  raise : Error → Result A

pub record Cache (K R : Type 0) : Type 0 where
  pub max_size : ℕ
  pub ttl : ℕ
  pub entries : Dict K (ℕ × R)
  pub hits : ℕ
  pub misses : ℕ
  pub evictions : ℕ

pub record Stats : Type 0 where
  pub size : ℕ
  pub active : ℕ
  pub hits : ℕ
  pub misses : ℕ
  pub evictions : ℕ
  pub max_size : ℕ
  pub ttl_seconds : ℕ

unfoldable pub init : {K R : Type 0} → ℕ → ℕ → Result (Cache K R)
init max_size ttl_seconds =
    if ltb max_size 1
    then raise value_error
    else if leb ttl_seconds 0
    then raise value_error
    else ok (record {
      max_size = max_size;
      ttl = ttl_seconds;
      entries = [];
      hits = 0;
      misses = 0;
      evictions = 0;
    })

-- The loop of `put`: the oldest entries go until the rest fits.
unfoldable pub evict : {E : Type 0} → ℕ → List E → ℕ → List E × ℕ
evict max_size [] evictions = ([], evictions)
evict max_size (e ∷ es) evictions =
    if ltb max_size (length (e ∷ es))
    then evict max_size es (evictions + 1)
    else (e ∷ es, evictions)

module _ {K R : Type 0} (dec : Discrete K) where
  -- `OrderedDict.move_to_end` of a key that is there
  unfoldable pub move_to_end : K → Dict K (ℕ × R) → Dict K (ℕ × R)
  move_to_end key d = elim (lookup dec key d) [
    | none ↦ d
    | some e ↦ erase dec key d ++ (key, e) ∷ []
  ]

  unfoldable pub get : Cache K R → K → ℕ → Cache K R × Option R
  get c key now = elim (lookup dec key c.entries) [
    | none ↦ (record c { misses = c.misses + 1 }, none)
    | some (cached_at, results) ↦
        if ltb (cached_at + c.ttl) now
        then (record c { entries = erase dec key c.entries; misses = c.misses + 1 }, none)
        else (record c { entries = move_to_end key c.entries; hits = c.hits + 1 }, some results)
  ]

  unfoldable pub put : Cache K R → K → R → ℕ → Cache K R
  put c key results now =
      let (es, evictions) =
        evict c.max_size (move_to_end key (insert dec key (now, results) c.entries)) c.evictions in
      record c { entries = es; evictions = evictions }

module _ {K R : Type 0} where
  unfoldable pub invalidate : Cache K R → Cache K R × ℕ
  invalidate c = (record c { entries = [] }, length c.entries)

  -- The hit rate, a quotient of two counters, is left out.
  unfoldable pub stats : Cache K R → ℕ → Stats
  stats c now = record {
    size = length c.entries;
    active = length (keep (λ e. leb now (e.0 + c.ttl)) (values c.entries));
    hits = c.hits;
    misses = c.misses;
    evictions = c.evictions;
    max_size = c.max_size;
    ttl_seconds = c.ttl;
  }
