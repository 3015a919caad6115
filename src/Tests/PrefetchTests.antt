-- ===== src/Tests/PrefetchTests.antt =====
-- gaottt/core/prefetch.py on a cache of two entries that live for 90 ticks.
use ga_ottt.Base.{ℕ, ◌+◌, ◌≤◌, ◌≡◌, refl, List, [], ◌∷◌, arith, ℕ_discrete, length}
use ga_ottt.Dict.{keys, lookup, insert, erase, has}
use ga_ottt.Dict.Laws.{Distinct}
use ga_ottt.Prefetch.{Cache, init, get, put, evict, move_to_end}
use ga_ottt.Prefetch.Calls.{Call, IsValid, run, run-init}
use ga_ottt.Prefetch.Pool.{Pool, Event, Runs, here, next, pool_step, schedule, enter}

abbrev fresh : Cache ℕ ℕ
fresh = record { max_size = 2; ttl = 90; entries = []; hits = 0; misses = 0; evictions = 0 }

abbrev two : Cache ℕ ℕ
two = record fresh { entries = (1, (10, 100)) ∷ (2, (20, 200)) ∷ [] }

two-IsValid : IsValid ℕ_discrete two
unfolding has ℕ_discrete
two-IsValid = record {
  positive = omega arith;
  bounded = omega arith;
  distinct = (refl, (refl, tt));
}

calls : List (Call ℕ ℕ)
calls =
    Call.puts 1 100 0 ∷ Call.puts 2 200 1 ∷ Call.gets 1 5 ∷ Call.puts 3 300 6 ∷ Call.gets 2 7 ∷ []

-- The second `put` on a full cache evicts the least recently used entry.
evicts_two : keys (put ℕ_discrete (get ℕ_discrete two 1 30).0 3 300 40).entries ≡ 1 ∷ 3 ∷ []
unfolding put get evict move_to_end lookup insert erase ℕ_discrete
evicts_two = refl

run-init_example :
    (length (run ℕ_discrete fresh calls).entries ≤ 2)
    × Distinct ℕ_discrete (keys (run ℕ_discrete fresh calls).entries)
    × ((run ℕ_discrete fresh calls).hits + (run ℕ_discrete fresh calls).misses ≡ 2)
unfolding calls init
run-init_example = run-init ℕ_discrete 2 90 calls fresh refl

abbrev idle : Pool
idle = record {
  max_concurrent = 1;
  permits = 1;
  waiting = 0;
  running = 0;
  tasks = 0;
  scheduled = 0;
  completed = 0;
  failed = 0;
}

abbrev busy : Pool
busy = record idle { permits = 0; waiting = 1; running = 1; tasks = 2; scheduled = 2 }

abbrev events : List Event
events = Event.enters ∷ Event.schedules ∷ Event.schedules ∷ []

busy-Runs : Runs idle busy events
unfolding pool_step schedule enter
busy-Runs = next Event.enters (next Event.schedules (next Event.schedules here refl) refl) refl

abbrev queued : Pool
queued = record idle { waiting = 2; tasks = 2; scheduled = 2 }
