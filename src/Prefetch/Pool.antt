-- ===== src/Prefetch/Pool.antt =====
-- gaottt/core/prefetch.py, `PrefetchPool`: a task waits for the semaphore, runs with a permit, and
-- ends by a result, an exception or a cancellation. A task is one of the waiting or of the running;
-- which one it is makes no difference to the pool. `asyncio.Semaphore` hands out a permit only if
-- one is left, and `async with` gives it back however the body ends.
use ga_ottt.Base.{
  ℕ, suc, ◌+◌, ◌-◌, ◌≤◌, ◌<◌, ◌≡◌, refl, Option, none, some, List, [], ◌∷◌, arith, if◌then◌else◌,
  ltb,
}
use ga_ottt.Prefetch.{Result, ok, raise, value_error}

pub record Pool : Type 0 where
  pub max_concurrent : ℕ
  pub permits : ℕ
  pub waiting : ℕ
  pub running : ℕ
  pub tasks : ℕ
  pub scheduled : ℕ
  pub completed : ℕ
  pub failed : ℕ

pub record PoolStats : Type 0 where
  pub scheduled : ℕ
  pub completed : ℕ
  pub failed : ℕ
  pub in_flight : ℕ
  pub max_concurrent : ℕ

unfoldable pub new_pool : ℕ → Result Pool
new_pool max_concurrent =
    if ltb max_concurrent 1
    then raise value_error
    else ok (record {
      max_concurrent = max_concurrent;
      permits = max_concurrent;
      waiting = 0;
      running = 0;
      tasks = 0;
      scheduled = 0;
      completed = 0;
      failed = 0;
    })

-- `schedule`: the task is created and tracked, and has not begun.
unfoldable pub schedule : Pool → Pool
schedule p = record p { waiting = p.waiting + 1; tasks = p.tasks + 1; scheduled = p.scheduled + 1 }

-- How a running task ends.
pub data Outcome : Type 0 where
  result cancelled exception : Outcome

-- `_wrap` enters `async with self._sem`; without a permit or a waiting task nothing happens.
unfoldable pub enter : Pool → Option Pool
enter p =
    if ltb 0 p.waiting
    then if ltb 0 p.permits
      then some
          (record p { permits = p.permits - 1; waiting = p.waiting - 1; running = p.running + 1 })
      else none
    else none

-- The counters that `_wrap` changes as its body ends.
unfoldable pub counted : Pool → Outcome → Pool
counted p Outcome.result = record p { completed = p.completed + 1 }
counted p Outcome.cancelled = p
counted p Outcome.exception = record p { failed = p.failed + 1 }

-- `_wrap` leaves the semaphore, and the done callback discards the task.
unfoldable pub leave : Pool → Outcome → Option Pool
unfolding counted
leave p o =
    if ltb 0 p.running
    then some (
        counted (record p { permits = p.permits + 1; running = p.running - 1; tasks = p.tasks - 1 })
          o)
    else none

-- A task that is cancelled while it waits for the semaphore.
unfoldable pub give_up : Pool → Option Pool
give_up p =
    if ltb 0 p.waiting
    then some (record p { waiting = p.waiting - 1; tasks = p.tasks - 1 })
    else none

unfoldable pub pool_stats : Pool → PoolStats
pool_stats p = record {
  scheduled = p.scheduled;
  completed = p.completed;
  failed = p.failed;
  in_flight = p.tasks;
  max_concurrent = p.max_concurrent;
}

pub data Event : Type 0 where
  schedules enters gives_up : Event
  leaves : Outcome → Event

unfoldable pub pool_step : Pool → Event → Option Pool
pool_step p Event.schedules = some (schedule p)
pool_step p Event.enters = enter p
pool_step p (Event.leaves o) = leave p o
pool_step p Event.gives_up = give_up p

-- A sequence of events that can happen.
pub data Runs (p : Pool) : Pool → List Event → Type 0 where
  here : Runs p p []
  next :
      {q r : Pool} {es : List Event} (e : Event)
      → Runs p q es
      → pool_step q e ≡ some r
      → Runs p r (e ∷ es)

abbrev pub cancellations : List Event → ℕ
cancellations [] = 0
cancellations (Event.schedules ∷ es) = cancellations es
cancellations (Event.enters ∷ es) = cancellations es
cancellations (Event.gives_up ∷ es) = suc (cancellations es)
cancellations (Event.leaves Outcome.result ∷ es) = cancellations es
cancellations (Event.leaves Outcome.cancelled ∷ es) = suc (cancellations es)
cancellations (Event.leaves Outcome.exception ∷ es) = cancellations es

pub record Balanced (cap lost : ℕ) (p : Pool) : Type 0 where
  pub capacity : p.max_concurrent ≡ cap
  pub shared : p.permits + p.running ≡ cap
  pub tracked : p.tasks ≡ p.waiting + p.running
  pub settled : p.scheduled ≡ p.completed + p.failed + p.tasks + lost

pool_step-Balanced :
    (e : Event) (es : List Event) (cap : ℕ) (p q : Pool)
    → Balanced cap (cancellations es) p
    → pool_step p e ≡ some q
    → Balanced cap (cancellations (e ∷ es)) q
unfolding pool_step schedule enter leave give_up
pool_step-Balanced Event.schedules es cap p q b h = ground arith
pool_step-Balanced Event.enters es cap p q b h = ground arith
pool_step-Balanced Event.gives_up es cap p q b h = ground arith
pool_step-Balanced (Event.leaves Outcome.result) es cap p q b h = ground arith
pool_step-Balanced (Event.leaves Outcome.cancelled) es cap p q b h = ground arith
pool_step-Balanced (Event.leaves Outcome.exception) es cap p q b h = ground arith

Runs-Balanced :
    {p q : Pool} {es : List Event} (cap : ℕ)
    → Balanced cap 0 p
    → Runs p q es
    → Balanced cap (cancellations es) q
Runs-Balanced cap b here = b
Runs-Balanced cap b (next {q} {r} {es} e runs h) =
    pool_step-Balanced e es cap q r (Runs-Balanced cap b runs) h

new_pool-Balanced : (cap : ℕ) (p : Pool) → new_pool cap ≡ ok p → Balanced cap 0 p
unfolding new_pool
new_pool-Balanced cap p h = ground arith

-- Whatever events a new pool goes through, it never runs more tasks than `max_concurrent`, its task
-- set holds the tasks that wait or run, and every scheduled task has completed, failed, been
-- cancelled or is still in flight.
pub Runs-bounds :
    (cap : ℕ) (p q : Pool) (es : List Event)
    → new_pool cap ≡ ok p
    → Runs p q es
    → (q.running ≤ cap)
      × ((pool_stats q).in_flight ≡ q.waiting + q.running)
      × (q.scheduled ≡ q.completed + q.failed + q.tasks + cancellations es)
unfolding pool_stats
Runs-bounds cap p q es h runs =
    let b = Runs-Balanced cap (new_pool-Balanced cap p h) runs in
    (omega arith, b.tracked, b.settled)

-- In every state that a new pool can reach, a waiting task can enter as soon as fewer than
-- `max_concurrent` tasks run, and then one task more runs.
pub Runs-enter :
    (cap : ℕ) (p q : Pool) (es : List Event)
    → new_pool cap ≡ ok p
    → Runs p q es
    → 0 < q.waiting
    → q.running < cap
    → (r : Pool) × (enter q ≡ some r) × (r.running ≡ q.running + 1)
unfolding enter
Runs-enter cap p q es h runs w room =
    let b = Runs-Balanced cap (new_pool-Balanced cap p h) runs in
    (
      record q { permits = q.permits - 1; waiting = q.waiting - 1; running = q.running + 1 },
      ground arith,
      refl,
    )
