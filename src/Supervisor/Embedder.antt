-- ===== src/Supervisor/Embedder.antt =====
-- The embedder service that `_Supervisor` starts on demand: `ensure_embedder_up` and what it calls.
-- A validated `/info` is a value, never empty; every probe of the service and of a process is an
-- argument for the place that asks. A child that is waited for after SIGKILL is gone.
pub mod Watch
pub mod Ownership
pub mod Ensure
pub mod Disowned
pub mod Idle
use ga_ottt.Base.{
  ℕ, Bool, true, false, ◌&&◌, ◌||◌, Option, none, some, List, [], ◌∷◌, if◌then◌else◌, not,
}
use ga_ottt.Supervisor.{
  Kill, signalled, process_lookup_error, permission_error, Wait, process_alive,
}

pub data EmbedderState : Type 0 where
  unowned owned_idle owned_terminating : EmbedderState

-- `watchdog`: a task is set. `started` is not in the source: every process that was started.
pub record Embedder (I : Type 0) : Type 0 where
  pub embedder_state : EmbedderState
  pub embedder_pid : Option ℕ
  pub embedder_info_cache : Option I
  pub watchdog : Bool
  pub last_backend_active_at : ℕ
  pub started : List ℕ

-- What a failed start meets.
pub record Failure : Type 0 where
  pub external_ok : Bool
  pub child_alive : Bool
  pub kill : Kill

-- What `_spawn_embedder_owned` meets: each poll asks for the child and for its health.
pub record Spawning : Type 0 where
  pub health_in_lock : Bool
  pub pid : ℕ
  pub polls : List (Bool × Bool)
  pub alive_after : Bool
  pub health_after : Bool
  pub failure : Failure
  pub now : ℕ

-- What `ensure_embedder_up` meets, with its configuration and its argument.
pub record Calling (I : Type 0) : Type 0 where
  pub endpoint_set : Bool
  pub may_spawn : Bool
  pub validate_info : Bool
  pub info_first : Option I
  pub child : ℕ → Wait
  pub health_fresh : Bool
  pub health_lazy : Bool
  pub spawning : Spawning
  pub health_after_race : Bool
  pub info_last : Option I

-- A spawn returns, raises the validation error, or lets the PermissionError of a kill through.
pub data Spawned : Type 0 where
  done spawn_failed kill_refused : Spawned

pub data EmbedderAnswer (I : Type 0) : Type 0 where
  up : Option I → EmbedderAnswer I
  validation_error os_error : EmbedderAnswer I

-- `_poll_embedder_readiness`: the polls until the deadline.
unfoldable pub poll_embedder_readiness : List (Bool × Bool) → Bool
poll_embedder_readiness [] = false
poll_embedder_readiness ((alive, health) ∷ rest) =
    let later = poll_embedder_readiness rest in
    if not alive then false else if health then true else later

-- Killing a child that is alive: `e` if that is not refused.
abbrev pub after_kill : {E : Type 0} → Bool → Kill → E → E → E
after_kill false k e refused = e
after_kill true signalled e refused = e
after_kill true process_lookup_error e refused = e
after_kill true permission_error e refused = refused

-- `pid is not None and _is_my_child_alive(pid)`
abbrev pub child_alive : (ℕ → Wait) → Option ℕ → Bool
child_alive child none = false
child_alive child (some pid) = process_alive (child pid)

module _ {I : Type 0} where
  unfoldable pub reset_embedder_state : Embedder I → Embedder I
  reset_embedder_state e = record e {
    embedder_state = unowned;
    embedder_pid = none;
    embedder_info_cache = none;
    watchdog = false;
  }

  -- Somebody else's embedder serves.
  unfoldable pub disown : Embedder I → Embedder I
  disown e = record e { embedder_state = unowned; embedder_pid = none }

  unfoldable pub own : Embedder I → Spawning → Embedder I
  own e sp = record e {
    embedder_pid = some sp.pid;
    embedder_state = owned_idle;
    last_backend_active_at = sp.now;
    watchdog = true;
  }

  unfoldable pub handle_spawn_readiness_failure : Embedder I → Failure → Embedder I × Spawned
  unfolding disown
  handle_spawn_readiness_failure e f =
      if f.external_ok
      then (disown e, after_kill f.child_alive f.kill done kill_refused)
      else (e, after_kill f.child_alive f.kill spawn_failed kill_refused)

  abbrev pub launched : Embedder I → Spawning → Embedder I
  launched e sp = record e { started = sp.pid ∷ e.started }

  -- `_spawn_embedder_owned` from the launch on.
  unfoldable pub launch : Embedder I → Spawning → Embedder I × Spawned
  unfolding handle_spawn_readiness_failure disown own
  launch e sp =
      let e' : Embedder I = launched e sp in
      if poll_embedder_readiness sp.polls
      then if not sp.alive_after || not sp.health_after
        then (disown e', done)
        else (own e' sp, done)
      else handle_spawn_readiness_failure e' sp.failure

  unfoldable pub spawn_embedder_owned : Embedder I → Spawning → Embedder I × Spawned
  unfolding launch
  spawn_embedder_owned e sp =
      if sp.health_in_lock then (record e { embedder_state = unowned }, done) else launch e sp

  -- Step (4): `/info` once the service is up.
  unfoldable pub finish : Embedder I → Calling I → Embedder I × EmbedderAnswer I
  finish e c = elim e.embedder_info_cache [
    | some i ↦ (e, up (some i))
    | none ↦
        if c.validate_info
        then elim c.info_last [
          | none ↦ (e, validation_error)
          | some i ↦ (record e { embedder_info_cache = some i }, up (some i))
        ]
        else (e, up none)
  ]

  unfoldable pub after_spawn : Calling I → Embedder I × Spawned → Embedder I × EmbedderAnswer I
  unfolding finish
  after_spawn c (e, spawn_failed) = (e, validation_error)
  after_spawn c (e, kill_refused) = (e, os_error)
  after_spawn c (e, done) =
      let race_lost : Embedder I × EmbedderAnswer I =
        if c.health_after_race
        then finish (record e { embedder_state = unowned }) c
        else (e, validation_error) in
      elim e.embedder_state [
        | owned_idle ↦ finish e c
        | unowned ↦ race_lost
        | owned_terminating ↦ race_lost
      ]

  -- Step (3)
  unfoldable pub lazy_spawn : Embedder I → Calling I → Embedder I × EmbedderAnswer I
  unfolding finish after_spawn spawn_embedder_owned disown
  lazy_spawn e c =
      if c.health_lazy
      then finish (disown e) c
      else if c.may_spawn
      then after_spawn c (spawn_embedder_owned e c.spawning)
      else (e, validation_error)

  -- The two checks of the freshness of the cache.
  unfoldable pub from_cache : Embedder I → Calling I → Embedder I × EmbedderAnswer I
  unfolding lazy_spawn reset_embedder_state
  from_cache e c = elim e.embedder_info_cache [
    | none ↦ lazy_spawn e c
    | some i ↦ elim e.embedder_state [
      | owned_idle ↦
          if child_alive c.child e.embedder_pid && c.health_fresh
          then (e, up (some i))
          else lazy_spawn (reset_embedder_state e) c
      | unowned ↦
          if c.health_fresh
          then (e, up (some i))
          else lazy_spawn (record e { embedder_info_cache = none }) c
      | owned_terminating ↦ lazy_spawn e c
    ]
  ]

  -- Step (2), where the cache is empty: with an answer of `/info` that this supervisor may keep.
  unfoldable pub without_cache : Embedder I → Calling I → Embedder I × EmbedderAnswer I
  unfolding from_cache
  without_cache e c = elim c.info_first [
    | none ↦ if not c.may_spawn then (e, validation_error) else from_cache e c
    | some i ↦ elim e.embedder_state [
      | unowned ↦ (record e { embedder_info_cache = some i }, up (some i))
      | owned_idle ↦ from_cache e c
      | owned_terminating ↦ (e, up (some i))
    ]
  ]

  -- With the lock on spawns held.
  unfoldable pub ensure_in_lock : Embedder I → Calling I → Embedder I × EmbedderAnswer I
  unfolding without_cache from_cache
  ensure_in_lock e c =
      if not c.endpoint_set
      then (e, validation_error)
      else elim e.embedder_info_cache [ none ↦ without_cache e c | some i ↦ from_cache e c ]

  unfoldable pub ensure_embedder_up : Embedder I → Calling I → Embedder I × EmbedderAnswer I
  unfolding ensure_in_lock
  ensure_embedder_up e c = elim e.embedder_state [
    | owned_terminating ↦ (e, validation_error)
    | unowned ↦ ensure_in_lock e c
    | owned_idle ↦ ensure_in_lock e c
  ]
