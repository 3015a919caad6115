-- ===== src/Tests/EmbedderTests.antt =====
-- gaottt/multiverse/supervisor.py: the embedder of a supervisor that may start one.
use ga_ottt.Base.{ℕ, ◌≡◌, ◌≢◌, ◌⊎◌, refl, true, false, none, some, [], ◌∷◌, ℕ_discrete}
use ga_ottt.Dict.{has, keys}
use ga_ottt.Dict.Laws.{Distinct}
use ga_ottt.Registry.{find_universe, Status}
use ga_ottt.Supervisor.{
  Supervisor, Probe, probe_ok, probe_unauthorized, probe_down, Kill, signalled, Wait, running,
  exited,
}
use ga_ottt.Supervisor.Embedder.{
  Embedder, unowned, owned_idle, owned_terminating, Calling, validation_error, reset_embedder_state,
  ensure_embedder_up,
}
use ga_ottt.Supervisor.Embedder.Watch.{
  Terminating, Round, ended, terminate_embedder, watchdog_round,
}
use ga_ottt.Supervisor.Embedder.Ensure.{RefusedOrSound, ensure_embedder_up_cases}
use ga_ottt.Supervisor.Embedder.Disowned.{ensure_embedder_up-disowns}
use ga_ottt.Supervisor.Embedder.Idle.{
  SeenGone, RoundEnds, terminate_embedder_cases, watchdog_round_cases,
}
use ga_ottt.Tests.RegistryTests.{two, universe}
use ga_ottt.Tests.SupervisorTests.{running_one}

-- Nothing has been started.
abbrev fresh : Embedder ℕ
fresh = record {
  embedder_state = unowned;
  embedder_pid = none;
  embedder_info_cache = none;
  watchdog = false;
  last_backend_active_at = 0;
  started = [];
}

-- Nothing serves, so the process 60 is started; `/info` is not asked for at the end.
abbrev starting_call : Calling ℕ
starting_call = record {
  endpoint_set = true;
  may_spawn = true;
  validate_info = false;
  info_first = none;
  child = λ pid. running;
  health_fresh = false;
  health_lazy = false;
  spawning = record {
    health_in_lock = false;
    pid = 60;
    polls = (true, false) ∷ (true, true) ∷ [];
    alive_after = true;
    health_after = true;
    failure = record { external_ok = false; child_alive = false; kill = signalled };
    now = 100;
  };
  health_after_race = false;
  info_last = none;
}

-- The next call, with the service up.
abbrev next_call : Calling ℕ
next_call = record (starting_call) { info_first = some 5; health_lazy = true; health_fresh = true }

ensure_embedder_up_cases_example :
    RefusedOrSound fresh starting_call unowned (ensure_embedder_up fresh starting_call)
ensure_embedder_up_cases_example = ensure_embedder_up_cases fresh starting_call tt

-- The embedder that the first call leaves.
abbrev owned : Embedder ℕ
owned = record {
  embedder_state = owned_idle;
  embedder_pid = some 60;
  embedder_info_cache = none;
  watchdog = true;
  last_backend_active_at = 100;
  started = 60 ∷ [];
}

first_call : (ensure_embedder_up fresh starting_call).0 ≡ owned
unfolding ensure_embedder_up ga_ottt.Supervisor.Embedder.poll_embedder_readiness
first_call = refl

abbrev stopping : Terminating
stopping = record {
  term = signalled;
  polls_after_term = running ∷ [];
  kill = signalled;
  polls_after_kill = exited ∷ [];
}

-- Long after the last use, with the process 41 of universe 1 gone and the port of universe 2 silent.
abbrev late : Round ℕ
late = record {
  now = 900;
  reap = λ pid. exited;
  wait = λ pid. running;
  probe = λ port token. probe_down;
  terminating = stopping;
}

ensure_embedder_up-disowns_example :
    ((ensure_embedder_up owned next_call).0.embedder_state ≡ unowned)
    × ((ensure_embedder_up owned next_call).0.embedder_pid ≡ none)
    × ((ensure_embedder_up owned next_call).0.started ≡ 60 ∷ [])
    × (watchdog_round ℕ_discrete 0 300 two.universes running_one
          (ensure_embedder_up owned next_call).0
          late
        ≡ ((running_one, (ensure_embedder_up owned next_call).0), ended))
ensure_embedder_up-disowns_example =
    ensure_embedder_up-disowns ℕ_discrete 0 owned next_call 300 two.universes running_one late refl
      refl refl refl refl

terminate_embedder_cases_example :
    ((owned_idle ≢ owned_idle) × (terminate_embedder owned stopping ≡ owned))
    ⊎ ((owned_idle ≡ owned_idle)
        × SeenGone (some 60) stopping
        × (terminate_embedder owned stopping ≡ reset_embedder_state owned))
    ⊎ ((owned_idle ≡ owned_idle)
        × (¬ SeenGone (some 60) stopping)
        × (terminate_embedder owned stopping
            ≡ record (owned) { embedder_state = owned_terminating }))
terminate_embedder_cases_example = terminate_embedder_cases owned stopping

one_tracked : Distinct ℕ_discrete (keys running_one.backend_pids)
unfolding has
one_tracked = (refl, tt)

found_one : find_universe ℕ_discrete 1 two.universes ≡ some (universe 1 7900 Status.active)
unfolding find_universe ℕ_discrete
found_one = refl

watchdog_round_cases_example :
    RoundEnds ℕ_discrete 0 300 running_one owned late 1
      (universe 1 7900 Status.active)
      owned_idle
      (watchdog_round ℕ_discrete 0 300 two.universes running_one owned late)
watchdog_round_cases_example =
    watchdog_round_cases ℕ_discrete 0 300 two.universes running_one owned late 1
      (universe 1 7900 Status.active) one_tracked found_one
