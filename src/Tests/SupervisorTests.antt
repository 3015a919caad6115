-- ===== src/Tests/SupervisorTests.antt =====
-- gaottt/multiverse/supervisor.py on the registry with the universes 1 and 2; tokens are numbers, and
-- no token is 0.
use ga_ottt.Base.{
  ℕ, ◌≡◌, ◌≢◌, ◌⊎◌, refl, true, false, none, some, [], ◌∷◌, arith, ℕ_discrete, ◌==◌, if◌then◌else◌,
}
use ga_ottt.Registry.{find_universe, get_universe, verify_api_key}
use ga_ottt.Supervisor.{
  Supervisor, Probe, probe_ok, probe_unauthorized, probe_down, signalled, running, exited,
}
use ga_ottt.Supervisor.Embedder.{Embedder, unowned, owned_idle, Calling, ensure_embedder_up}
use ga_ottt.Supervisor.Stop.{Killing}
use ga_ottt.Supervisor.Ensure.{Meeting, universe_inactive, is_active_row, ensure_locked}
use ga_ottt.Supervisor.Ensure.Serving.{Sound, ensure_locked_lem}
use ga_ottt.Supervisor.Recycle.{failed, semantic_ready}
use ga_ottt.Supervisor.Endpoints.{Host, Visit, validated, routed, unauthorized, route}
use ga_ottt.Supervisor.Endpoints.Route.{Resolved, route_cases}
use ga_ottt.Supervisor.Creation.{Request, created, create_endpoint}
use ga_ottt.Supervisor.Creation.Answers.{Answered, create_endpoint_cases}
use ga_ottt.Tests.RegistryTests.{two, hash}

-- Universe 1 runs as process 41 with token 71, universe 2 has a token and no process.
abbrev pub running_one : Supervisor ℕ ℕ
running_one = record {
  backend_pids = (1, 41) ∷ [];
  token_files = (1, 71) ∷ (2, 72) ∷ [];
  spawned = 1;
}

-- SIGTERM is enough, after one poll that still finds the process.
abbrev gentle : Killing
gentle = record {
  term = signalled;
  polls_after_term = running ∷ exited ∷ [];
  last_after_term = running;
  kill = signalled;
  polls_after_kill = [];
  last_after_kill = running;
}

abbrev only : ℕ → ℕ → Probe
only good token = if token == good then probe_ok else probe_unauthorized

-- The port of universe 1 knows another token than the file; the new process 42 accepts the fresh one.
abbrev stale : Meeting ℕ
stale = record {
  first_token = 73;
  probe = λ t. probe_unauthorized;
  reread = some 71;
  probe_again = λ t. probe_unauthorized;
  fresh = 74;
  process = some 42;
  ready_polls = (λ t. probe_down) ∷ only 74 ∷ [];
}

ensure_locked_lem_example :
    ((is_active_row (find_universe ℕ_discrete 1 two.universes) ≡ false)
      × (ensure_locked ℕ_discrete ℕ_discrete 0 two running_one 1 stale
          ≡ (running_one, universe_inactive)))
    ⊎ ((is_active_row (find_universe ℕ_discrete 1 two.universes) ≡ true)
        × Sound ℕ_discrete ℕ_discrete 0 running_one 1 2 stale
            (ensure_locked ℕ_discrete ℕ_discrete 0 two running_one 1 stale))
ensure_locked_lem_example =
    ensure_locked_lem ℕ_discrete ℕ_discrete 0 two running_one 1 2 stale (omega arith)

-- No embedder has been started.
abbrev nothing_started : Embedder ℕ
nothing_started = record {
  embedder_state = unowned;
  embedder_pid = none;
  embedder_info_cache = none;
  watchdog = false;
  last_backend_active_at = 0;
  started = [];
}

-- Nothing serves, so the process 60 is started, and `/info` is 7.
abbrev lazy_call : Calling ℕ
lazy_call = record {
  endpoint_set = true;
  may_spawn = true;
  validate_info = true;
  info_first = none;
  child = λ pid. running;
  health_fresh = false;
  health_lazy = false;
  spawning = record {
    health_in_lock = false;
    pid = 60;
    polls = (true, false) ∷ (true, true) ∷ [];
    alive_after = true;
    health_after = true;
    failure = record { external_ok = false; child_alive = false; kill = signalled };
    now = 100;
  };
  health_after_race = false;
  info_last = some 7;
}

abbrev host : Host ℕ ℕ ℕ ℕ
host = record {
  registry = two;
  supervisor = running_one;
  embedder = nothing_started;
  dirs = 1 ∷ 2 ∷ [];
  trash = [];
}

-- The engine of universe 1 has failed, is stopped and started again, and is ready.
abbrev recycled : Visit ℕ ℕ
recycled = record {
  calling = lazy_call;
  meeting = record (stale) { probe = only 71 };
  polls = failed ∷ [];
  recycling = record {
    recheck = some failed;
    killing = gentle;
    stop_probe = only 71;
    meeting = stale;
  };
  polls_after_recycle = semantic_ready ∷ [];
}

key_is_not_of_two : verify_api_key ℕ_discrete ℕ_discrete hash two 11 ≢ some 2
unfolding verify_api_key ga_ottt.Registry.find_key ℕ_discrete
key_is_not_of_two = ground arith

-- The directory of universe 1 is gone.
abbrev without_one : Host ℕ ℕ ℕ ℕ
without_one = record host { dirs = 2 ∷ [] }

route_cases_example :
    let out = route ℕ_discrete ℕ_discrete 0 ℕ_discrete hash without_one 11 recycled in
    ((verify_api_key ℕ_discrete ℕ_discrete hash two 11 ≡ none)
      × (out ≡ (without_one, unauthorized)))
    ⊎ ((uid : ℕ) × (verify_api_key ℕ_discrete ℕ_discrete hash two 11 ≡ some uid)
        × Resolved ℕ_discrete ℕ_discrete 0 ℕ_discrete hash without_one 2 recycled uid out)
route_cases_example =
    route_cases ℕ_discrete ℕ_discrete 0 ℕ_discrete hash without_one 11 2 recycled key_is_not_of_two

-- The call makes the directory again, starts the embedder and the backend
-- twice, and gives the token of the second start.
routed_again : route ℕ_discrete ℕ_discrete 0 ℕ_discrete hash without_one 11 recycled ≡ (
  record host {
    embedder = record nothing_started {
      embedder_state = owned_idle;
      embedder_pid = some 60;
      embedder_info_cache = some 7;
      watchdog = true;
      last_backend_active_at = 100;
      started = 60 ∷ [];
    };
    supervisor = record {
      backend_pids = (1, 42) ∷ [];
      token_files = (1, 74) ∷ (2, 72) ∷ [];
      spawned = 2;
    };
    dirs = 2 ∷ 1 ∷ [];
  },
  routed 74 false,
)
unfolding route ℕ_discrete verify_api_key get_universe
    ga_ottt.Supervisor.Embedder.poll_embedder_readiness ensure_locked ga_ottt.Dict.lookup
    ga_ottt.Supervisor.Stop.stop_backend ga_ottt.Dict.add ga_ottt.Dict.insert ga_ottt.Dict.erase
routed_again = refl

-- Every port can be bound, so that 7902 is the first that no universe holds.
abbrev creation : Request ℕ ℕ ℕ
creation = record {
  calling = lazy_call;
  is_port_free = λ port. true;
  range_start = 7900;
  range_end = 7920;
  universe_id = 3;
  owner_label = "owner";
  embedder_id = λ info. "ruri";
  embedder_version = λ info. "unpinned";
  plaintext_key = 13;
  now = 0;
}

create_endpoint_cases_example :
    Answered ℕ_discrete ℕ_discrete hash host creation 11
      (create_endpoint ℕ_discrete ℕ_discrete hash host creation)
      (ensure_embedder_up host.embedder (validated lazy_call))
create_endpoint_cases_example =
    create_endpoint_cases ℕ_discrete ℕ_discrete hash host creation 11 (omega arith) (omega arith)

created_third : (create_endpoint ℕ_discrete ℕ_discrete hash host creation).1 ≡ created 3 13 7902
unfolding create_endpoint ℕ_discrete ga_ottt.Supervisor.Embedder.poll_embedder_readiness
    ga_ottt.Registry.allocate_port ga_ottt.Registry.port_used ga_ottt.Registry.create_universe
    ga_ottt.Registry.id_taken ga_ottt.Registry.hash_taken
created_third = refl
