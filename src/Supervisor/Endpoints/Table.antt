-- ===== src/Supervisor/Endpoints/Table.antt =====
-- What `POST /route` answers once the embedder is up, as a table over what the backend's start and its
-- readiness have given.
use ga_ottt.Base.{◌≡◌, refl, true, false, List}
use ga_ottt.Registry.{Registry}
use ga_ottt.Supervisor.{Supervisor}
use ga_ottt.Supervisor.Ensure.{
  Ensured, serving, universe_inactive, tuning_env_error, not_ready, ensure_locked,
}
use ga_ottt.Supervisor.Recycle.{
  Readiness, semantic_ready, hybrid_ready, failed, starting, legacy, transient,
  await_backend_readiness, Recycled, abandoned, current, respawned, recycle_failed_backend,
}
use ga_ottt.Supervisor.Endpoints.{
  Host, Visit, Routing, routed, not_available, invalid_tuning_env, spawn_timeout, startup_failed,
  conclude, ensured_or, after_recycle, make_dir, route_recycle, route_serving, after_ensure,
}

module _ {T : Type 0} where
  -- The answer for a token and the readiness that was seen last.
  abbrev pub Concludes : T → Readiness → Routing T → Type 0
  Concludes t failed answer = (answer ≡ startup_failed)
  Concludes t starting answer = (answer ≡ routed t true)
  Concludes t semantic_ready answer = (answer ≡ routed t false)
  Concludes t hybrid_ready answer = (answer ≡ routed t false)
  Concludes t legacy answer = (answer ≡ routed t false)
  Concludes t transient answer = (answer ≡ routed t false)

  -- The answer after a recycle, with the readiness that was seen after it.
  abbrev pub RecycleSays : Recycled T → Readiness → Routing T → Type 0
  RecycleSays abandoned ready answer = (answer ≡ startup_failed)
  RecycleSays (current t) ready answer = Concludes t ready answer
  RecycleSays (respawned (serving t)) ready answer = Concludes t ready answer
  RecycleSays (respawned universe_inactive) ready answer = (answer ≡ not_available)
  RecycleSays (respawned tuning_env_error) ready answer = (answer ≡ invalid_tuning_env)
  RecycleSays (respawned not_ready) ready answer = (answer ≡ spawn_timeout)

  -- The answer by the start of the backend, its readiness, and, where that is `failed`, the recycle.
  abbrev pub StartSays : Ensured T → Readiness → Recycled T → Readiness → Routing T → Type 0
  StartSays (serving t) failed a later answer = RecycleSays a later answer
  StartSays (serving t) starting a later answer = (answer ≡ routed t true)
  StartSays (serving t) semantic_ready a later answer = (answer ≡ routed t false)
  StartSays (serving t) hybrid_ready a later answer = (answer ≡ routed t false)
  StartSays (serving t) legacy a later answer = (answer ≡ routed t false)
  StartSays (serving t) transient a later answer = (answer ≡ routed t false)
  StartSays universe_inactive ready a later answer = (answer ≡ not_available)
  StartSays tuning_env_error ready a later answer = (answer ≡ invalid_tuning_env)
  StartSays not_ready ready a later answer = (answer ≡ spawn_timeout)

  conclude-Concludes : (t : T) (r : Readiness) → Concludes t r (conclude t r)
  unfolding conclude
  conclude-Concludes t failed = refl
  conclude-Concludes t starting = refl
  conclude-Concludes t semantic_ready = refl
  conclude-Concludes t hybrid_ready = refl
  conclude-Concludes t legacy = refl
  conclude-Concludes t transient = refl

  after_recycle-RecycleSays :
      (t : T) (polls : List Readiness) (a : Recycled T)
      → RecycleSays a (await_backend_readiness polls) (after_recycle t polls a)
  unfolding after_recycle ensured_or
  after_recycle-RecycleSays t polls abandoned = refl
  after_recycle-RecycleSays t polls (current t') =
      conclude-Concludes t' (await_backend_readiness polls)
  after_recycle-RecycleSays t polls (respawned (serving t')) =
      conclude-Concludes t' (await_backend_readiness polls)
  after_recycle-RecycleSays t polls (respawned universe_inactive) = refl
  after_recycle-RecycleSays t polls (respawned tuning_env_error) = refl
  after_recycle-RecycleSays t polls (respawned not_ready) = refl

module _ {U T H I P : Type 0} (dec : Discrete U) (same_token : Discrete T) (no_token : T)
    (same_hash : Discrete H) (hash_key : P → H) where
  -- What the recycle of a call would give.
  abbrev pub recycled_of : Registry U H → Supervisor U T → U → Visit T I → Recycled T
  recycled_of r s uid v = (recycle_failed_backend dec same_token no_token r s uid v.recycling).1

  pub after_ensure-StartSays :
      (h : Host U T H I) (uid : U) (v : Visit T I) (a : Supervisor U T × Ensured T)
      → StartSays a.1
          (await_backend_readiness v.polls)
          (recycled_of h.registry a.0 uid v)
          (await_backend_readiness v.polls_after_recycle)
          (after_ensure dec same_token no_token same_hash hash_key h uid v a).1
  unfolding after_ensure route_serving route_recycle make_dir
  after_ensure-StartSays h uid v (s, serving t) = go (await_backend_readiness v.polls) refl
    where
      h' : Host U T H I
      h' = record h { supervisor = s }

      go :
          (r : Readiness)
          → await_backend_readiness v.polls ≡ r
          → StartSays
              (serving t)
              r
              (recycled_of h.registry s uid v)
              (await_backend_readiness v.polls_after_recycle)
              (route_serving dec same_token no_token same_hash hash_key h' uid t v).1
      go failed e =
          rw (route_serving, e)
            (after_recycle-RecycleSays t v.polls_after_recycle (recycled_of h.registry s uid v))
      go starting e = rw (route_serving, e) (conclude-Concludes t starting)
      go semantic_ready e = rw (route_serving, e) (conclude-Concludes t semantic_ready)
      go hybrid_ready e = rw (route_serving, e) (conclude-Concludes t hybrid_ready)
      go legacy e = rw (route_serving, e) (conclude-Concludes t legacy)
      go transient e = rw (route_serving, e) (conclude-Concludes t transient)
  after_ensure-StartSays h uid v (s, universe_inactive) = refl
  after_ensure-StartSays h uid v (s, tuning_env_error) = refl
  after_ensure-StartSays h uid v (s, not_ready) = refl

  -- What a call answers with the embedder up.
  abbrev pub Says : Registry U H → Supervisor U T → U → Visit T I → Routing T → Type 0
  Says r s uid v answer =
      let ensured = ensure_locked dec same_token no_token r s uid v.meeting in
      StartSays ensured.1 (await_backend_readiness v.polls) (recycled_of r ensured.0 uid v)
        (await_backend_readiness v.polls_after_recycle) answer
