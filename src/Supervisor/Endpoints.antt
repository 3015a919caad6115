-- ===== src/Supervisor/Endpoints.antt =====
-- The routes `DELETE /admin/universes/{uid}` and `POST /route` of `create_supervisor_app`, over the
-- registry, the supervisor, its embedder and the directories of the universes. The lock files in these
-- are left out.
pub mod Bounds
pub mod Delete
pub mod Leaves
pub mod Route
pub mod Table
use Prim.Native.String.{String}
use ga_ottt.Base.{ℕ, Bool, true, false, Option, none, some, List, [], ◌∷◌, if◌then◌else◌, not}
use ga_ottt.Dict.{erase, has, add, discard}
use ga_ottt.Registry.{Registry, verify_api_key, get_universe, delete_universe, find_universe}
use ga_ottt.Supervisor.{Supervisor, Probe}
use ga_ottt.Supervisor.Embedder.{
  Embedder, Calling, EmbedderAnswer, up, validation_error, os_error, ensure_embedder_up,
}
use ga_ottt.Supervisor.Stop.{Killing, Stopping, stopped, conflict, stop_backend}
use ga_ottt.Supervisor.Ensure.{
  Meeting, Ensured, serving, universe_inactive, tuning_env_error, not_ready, is_active_row,
  ensure_locked,
}
use ga_ottt.Supervisor.Recycle.{
  Readiness, semantic_ready, hybrid_ready, failed, starting, legacy, transient,
  await_backend_readiness, Recycling, Recycled, abandoned, current, respawned,
  recycle_failed_backend,
}

-- `dirs` are the directories under `universes/`, `trash` those under the trash.
pub record Host (U T H I : Type 0) : Type 0 where
  pub registry : Registry U H
  pub supervisor : Supervisor U T
  pub embedder : Embedder I
  pub dirs : List U
  pub trash : List U

pub data Deleting : Type 0 where
  deleted universe_not_found backend_alive : Deleting

-- 200 with the token and whether the backend still starts, 401, 404, 503 for the embedder, an uncaught
-- PermissionError of its start, 500 for the tuning environment, an uncaught RuntimeError, 503 for the
-- backend.
pub data Routing (T : Type 0) : Type 0 where
  routed : T → Bool → Routing T
  unauthorized not_available embedder_down embedder_error invalid_tuning_env spawn_timeout
        startup_failed :
      Routing T

-- The call with the default of `validate_info`.
abbrev pub validated : {I : Type 0} → Calling I → Calling I
validated c = record c { validate_info = true }

-- What one call of `route` meets.
pub record Visit (T I : Type 0) : Type 0 where
  pub calling : Calling I
  pub meeting : Meeting T
  pub polls : List Readiness
  pub recycling : Recycling T
  pub polls_after_recycle : List Readiness

module _ {U T H I : Type 0} (dec : Discrete U) (no_token : T) where
  -- The directory, with the token file in it, goes to the trash.
  unfoldable pub move_to_trash : Host U T H I → U → Host U T H I
  move_to_trash h uid = record h {
    dirs = discard dec uid h.dirs;
    trash = add dec uid h.trash;
    supervisor = record (h.supervisor) { token_files = erase dec uid h.supervisor.token_files };
  }

  unfoldable pub delete_row : Host U T H I → U → ℕ → Host U T H I
  delete_row h uid now = record h { registry = delete_universe dec h.registry uid now }

  unfoldable pub after_stop :
      Host U T H I → U → ℕ → Supervisor U T × Stopping → Host U T H I × Deleting
  unfolding move_to_trash delete_row
  after_stop h uid now (s, conflict) = (record h { supervisor = s }, backend_alive)
  after_stop h uid now (s, stopped) =
      (delete_row (move_to_trash (record h { supervisor = s }) uid) uid now, deleted)

  unfoldable pub delete_endpoint :
      Host U T H I → U → Killing → (T → Probe) → ℕ → Host U T H I × Deleting
  unfolding after_stop delete_row
  delete_endpoint h uid k probe now = elim (get_universe dec h.registry uid) [
    | none ↦ (h, universe_not_found)
    | some u ↦
        if not (has dec uid h.dirs)
        then (delete_row h uid now, deleted)
        else after_stop h uid now (stop_backend dec no_token h.supervisor uid k probe)
  ]

-- The end of `route`: the answer by the readiness that was seen last.
unfoldable pub conclude : {T : Type 0} → T → Readiness → Routing T
conclude token failed = startup_failed
conclude token starting = routed token true
conclude token semantic_ready = routed token false
conclude token hybrid_ready = routed token false
conclude token legacy = routed token false
conclude token transient = routed token false

-- An exception of `ensure_backend` or of the recycle as an answer.
unfoldable pub ensured_or : {T : Type 0} → (T → Routing T) → Ensured T → Routing T
ensured_or k (serving t) = k t
ensured_or k universe_inactive = not_available
ensured_or k tuning_env_error = invalid_tuning_env
ensured_or k not_ready = spawn_timeout

-- After the recycle: `token` is the one from before it.
unfoldable pub after_recycle : {T : Type 0} → T → List Readiness → Recycled T → Routing T
unfolding conclude ensured_or await_backend_readiness
after_recycle token polls abandoned = startup_failed
after_recycle token polls (current t) = conclude t (await_backend_readiness polls)
after_recycle token polls (respawned e) =
    ensured_or (λ t. conclude t (await_backend_readiness polls)) e

module _ {U T H I P : Type 0} (dec : Discrete U) (same_token : Discrete T) (no_token : T)
    (same_hash : Discrete H) (hash_key : P → H) where
  -- `universe_dir.mkdir(parents=True, exist_ok=True)`
  unfoldable pub make_dir : Host U T H I → U → Host U T H I
  make_dir h uid = record h { dirs = add dec uid h.dirs }

  unfoldable pub route_recycle : Host U T H I → U → T → Visit T I → Host U T H I × Routing T
  unfolding make_dir after_recycle recycle_failed_backend
  route_recycle h uid token v =
      let h' : Host U T H I = make_dir h uid in
      let recycled : Supervisor U T × Recycled T =
        recycle_failed_backend dec same_token no_token h'.registry h'.supervisor uid v.recycling in
      (record h' { supervisor = recycled.0 }, after_recycle token v.polls_after_recycle recycled.1)

  -- A backend serves: wait for its engine, and recycle it once if that has failed.
  unfoldable pub route_serving : Host U T H I → U → T → Visit T I → Host U T H I × Routing T
  unfolding conclude route_recycle await_backend_readiness
  route_serving h uid token v =
      let readiness = await_backend_readiness v.polls in
      let again = route_recycle h uid token v in
      elim readiness [
        | failed ↦ again
        | semantic_ready ↦ (h, conclude token semantic_ready)
        | hybrid_ready ↦ (h, conclude token hybrid_ready)
        | starting ↦ (h, conclude token starting)
        | legacy ↦ (h, conclude token legacy)
        | transient ↦ (h, conclude token transient)
      ]

  unfoldable pub after_ensure :
      Host U T H I → U → Visit T I → Supervisor U T × Ensured T → Host U T H I × Routing T
  unfolding route_serving
  after_ensure h uid v (s, serving t) = route_serving (record h { supervisor = s }) uid t v
  after_ensure h uid v (s, universe_inactive) = (record h { supervisor = s }, not_available)
  after_ensure h uid v (s, tuning_env_error) = (record h { supervisor = s }, invalid_tuning_env)
  after_ensure h uid v (s, not_ready) = (record h { supervisor = s }, spawn_timeout)

  -- `ensure_backend` and what follows.
  unfoldable pub route_backend : Host U T H I → U → Visit T I → Host U T H I × Routing T
  unfolding make_dir after_ensure
  route_backend h uid v =
      let h' : Host U T H I = make_dir h uid in
      after_ensure h' uid v
        (ensure_locked dec same_token no_token h'.registry h'.supervisor uid v.meeting)

  unfoldable pub after_embedder :
      Host U T H I → U → Visit T I → Embedder I × EmbedderAnswer I → Host U T H I × Routing T
  unfolding route_backend
  after_embedder h uid v (e, up info) = route_backend (record h { embedder = e }) uid v
  after_embedder h uid v (e, validation_error) = (record h { embedder = e }, embedder_down)
  after_embedder h uid v (e, os_error) = (record h { embedder = e }, embedder_error)

  -- `route` once the key has resolved.
  unfoldable pub route_universe : Host U T H I → U → Visit T I → Host U T H I × Routing T
  unfolding after_embedder ensure_embedder_up
  route_universe h uid v =
      if not (is_active_row (get_universe dec h.registry uid))
      then (h, not_available)
      else after_embedder h uid v (ensure_embedder_up h.embedder (validated v.calling))

  unfoldable pub route : Host U T H I → P → Visit T I → Host U T H I × Routing T
  unfolding route_universe
  route h api_key v = elim (verify_api_key dec same_hash hash_key h.registry api_key) [
    | none ↦ (h, unauthorized)
    | some uid ↦ route_universe h uid v
  ]
