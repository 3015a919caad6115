-- ===== src/Supervisor/Recycle.antt =====
-- `_await_backend_readiness`, and `recycle_failed_backend`: one stop and respawn of a backend whose
-- engine has failed for good.
use ga_ottt.Base.{Option, none, some, List, [], ◌∷◌, or_else}
use ga_ottt.Dict.{lookup}
use ga_ottt.Registry.{Registry}
use ga_ottt.Supervisor.{Supervisor, Probe}
use ga_ottt.Supervisor.Stop.{Killing, Stopping, stopped, conflict, stop_backend}
use ga_ottt.Supervisor.Ensure.{Meeting, Ensured, ensure_locked}

-- `_fetch_backend_readiness`: `transient` is its None, `starting` any state that is not final.
pub data Readiness : Type 0 where
  semantic_ready hybrid_ready failed starting legacy transient : Readiness

-- The states that end the wait: the rounds until the deadline may all be inconclusive.
unfoldable pub await_backend_readiness : List Readiness → Readiness
await_backend_readiness [] = starting
await_backend_readiness (r ∷ rs) =
    let rest = await_backend_readiness rs in
    elim r [
      | semantic_ready ↦ semantic_ready
      | hybrid_ready ↦ hybrid_ready
      | failed ↦ failed
      | legacy ↦ legacy
      | starting ↦ rest
      | transient ↦ rest
    ]

-- What a recycle meets: the second look at the readiness, or nothing where it fails.
pub record Recycling (T : Type 0) : Type 0 where
  pub recheck : Option Readiness
  pub killing : Killing
  pub stop_probe : T → Probe
  pub meeting : Meeting T

-- `None`, or the current token, or what the respawn gives or raises.
pub data Recycled (T : Type 0) : Type 0 where
  abandoned : Recycled T
  current : T → Recycled T
  respawned : Ensured T → Recycled T

module _ {U T : Type 0} (dec : Discrete U) (same_token : Discrete T) (no_token : T) where
  unfoldable pub respawn_if_stopped :
      {H : Type 0}
      → Registry U H
      → U
      → Recycling T
      → Supervisor U T × Stopping
      → Supervisor U T × Recycled T
  respawn_if_stopped r uid c (s, conflict) = (s, abandoned)
  respawn_if_stopped r uid c (s, stopped) =
      let ensured = ensure_locked dec same_token no_token r s uid c.meeting in
      (ensured.0, respawned ensured.1)

  unfoldable pub stop_and_respawn :
      {H : Type 0} → Registry U H → Supervisor U T → U → Recycling T → Supervisor U T × Recycled T
  unfolding respawn_if_stopped
  stop_and_respawn r s uid c =
      respawn_if_stopped r uid c (stop_backend dec no_token s uid c.killing c.stop_probe)

  unfoldable pub recycle_failed_backend :
      {H : Type 0} → Registry U H → Supervisor U T → U → Recycling T → Supervisor U T × Recycled T
  unfolding stop_and_respawn
  recycle_failed_backend r s uid c =
      let token_now = or_else (lookup dec uid s.token_files) no_token in
      elim c.recheck [
        | none ↦ (s, abandoned)
        | some readiness ↦ elim readiness [
          | legacy ↦ (s, abandoned)
          | failed ↦ stop_and_respawn r s uid c
          | semantic_ready ↦ (s, current token_now)
          | hybrid_ready ↦ (s, current token_now)
          | starting ↦ (s, current token_now)
          | transient ↦ (s, current token_now)
        ]
      ]
