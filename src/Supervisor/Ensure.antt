-- ===== src/Supervisor/Ensure.antt =====
-- `_ensure_locked` and `ensure_backend`: a URL and a token for a universe, from the backend that runs
-- or from a new one. The URL is that of the universe's port.
pub mod Serving
use ga_ottt.Base.{
  ℕ, ◌+◌, Bool, true, false, Option, none, some, List, [], ◌∷◌, ◌&&◌, ite, if◌then◌else◌, not,
  or_else, is_some,
}
use ga_ottt.Dict.{Dict, lookup, insert, erase}
use ga_ottt.Registry.{Registry, Universe, is_active, find_universe}
use ga_ottt.Supervisor.{Supervisor, Probe, probe_ok, probe_unauthorized, probe_down, is_ok, any}

-- What one run of `_ensure_locked` meets: two fresh tokens, the answers of the port before and after
-- the token file is read again, what it then holds, the process that `_spawn` starts, or nothing if
-- the tuning environment is invalid, and the polls of the new backend.
pub record Meeting (T : Type 0) : Type 0 where
  pub first_token : T
  pub probe : T → Probe
  pub reread : Option T
  pub probe_again : T → Probe
  pub fresh : T
  pub process : Option ℕ
  pub ready_polls : List (T → Probe)

pub data Ensured (T : Type 0) : Type 0 where
  serving : T → Ensured T
  universe_inactive tuning_env_error not_ready : Ensured T

abbrev pub is_active_row : {U : Type 0} → Option (Universe U) → Bool
is_active_row none = false
is_active_row (some u) = is_active u.status

module _ {U T : Type 0} (dec : Discrete U) (same_token : Discrete T) (no_token : T) where
  unfoldable pub persist_token : Supervisor U T → U → T → Supervisor U T
  persist_token s uid token = record s { token_files = insert dec uid token s.token_files }

  -- `_spawn` with the fresh token, and the wait for its readiness.
  unfoldable pub respawn : Supervisor U T → U → Meeting T → Supervisor U T × Ensured T
  unfolding persist_token any
  respawn s uid m =
      let s' : Supervisor U T = persist_token s uid m.fresh in
      elim m.process [
        | none ↦ (s', tuning_env_error)
        | some pid ↦ (
          record s' { backend_pids = insert dec uid pid s'.backend_pids; spawned = s'.spawned + 1 },
          if any (λ probe. is_ok (probe m.fresh)) m.ready_polls then serving m.fresh else not_ready,
        )
      ]

  -- The file as it is found when it is read again: another process may have written it.
  unfoldable pub read_again : Supervisor U T → U → Option T → Supervisor U T
  unfolding persist_token
  read_again s uid none = record s { token_files = erase dec uid s.token_files }
  read_again s uid (some t) = persist_token s uid t

  -- The token that the file gives when it is read again, if it is another one that works.
  unfoldable pub rotated : T → Meeting T → Option T
  rotated token m = elim m.reread [
    | none ↦ none
    | some t ↦
        if ite (same_token t no_token) false true
          && ite (same_token t token) false true
          && is_ok (m.probe_again t)
        then some t
        else none
  ]

  -- The part of `_ensure_locked` from the first probe on.
  unfoldable pub probe_or_respawn : Supervisor U T → U → T → Meeting T → Supervisor U T × Ensured T
  unfolding respawn rotated read_again
  probe_or_respawn s uid token m = elim (m.probe token) [
    | probe_ok ↦ (s, serving token)
    | probe_unauthorized ↦ elim (rotated token m) [
      | some t ↦ (read_again s uid m.reread, serving t)
      | none ↦ respawn (read_again s uid m.reread) uid m
    ]
    | probe_down ↦ respawn s uid m
  ]

  unfoldable pub ensure_locked :
      {H : Type 0} → Registry U H → Supervisor U T → U → Meeting T → Supervisor U T × Ensured T
  unfolding probe_or_respawn
  ensure_locked r s uid m =
      if not (is_active_row (find_universe dec uid r.universes))
      then (s, universe_inactive)
      else elim (lookup dec uid s.token_files) [
        | some token ↦ probe_or_respawn s uid token m
        | none ↦ probe_or_respawn (persist_token s uid m.first_token) uid m.first_token m
      ]
