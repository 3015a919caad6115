-- ===== src/Supervisor/Stop.antt =====
-- `_poll_process_dead`, `_kill_tracked_backend` and `_stop_backend`: stopping a backend before its
-- directory moves.
pub mod Safety
use ga_ottt.Base.{
  ℕ, Bool, true, false, Option, none, some, List, [], ◌∷◌, ◌++◌, ◌||◌, if◌then◌else◌, not, or_else,
}
use ga_ottt.Dict.{Dict, lookup, erase}
use ga_ottt.Supervisor.{
  Supervisor, Probe, probe_ok, probe_unauthorized, probe_down, Kill, signalled,
  process_lookup_error, permission_error, Wait, any, process_alive,
}

-- What one attempt to kill a tracked backend meets.
pub record Killing : Type 0 where
  pub term : Kill
  pub polls_after_term : List Wait
  pub last_after_term : Wait
  pub kill : Kill
  pub polls_after_kill : List Wait
  pub last_after_kill : Wait

-- A call that returns, or raises `_BackendAliveConflict`.
pub data Stopping : Type 0 where
  stopped conflict : Stopping

unfoldable pub poll_process_dead : List Wait → Wait → Bool
unfolding any
poll_process_dead polls last = any (λ w. not (process_alive w)) polls || not (process_alive last)

module _ {U T : Type 0} (dec : Discrete U) where
  unfoldable pub forget_pid : Supervisor U T → U → Supervisor U T
  forget_pid s uid = record s { backend_pids = erase dec uid s.backend_pids }

  -- The second half of `_kill_tracked_backend`, from SIGKILL on.
  unfoldable pub escalate : Supervisor U T → U → Killing → Supervisor U T × Stopping
  unfolding forget_pid poll_process_dead
  escalate s uid k =
      let after : Supervisor U T × Stopping =
        if poll_process_dead k.polls_after_kill k.last_after_kill
        then (forget_pid s uid, stopped)
        else (s, conflict) in
      elim k.kill [
        | signalled ↦ after
        | process_lookup_error ↦ after
        | permission_error ↦ (s, conflict)
      ]

  unfoldable pub kill_tracked_backend : Supervisor U T → U → Killing → Supervisor U T × Stopping
  unfolding escalate
  kill_tracked_backend s uid k = elim k.term [
    | process_lookup_error ↦ (forget_pid s uid, stopped)
    | permission_error ↦ (s, conflict)
    | signalled ↦
        if poll_process_dead k.polls_after_term k.last_after_term
        then (forget_pid s uid, stopped)
        else escalate s uid k
  ]

  unfoldable pub stop_backend :
      T → Supervisor U T → U → Killing → (T → Probe) → Supervisor U T × Stopping
  unfolding kill_tracked_backend
  stop_backend no_token s uid k probe = elim (lookup dec uid s.backend_pids) [
    | some pid ↦ kill_tracked_backend s uid k
    | none ↦ elim (probe (or_else (lookup dec uid s.token_files) no_token)) [
      | probe_ok ↦ (s, conflict)
      | probe_unauthorized ↦ (s, conflict)
      | probe_down ↦ (s, stopped)
    ]
  ]
