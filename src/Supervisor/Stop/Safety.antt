-- ===== src/Supervisor/Stop/Safety.antt =====
-- When a stop succeeds, and that it touches no other universe.
use ga_ottt.Base.{◌≡◌, ◌≢◌, ◌⊎◌, inl, inr, true, none, arith, or_else, Option-cases}
use ga_ottt.Dict.{lookup}
use ga_ottt.Dict.Laws.{erase_absent}
use ga_ottt.Supervisor.{
  Supervisor, Probe, probe_down, signalled, process_lookup_error, permission_error,
}
use ga_ottt.Supervisor.Stop.{
  Killing, stopped, conflict, poll_process_dead, kill_tracked_backend, stop_backend, forget_pid,
}

-- The supervisor has seen that the process is gone: there was none for SIGTERM, or a wait after the
-- last signal that could be sent met its end.
abbrev pub SeenGone : Killing → Type 0
SeenGone k =
    (k.term ≡ process_lookup_error)
    ⊎ ((k.term ≡ signalled) × (poll_process_dead k.polls_after_term k.last_after_term ≡ true))
    ⊎ ((k.term ≡ signalled)
        × (k.kill ≢ permission_error)
        × (poll_process_dead k.polls_after_kill k.last_after_kill ≡ true))

module _ {U T : Type 0} (dec : Discrete U) (no_token : T) where
  -- Nothing listens, or the tracked process was seen to end.
  abbrev pub IsSafe : Supervisor U T → U → Killing → (T → Probe) → Type 0
  IsSafe s uid k probe =
      ((lookup dec uid s.backend_pids ≢ none) × SeenGone k)
      ⊎ ((lookup dec uid s.backend_pids ≡ none)
          × (probe (or_else (lookup dec uid s.token_files) no_token) ≡ probe_down))

  kill_tracked_backend_cases :
      (s : Supervisor U T) (uid : U) (k : Killing)
      → ((kill_tracked_backend dec s uid k ≡ (forget_pid dec s uid, stopped)) × SeenGone k)
        ⊎ ((kill_tracked_backend dec s uid k ≡ (s, conflict)) × (¬ SeenGone k))
  unfolding kill_tracked_backend
  kill_tracked_backend_cases s uid k = ground arith

  -- `_stop_backend` returns, having forgotten the universe's process, exactly when the tracked
  -- process was seen to be gone, or there was none and nothing listened at the port; otherwise it
  -- raises the conflict and changes nothing.
  pub stop_backend_cases :
      (s : Supervisor U T) (uid : U) (k : Killing) (probe : T → Probe)
      → ((stop_backend dec no_token s uid k probe ≡ (forget_pid dec s uid, stopped))
          × IsSafe s uid k probe)
        ⊎ ((stop_backend dec no_token s uid k probe ≡ (s, conflict)) × (¬ IsSafe s uid k probe))
  unfolding stop_backend
  stop_backend_cases s uid k probe = elim (Option-cases (lookup dec uid s.backend_pids)) [
    | inl e ↦ rw (e, stop_backend) (ground (arith, erase_absent dec uid s.backend_pids e))
    | inr (pid, e) ↦ rw (e, stop_backend) (ground (arith, kill_tracked_backend_cases s uid k))
  ]
