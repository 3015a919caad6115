-- ===== src/Supervisor/Embedder/Watch.antt =====
-- `_terminate_embedder` and `_embedder_idle_watchdog`: when the owned embedder is stopped. Each
-- question of a round that asks the outside has its own argument.
use ga_ottt.Base.{
  ℕ, ◌-◌, Bool, false, ◌&&◌, ◌||◌, none, some, List, [], ◌∷◌, if◌then◌else◌, not, leb, or_else,
}
use ga_ottt.Dict.{Dict, lookup, erase, has, keys}
use ga_ottt.Registry.{Universe, is_active}
use ga_ottt.Supervisor.{
  Supervisor, Probe, is_ok, Kill, signalled, process_lookup_error, permission_error, Wait,
  process_alive, any,
}
use ga_ottt.Supervisor.Embedder.{
  Embedder, unowned, owned_idle, owned_terminating, reset_embedder_state,
}

-- What `_terminate_embedder` meets.
pub record Terminating : Type 0 where
  pub term : Kill
  pub polls_after_term : List Wait
  pub kill : Kill
  pub polls_after_kill : List Wait

-- What one round of the watchdog meets.
pub record Round (T : Type 0) : Type 0 where
  pub now : ℕ
  pub reap : ℕ → Wait
  pub wait : ℕ → Wait
  pub probe : ℕ → T → Probe
  pub terminating : Terminating

-- A round sleeps and comes again, or it is the last one.
pub data Watching : Type 0 where
  watching ended : Watching

unfoldable pub wait_for_pid_exit : List Wait → Bool
unfolding any
wait_for_pid_exit polls = any (λ w. not (process_alive w)) polls

module _ {I : Type 0} where
  -- From SIGKILL on, `terminating` being the state that is kept if it fails.
  unfoldable pub terminate_hard : Embedder I → Terminating → Embedder I
  unfolding wait_for_pid_exit reset_embedder_state
  terminate_hard e t = elim t.kill [
    | process_lookup_error ↦ reset_embedder_state e
    | permission_error ↦ e
    | signalled ↦ if wait_for_pid_exit t.polls_after_kill then reset_embedder_state e else e
  ]

  unfoldable pub terminate_pid : Embedder I → Terminating → Embedder I
  unfolding terminate_hard
  terminate_pid e t = elim t.term [
    | process_lookup_error ↦ reset_embedder_state e
    | permission_error ↦ e
    | signalled ↦
        if wait_for_pid_exit t.polls_after_term then reset_embedder_state e else terminate_hard e t
  ]

  unfoldable pub terminate_owned : Embedder I → Terminating → Embedder I
  unfolding terminate_pid
  terminate_owned e t = elim e.embedder_pid [
    | none ↦ reset_embedder_state e
    | some pid ↦ terminate_pid (record e { embedder_state = owned_terminating }) t
  ]

  unfoldable pub terminate_embedder : Embedder I → Terminating → Embedder I
  unfolding terminate_owned
  terminate_embedder e t = elim e.embedder_state [
    | owned_idle ↦ terminate_owned e t
    | unowned ↦ e
    | owned_terminating ↦ e
  ]

module _ {U T : Type 0} (dec : Discrete U) (no_token : T) where
  -- The entries whose process has exited, in the order of the dictionary.
  unfoldable pub dead_entries : (ℕ → Wait) → Dict U ℕ → List U
  dead_entries reap [] = []
  dead_entries reap ((uid, pid) ∷ pids) =
      if process_alive (reap pid) then dead_entries reap pids else uid ∷ dead_entries reap pids

  unfoldable pub pop_all : List U → Dict U ℕ → Dict U ℕ
  pop_all [] pids = pids
  pop_all (uid ∷ dead) pids = pop_all dead (erase dec uid pids)

  unfoldable pub reap_dead_backend_pids : Supervisor U T → (ℕ → Wait) → Supervisor U T
  unfolding pop_all dead_entries
  reap_dead_backend_pids s reap = record s {
    backend_pids = pop_all (dead_entries reap s.backend_pids) s.backend_pids;
  }

  unfoldable pub has_tracked_live_backends : (ℕ → Wait) → Dict U ℕ → Bool
  has_tracked_live_backends wait [] = false
  has_tracked_live_backends wait ((uid, pid) ∷ pids) =
      process_alive (wait pid) || has_tracked_live_backends wait pids

  unfoldable pub has_untracked_live_backends :
      List (Universe U) → Supervisor U T → (ℕ → T → Probe) → Bool
  has_untracked_live_backends [] s probe = false
  has_untracked_live_backends (u ∷ us) s probe =
      (is_active u.status
        && not (has dec u.universe_id (keys s.backend_pids))
        && is_ok (probe u.port (or_else (lookup dec u.universe_id s.token_files) no_token)))
      || has_untracked_live_backends us s probe

  -- Is nothing left that needs the embedder, after the reaping?
  unfoldable pub all_idle :
      {I : Type 0} → ℕ → List (Universe U) → Supervisor U T → Embedder I → Round T → Bool
  unfolding has_tracked_live_backends has_untracked_live_backends
  all_idle timeout us s e r =
      leb timeout (r.now - e.last_backend_active_at)
      && not (has_tracked_live_backends r.wait s.backend_pids)
      && not (has_untracked_live_backends us s r.probe)

  unfoldable pub watchdog_round :
      {I : Type 0}
      → ℕ
      → List (Universe U)
      → Supervisor U T
      → Embedder I
      → Round T
      → (Supervisor U T × Embedder I) × Watching
  unfolding all_idle reap_dead_backend_pids terminate_embedder
  watchdog_round timeout us s e r = elim e.embedder_state [
    | unowned ↦ ((s, e), ended)
    | owned_terminating ↦ ((s, e), ended)
    | owned_idle ↦
        let s' : Supervisor U T = reap_dead_backend_pids s r.reap in
        if all_idle timeout us s' e r
        then ((s', terminate_embedder e r.terminating), ended)
        else ((s', e), watching)
  ]
