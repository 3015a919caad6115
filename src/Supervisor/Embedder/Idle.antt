-- ===== src/Supervisor/Embedder/Idle.antt =====
-- When the owned embedder is stopped, and what is known of the backends then.
use ga_ottt.Base.{
  ℕ, ◌≤◌, ◌-◌, ◌≡◌, ◌≢◌, ◌⊎◌, ◌∙◌, refl, inl, inr, Bool, true, false, Option, none, some, List, [],
  ◌∷◌, arith, if◌then◌else◌, or_else, Option-cases,
}
use ga_ottt.Dict.{Dict, lookup, erase, has, keys}
use ga_ottt.Dict.Laws.{Distinct, has-keys, lookup-erase}
use ga_ottt.Registry.{Universe, is_active, find_universe}
use ga_ottt.Supervisor.{
  Supervisor, Probe, is_ok, signalled, process_lookup_error, Wait, process_alive,
}
use ga_ottt.Supervisor.Embedder.{
  Embedder, EmbedderState, unowned, owned_idle, owned_terminating, reset_embedder_state,
}
use ga_ottt.Supervisor.Embedder.Watch.{
  Terminating, Round, Watching, watching, ended, wait_for_pid_exit, terminate_hard, terminate_pid,
  terminate_owned, terminate_embedder, dead_entries, pop_all, reap_dead_backend_pids,
  has_tracked_live_backends, has_untracked_live_backends, all_idle, watchdog_round,
}

-- No process was known, or it was seen to be gone after the signals that could be sent.
abbrev pub SeenGone : Option ℕ → Terminating → Type 0
SeenGone pid t =
    (pid ≡ none)
    ⊎ (t.term ≡ process_lookup_error)
    ⊎ ((t.term ≡ signalled) × (wait_for_pid_exit t.polls_after_term ≡ true))
    ⊎ ((t.term ≡ signalled) × (t.kill ≡ process_lookup_error))
    ⊎ ((t.term ≡ signalled) × (t.kill ≡ signalled) × (wait_for_pid_exit t.polls_after_kill ≡ true))

module _ {I : Type 0} where
  -- `_terminate_embedder` changes nothing unless the embedder is owned and idle; then it resets the
  -- state exactly when no process was known or the process was seen to be gone after a signal that
  -- could be sent, and otherwise stays in `owned_terminating` with the process kept.
  pub terminate_embedder_cases :
      (e : Embedder I) (t : Terminating)
      → ((e.embedder_state ≢ owned_idle) × (terminate_embedder e t ≡ e))
        ⊎ ((e.embedder_state ≡ owned_idle)
            × SeenGone e.embedder_pid t
            × (terminate_embedder e t ≡ reset_embedder_state e))
        ⊎ ((e.embedder_state ≡ owned_idle)
            × (¬ SeenGone e.embedder_pid t)
            × (terminate_embedder e t ≡ record e { embedder_state = owned_terminating }))
  unfolding terminate_embedder terminate_owned terminate_pid terminate_hard reset_embedder_state
  terminate_embedder_cases e t = ground arith

module _ {U : Type 0} (dec : Discrete U) where
  lookup-pop_all :
      {T : Type 0} (no_token : T) (j : U) (dead : List U) (pids : Dict U ℕ)
      → lookup dec j (pop_all dec no_token dead pids)
        ≡ (if has dec j dead then none else lookup dec j pids)
  unfolding pop_all has
  lookup-pop_all no_token j [] pids = refl
  lookup-pop_all no_token j (uid ∷ dead) pids =
      ground
        (arith, lookup-pop_all no_token j dead (erase dec uid pids), lookup-erase dec uid j pids)

  has-dead_entries :
      {T : Type 0} (no_token : T) (reap : ℕ → Wait) (j : U) (pids : Dict U ℕ)
      → has dec j (keys pids) ≡ false
      → has dec j (dead_entries dec no_token reap pids) ≡ false
  unfolding has dead_entries
  has-dead_entries no_token reap j [] absent = refl
  has-dead_entries no_token reap j ((uid, pid) ∷ pids) absent =
      ground (arith, has-dead_entries no_token reap j pids)

  -- The process that is still tracked after the reaping.
  abbrev pub reaped : (ℕ → Wait) → Option ℕ → Option ℕ
  reaped reap none = none
  reaped reap (some pid) = if process_alive (reap pid) then some pid else none

  has-dead-lookup :
      {T : Type 0} (no_token : T) (reap : ℕ → Wait) (j : U) (pids : Dict U ℕ)
      → Distinct dec (keys pids)
      → (if has dec j (dead_entries dec no_token reap pids) then none else lookup dec j pids)
        ≡ reaped reap (lookup dec j pids)
  unfolding has dead_entries lookup
  has-dead-lookup no_token reap j [] distinct = refl
  has-dead-lookup no_token reap j ((uid, pid) ∷ pids) distinct = ground (
    arith,
    has-dead-lookup no_token reap j pids distinct.1,
    has-dead_entries no_token reap j pids,
    has-keys dec j pids,
  )

  reap_dead_backend_pids_lem :
      {T : Type 0} (no_token : T) (s : Supervisor U T) (reap : ℕ → Wait) (j : U)
      → Distinct dec (keys s.backend_pids)
      → lookup dec j (reap_dead_backend_pids dec no_token s reap).backend_pids
        ≡ reaped reap (lookup dec j s.backend_pids)
  unfolding reap_dead_backend_pids
  reap_dead_backend_pids_lem no_token s reap j distinct =
      lookup-pop_all no_token j (dead_entries dec no_token reap s.backend_pids) s.backend_pids
      ∙ has-dead-lookup no_token reap j s.backend_pids distinct

  tracked_dead :
      {T : Type 0} (no_token : T) (wait : ℕ → Wait) (j : U) (pid : ℕ) (pids : Dict U ℕ)
      → has_tracked_live_backends dec no_token wait pids ≡ false
      → lookup dec j pids ≡ some pid
      → process_alive (wait pid) ≡ false
  unfolding has_tracked_live_backends lookup
  tracked_dead no_token wait j pid [] none_live found = ground arith
  tracked_dead no_token wait j pid ((uid, p) ∷ pids) none_live found =
      ground (arith, tracked_dead no_token wait j pid pids)

  untracked_silent :
      {T : Type 0} (no_token : T) (j : U) (u : Universe U) (us : List (Universe U))
      (s : Supervisor U T) (probe : ℕ → T → Probe)
      → has_untracked_live_backends dec no_token us s probe ≡ false
      → find_universe dec j us ≡ some u
      → lookup dec j s.backend_pids ≡ none
      → (is_active u.status ≡ false)
        ⊎ (is_ok (probe u.port (or_else (lookup dec j s.token_files) no_token)) ≡ false)
  unfolding has_untracked_live_backends find_universe
  untracked_silent no_token j u [] s probe none_live found untracked = ground arith
  untracked_silent no_token j u (v ∷ us) s probe none_live found untracked =
      ground (arith, untracked_silent no_token j u us s probe, has-keys dec j s.backend_pids)

module _ {U T : Type 0} (dec : Discrete U) (no_token : T) where
  -- Nothing serves the universe: its process has exited, or it has none that is tracked, and it is
  -- not active or its port does not answer with its token.
  abbrev pub Unserved : Supervisor U T → Round T → U → Universe U → Type 0
  Unserved s r uid u =
      ((pid : ℕ) × (lookup dec uid s.backend_pids ≡ some pid)
        × (process_alive (r.wait pid) ≡ false))
      ⊎ ((lookup dec uid s.backend_pids ≡ none)
          × ((is_active u.status ≡ false)
              ⊎ (is_ok (r.probe u.port (or_else (lookup dec uid s.token_files) no_token)) ≡ false)))

  all_idle-Unserved :
      {I : Type 0} (timeout : ℕ) (us : List (Universe U)) (s : Supervisor U T) (e : Embedder I)
      (r : Round T) (uid : U) (u : Universe U)
      → find_universe dec uid us ≡ some u
      → all_idle dec no_token timeout us s e r ≡ true
      → (timeout ≤ r.now - e.last_backend_active_at) × Unserved s r uid u
  unfolding all_idle
  all_idle-Unserved timeout us s e r uid u found idle = (
    ground arith,
    elim (Option-cases (lookup dec uid s.backend_pids)) [
      | inl none_here ↦ inr (
        none_here,
        untracked_silent dec no_token uid u us s r.probe (ground arith) found none_here,
      )
      | inr (pid, tracked) ↦ inl (
        pid,
        tracked,
        tracked_dead dec no_token r.wait uid pid s.backend_pids (ground arith) tracked,
      )
    ],
  )

  -- What a round of the watchdog may end in, for an embedder in the state `st`.
  abbrev pub RoundEnds :
      {I : Type 0}
      → ℕ
      → Supervisor U T
      → Embedder I
      → Round T
      → U
      → Universe U
      → EmbedderState
      → (Supervisor U T × Embedder I) × Watching
      → Type 0
  RoundEnds timeout s e r uid u st a =
      ((st ≢ owned_idle) × (a ≡ ((s, e), ended)))
      ⊎ ((s' : Supervisor U T) × (st ≡ owned_idle)
          × (s'.token_files ≡ s.token_files)
          × (lookup dec uid s'.backend_pids ≡ reaped dec r.reap (lookup dec uid s.backend_pids))
          × ((a ≡ ((s', e), watching))
              ⊎ ((a ≡ ((s', terminate_embedder e r.terminating), ended))
                  × (timeout ≤ r.now - e.last_backend_active_at)
                  × Unserved s' r uid u)))

  -- With no universe tracked twice, a round of the watchdog for an embedder that is not owned and
  -- idle changes nothing and ends; otherwise it forgets the process of a given universe exactly if
  -- it has exited, keeps the token files, and either leaves the embedder and comes again, or
  -- terminates the embedder, ends, and then the timeout has passed and the universe is not served:
  -- its process has exited, or it has none and is not active or does not answer with its token.
  pub watchdog_round_cases :
      {I : Type 0} (timeout : ℕ) (us : List (Universe U)) (s : Supervisor U T) (e : Embedder I)
      (r : Round T) (uid : U) (u : Universe U)
      → Distinct dec (keys s.backend_pids)
      → find_universe dec uid us ≡ some u
      → RoundEnds timeout s e r uid u e.embedder_state
          (watchdog_round dec no_token timeout us s e r)
  unfolding watchdog_round reap_dead_backend_pids
  watchdog_round_cases timeout us s e r uid u distinct found = by_state e.embedder_state
    where
      s' : Supervisor U T
      s' = reap_dead_backend_pids dec no_token s r.reap

      ends :
          (b : Bool)
          → all_idle dec no_token timeout us s' e r ≡ b
          → lookup dec uid s'.backend_pids ≡ reaped dec r.reap (lookup dec uid s.backend_pids)
          → RoundEnds timeout s e r uid u owned_idle
              (if b then ((s', terminate_embedder e r.terminating), ended) else ((s', e), watching))
      ends true q row =
          let (late, unserved) = all_idle-Unserved timeout us s' e r uid u found q in
          inr (s', refl, refl, row, inr (refl, late, unserved))
      ends false q row = inr (s', refl, refl, row, inl refl)

      by_state :
          (st : EmbedderState)
          → RoundEnds timeout s e r uid u st (elim st [
            | unowned ↦ ((s, e), ended)
            | owned_terminating ↦ ((s, e), ended)
            | owned_idle ↦
                if all_idle dec no_token timeout us s' e r
                then ((s', terminate_embedder e r.terminating), ended)
                else ((s', e), watching)
          ])
      by_state unowned = inl (ground arith, refl)
      by_state owned_terminating = inl (ground arith, refl)
      by_state owned_idle =
          ends (all_idle dec no_token timeout us s' e r) refl
            (reap_dead_backend_pids_lem dec no_token s r.reap uid distinct)
