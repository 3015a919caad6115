-- ===== src/Supervisor/Embedder/Ownership.antt =====
-- What a start of the embedder owns: the invariant on its state, and the spawn.
use ga_ottt.Base.{
  ℕ, ◌≡◌, ◌⊎◌, refl, ap, inl, inr, Bool, true, false, Option, some, List, ◌∷◌, arith, is_some,
  ℕ_discrete, Bool-cases, Option-cases,
}
use ga_ottt.Dict.{has}
use ga_ottt.Supervisor.Embedder.{
  EmbedderState, unowned, owned_idle, owned_terminating, Embedder, Spawning, Calling, Spawned, done,
  spawn_failed, kill_refused, EmbedderAnswer, up, validation_error, os_error, disown, own, launched,
  handle_spawn_readiness_failure, launch, spawn_embedder_owned, finish,
}

-- The process of an owned embedder is known, and one that was started.
abbrev pub Known : Option ℕ → List ℕ → Type 0
Known p started = (pid : ℕ) × (p ≡ some pid) × (has ℕ_discrete pid started ≡ true)

-- An owned embedder has a known process, and while it may run a watchdog.
abbrev pub Held : EmbedderState → Option ℕ → Bool → List ℕ → Type 0
Held unowned p watchdog started = Unit {0}
Held owned_idle p watchdog started = (watchdog ≡ true) × Known p started
Held owned_terminating p watchdog started = Known p started

abbrev pub IsOwned : {I : Type 0} → Embedder I → Type 0
IsOwned e = Held e.embedder_state e.embedder_pid e.watchdog e.started

Held-started :
    (st : EmbedderState) (p : Option ℕ) (w : Bool) (n : ℕ) (started : List ℕ)
    → Held st p w started
    → Held st p w (n ∷ started)
unfolding has
Held-started unowned p w n started owned = tt
Held-started owned_idle p w n started (e, (pid, known, there)) = (e, (pid, known, ground arith))
Held-started owned_terminating p w n started (pid, known, there) = (pid, known, ground arith)

module _ {I : Type 0} where
  -- At most one process is started, and only if that is allowed and nothing answered.
  abbrev pub StartedBy : Embedder I → Calling I → Embedder I → Type 0
  StartedBy e c e' =
      (e'.started ≡ e.started)
      ⊎ ((e'.started ≡ c.spawning.pid ∷ e.started)
          × (c.may_spawn ≡ true)
          × (c.endpoint_set ≡ true)
          × (c.health_lazy ≡ false)
          × (c.spawning.health_in_lock ≡ false))

  -- Something that serves has answered in this call.
  abbrev pub Answered : Calling I → Type 0
  Answered c =
      (is_some c.info_first ≡ true)
      ⊎ (c.health_fresh ≡ true)
      ⊎ (c.health_lazy ≡ true)
      ⊎ (c.spawning.health_after ≡ true)
      ⊎ (c.health_after_race ≡ true)

  -- A service that is said to be up has answered, with an `/info` where one is asked for.
  abbrev pub Vouched : Calling I → EmbedderAnswer I → Type 0
  Vouched c (up o) = ((c.validate_info ≡ false) ⊎ (is_some o ≡ true)) × Answered c
  Vouched c validation_error = Unit {0}
  Vouched c os_error = Unit {0}

  abbrev pub IsSound : Embedder I → Calling I → Embedder I × EmbedderAnswer I → Type 0
  IsSound e c (e', a) = IsOwned e' × StartedBy e c e' × Vouched c a

  launch_cases :
      (e : Embedder I) (sp : Spawning)
      → ((launch e sp).0 ≡ disown (launched e sp))
        ⊎ ((launch e sp ≡ (own (launched e sp) sp, done)) × (sp.health_after ≡ true))
        ⊎ (((launch e sp).0 ≡ launched e sp)
            × (((launch e sp).1 ≡ spawn_failed) ⊎ ((launch e sp).1 ≡ kill_refused)))
  unfolding launch handle_spawn_readiness_failure
  launch_cases e sp = ground arith

  -- What a spawn has done: a new process only if the port was still silent, and an embedder that is
  -- owned after it has just answered.
  abbrev pub Spawns : Embedder I → Spawning → Embedder I × Spawned → Type 0
  Spawns e sp (e', a) =
      IsOwned e'
      × ((e'.started ≡ e.started)
          ⊎ ((e'.started ≡ sp.pid ∷ e.started) × (sp.health_in_lock ≡ false)))
      × ((e'.embedder_state ≡ unowned)
          ⊎ (sp.health_after ≡ true)
          ⊎ (a ≡ spawn_failed)
          ⊎ (a ≡ kill_refused))

  pub spawn_embedder_owned-Spawns :
      (e0 e : Embedder I) (sp : Spawning)
      → IsOwned e
      → e.started ≡ e0.started
      → Spawns e0 sp (spawn_embedder_owned e sp)
  unfolding spawn_embedder_owned disown own has
  spawn_embedder_owned-Spawns e0 e sp owned same = elim (Bool-cases sp.health_in_lock) [
    | inl there ↦ rw (spawn_embedder_owned, there) (tt, inl same, inl refl)
    | inr silent ↦
        rw (spawn_embedder_owned, silent)
          (elim (launch_cases e sp) [
            | inl q ↦ rw q (tt, inr (one_more, refl), inl refl)
            | inr (inl (q, healthy)) ↦
                rw q ((refl, (sp.pid, refl, ground arith)), inr (one_more, refl), inr (inl healthy))
            | inr (inr (q, failed)) ↦ rw q (
              Held-started e.embedder_state e.embedder_pid e.watchdog sp.pid e.started owned,
              inr (one_more, refl),
              inr (inr failed),
            )
          ])
  ]
    where
      one_more : sp.pid ∷ e.started ≡ sp.pid ∷ e0.started
      one_more = ap (λ l. sp.pid ∷ l) same

  pub finish-IsSound :
      (e0 e : Embedder I) (c : Calling I)
      → IsOwned e
      → StartedBy e0 c e
      → Answered c
      → IsSound e0 c (finish e c)
  unfolding finish
  finish-IsSound e0 e c owned started answered = elim (Option-cases e.embedder_info_cache) [
    | inr (i, q) ↦ rw (finish, q) (owned, started, (inr refl, answered))
    | inl q ↦
        rw (finish, q)
          (elim (Bool-cases c.validate_info) [
            | inr unasked ↦ rw unasked (owned, started, (inl refl, answered))
            | inl asked ↦ rw asked (elim (Option-cases c.info_last) [
              | inl q' ↦ rw q' (owned, started, tt)
              | inr (i, q') ↦ rw q' (owned, started, (inr refl, answered))
            ])
          ])
  ]
