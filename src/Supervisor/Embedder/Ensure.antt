-- ===== src/Supervisor/Embedder/Ensure.antt =====
-- What `ensure_embedder_up` owns, starts and answers.
use ga_ottt.Base.{
  ◌≡◌, ◌≢◌, ◌⊎◌, refl, ap, inl, inr, Bool, true, false, ◌&&◌, Option, none, some, arith,
  if◌then◌else◌, not, is_some, Option-cases,
}
use ga_ottt.Supervisor.Embedder.{
  EmbedderState, unowned, owned_idle, owned_terminating, Embedder, Calling, Spawned, done,
  spawn_failed, kill_refused, EmbedderAnswer, up, validation_error, child_alive,
  reset_embedder_state, disown, spawn_embedder_owned, finish, after_spawn, lazy_spawn, from_cache,
  without_cache, ensure_in_lock, ensure_embedder_up,
}
use ga_ottt.Supervisor.Embedder.Ownership.{
  IsOwned, StartedBy, IsSound, Spawns, spawn_embedder_owned-Spawns, finish-IsSound,
}

module _ {I : Type 0} where
  after_spawn-IsSound :
      (e0 : Embedder I) (c : Calling I) (a : Embedder I × Spawned)
      → StartedBy e0 c a.0
      → Spawns e0 c.spawning a
      → IsSound e0 c (after_spawn c a)
  unfolding after_spawn
  after_spawn-IsSound e0 c (e, spawn_failed) started (owned, _, state) = (owned, started, tt)
  after_spawn-IsSound e0 c (e, kill_refused) started (owned, _, state) = (owned, started, tt)
  after_spawn-IsSound e0 c (e, done) started (owned, _, state) = go e.embedder_state refl
    where
      lost :
          (b : Bool)
          → c.health_after_race ≡ b
          → IsSound e0 c (
              if b then finish (record e { embedder_state = unowned }) c else (e, validation_error))
      lost true q =
          finish-IsSound e0 (record e { embedder_state = unowned }) c tt started
            (inr (inr (inr (inr q))))
      lost false q = (owned, started, tt)

      go : (st : EmbedderState) → e.embedder_state ≡ st → IsSound e0 c (after_spawn c (e, done))
      go unowned q = rw (after_spawn, q) (lost c.health_after_race refl)
      go owned_terminating q = rw (after_spawn, q) (lost c.health_after_race refl)
      go owned_idle q = rw (after_spawn, q) (finish-IsSound e0 e c owned started (ground arith))

  lazy_spawn-IsSound :
      (e0 e : Embedder I) (c : Calling I)
      → IsOwned e
      → e.started ≡ e0.started
      → c.endpoint_set ≡ true
      → IsSound e0 c (lazy_spawn e c)
  unfolding lazy_spawn disown
  lazy_spawn-IsSound e0 e c owned same there = answers c.health_lazy refl
    where
      allowed :
          (b : Bool)
          → c.may_spawn ≡ b
          → c.health_lazy ≡ false
          → IsSound e0 c (
              if b
              then after_spawn c (spawn_embedder_owned e c.spawning)
              else (e, validation_error))
      allowed false q silent = (owned, inl same, tt)
      allowed true q silent =
          let spawns = spawn_embedder_owned-Spawns e0 e c.spawning owned same in
          after_spawn-IsSound e0 c (spawn_embedder_owned e c.spawning) (ground arith) spawns

      answers :
          (b : Bool)
          → c.health_lazy ≡ b
          → IsSound e0 c (
              if b
              then finish (disown e) c
              else if c.may_spawn
              then after_spawn c (spawn_embedder_owned e c.spawning)
              else (e, validation_error))
      answers true q = finish-IsSound e0 (disown e) c tt (inl same) (inr (inr (inl q)))
      answers false q = allowed c.may_spawn refl q

  either :
      (e : Embedder I) (c : Calling I) (b : Bool) (x y : Embedder I × EmbedderAnswer I)
      → IsSound e c x
      → IsSound e c y
      → IsSound e c (if b then x else y)
  either e c true x y p q = p
  either e c false x y p q = q

  from_cache-IsSound :
      (e : Embedder I) (c : Calling I)
      → IsOwned e
      → c.endpoint_set ≡ true
      → IsSound e c (from_cache e c)
  unfolding from_cache reset_embedder_state
  from_cache-IsSound e c owned there = elim (Option-cases e.embedder_info_cache) [
    | inl q ↦ rw (from_cache, q) (lazy_spawn-IsSound e e c owned refl there)
    | inr (i, q) ↦ rw (from_cache, q) (by_state i e.embedder_state refl)
  ]
    where
      fresh :
          (b : Bool) (i : I) (e' : Embedder I)
          → c.health_fresh ≡ b
          → IsOwned e'
          → e'.started ≡ e.started
          → IsSound e c (if b then (e, up (some i)) else lazy_spawn e' c)
      fresh true i e' q o same = (owned, inl refl, (inr refl, inr (inl q)))
      fresh false i e' q o same = lazy_spawn-IsSound e e' c o same there

      known :
          (b : Bool) (i : I)
          → IsSound e c (
              if b && c.health_fresh
              then (e, up (some i))
              else lazy_spawn (reset_embedder_state e) c)
      known true i = fresh c.health_fresh i (reset_embedder_state e) refl tt refl
      known false i = lazy_spawn-IsSound e (reset_embedder_state e) c tt refl there

      by_state :
          (i : I) (st : EmbedderState)
          → e.embedder_state ≡ st
          → IsSound e c (elim st [
            | owned_idle ↦
                if child_alive c.child e.embedder_pid && c.health_fresh
                then (e, up (some i))
                else lazy_spawn (reset_embedder_state e) c
            | unowned ↦
                if c.health_fresh
                then (e, up (some i))
                else lazy_spawn (record e { embedder_info_cache = none }) c
            | owned_terminating ↦ lazy_spawn e c
          ])
      by_state i owned_idle q = known (child_alive c.child e.embedder_pid) i
      by_state i unowned q =
          fresh c.health_fresh i (record e { embedder_info_cache = none }) refl owned refl
      by_state i owned_terminating q = lazy_spawn-IsSound e e c owned refl there

  without_cache-IsSound :
      (e : Embedder I) (c : Calling I)
      → IsOwned e
      → c.endpoint_set ≡ true
      → IsSound e c (without_cache e c)
  unfolding without_cache
  without_cache-IsSound e c owned there = by_info c.info_first refl
    where
      kept :
          (i : I) (st : EmbedderState)
          → e.embedder_state ≡ st
          → is_some c.info_first ≡ true
          → IsSound e c (elim st [
            | unowned ↦ (record e { embedder_info_cache = some i }, up (some i))
            | owned_idle ↦ from_cache e c
            | owned_terminating ↦ (e, up (some i))
          ])
      kept i unowned q given = (owned, inl refl, (inr refl, inl given))
      kept i owned_idle q given = from_cache-IsSound e c owned there
      kept i owned_terminating q given = (owned, inl refl, (inr refl, inl given))

      by_info :
          (o : Option I)
          → c.info_first ≡ o
          → IsSound e c (elim o [
            | none ↦ if not c.may_spawn then (e, validation_error) else from_cache e c
            | some i ↦ elim e.embedder_state [
              | unowned ↦ (record e { embedder_info_cache = some i }, up (some i))
              | owned_idle ↦ from_cache e c
              | owned_terminating ↦ (e, up (some i))
            ]
          ])
      by_info none q =
          either e c (not c.may_spawn) (e, validation_error) (from_cache e c) (owned, inl refl, tt)
            (from_cache-IsSound e c owned there)
      by_info (some i) q = kept i e.embedder_state refl (ap is_some q)

  -- The answer of a call in the state `st`: refused at once, or worked out.
  abbrev pub RefusedOrSound :
      Embedder I → Calling I → EmbedderState → Embedder I × EmbedderAnswer I → Type 0
  RefusedOrSound e c st a =
      (((st ≡ owned_terminating) ⊎ (c.endpoint_set ≡ false)) × (a ≡ (e, validation_error)))
      ⊎ ((st ≢ owned_terminating) × (c.endpoint_set ≡ true) × IsSound e c a)

  ensure_in_lock-IsSound :
      (e : Embedder I) (c : Calling I)
      → IsOwned e
      → ((c.endpoint_set ≡ false) × (ensure_in_lock e c ≡ (e, validation_error)))
        ⊎ ((c.endpoint_set ≡ true) × IsSound e c (ensure_in_lock e c))
  unfolding ensure_in_lock
  ensure_in_lock-IsSound e c owned = by_endpoint c.endpoint_set refl
    where
      locked : Bool → Embedder I × EmbedderAnswer I
      locked b =
          if not b
          then (e, validation_error)
          else elim e.embedder_info_cache [ none ↦ without_cache e c | some i ↦ from_cache e c ]

      by_cache :
          c.endpoint_set ≡ true
          → (o : Option I)
          → IsSound e c (elim o [ none ↦ without_cache e c | some i ↦ from_cache e c ])
      by_cache there none = without_cache-IsSound e c owned there
      by_cache there (some i) = from_cache-IsSound e c owned there

      by_endpoint :
          (b : Bool)
          → c.endpoint_set ≡ b
          → ((c.endpoint_set ≡ false) × (locked b ≡ (e, validation_error)))
            ⊎ ((c.endpoint_set ≡ true) × IsSound e c (locked b))
      by_endpoint false q = inl (q, refl)
      by_endpoint true q = inr (q, by_cache q e.embedder_info_cache)

  -- When an owned embedder has a process that was started, and a watchdog while it is idle,
  -- `ensure_embedder_up` either refuses and changes nothing, the state being `owned_terminating` or
  -- no endpoint set; or the endpoint is set and the state another, the same invariant holds
  -- afterwards, at most one process was started, and only if that is allowed and no probe found a
  -- service, and an answer was vouched for by a probe or by `/info`, with an info when one is asked
  -- for.
  pub ensure_embedder_up_cases :
      (e : Embedder I) (c : Calling I)
      → IsOwned e
      → RefusedOrSound e c e.embedder_state (ensure_embedder_up e c)
  unfolding ensure_embedder_up
  ensure_embedder_up_cases e c owned = by_state e.embedder_state
    where
      by_state :
          (st : EmbedderState)
          → RefusedOrSound e c st (elim st [
            | owned_terminating ↦ (e, validation_error)
            | unowned ↦ ensure_in_lock e c
            | owned_idle ↦ ensure_in_lock e c
          ])
      by_state owned_terminating = inl (inl refl, refl)
      by_state unowned = elim (ensure_in_lock-IsSound e c owned) [
        | inl (q, refused) ↦ inl (inr q, refused)
        | inr (q, sound) ↦ inr (ground arith, q, sound)
      ]
      by_state owned_idle = elim (ensure_in_lock-IsSound e c owned) [
        | inl (q, refused) ↦ inl (inr q, refused)
        | inr (q, sound) ↦ inr (ground arith, q, sound)
      ]
