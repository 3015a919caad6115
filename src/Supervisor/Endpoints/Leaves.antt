-- ===== src/Supervisor/Endpoints/Leaves.antt =====
-- What `POST /route` starts and leaves alone, from the mkdir of the universe's directory on.
use ga_ottt.Base.{ℕ, arith, [], ◌∷◌, ◌≡◌, ◌≢◌, refl, true, some, List}
use ga_ottt.Dict.{lookup, has, add}
use ga_ottt.Dict.Laws.{has-add}
use ga_ottt.Supervisor.{Supervisor}
use ga_ottt.Supervisor.Ensure.{
  Ensured, serving, universe_inactive, tuning_env_error, not_ready, ensure_locked,
}
use ga_ottt.Supervisor.Recycle.{
  Readiness, semantic_ready, hybrid_ready, failed, starting, legacy, transient,
  await_backend_readiness, Recycled, abandoned, current, respawned, recycle_failed_backend,
}
use ga_ottt.Supervisor.Endpoints.{
  Host, Visit, Routing, conclude, ensured_or, after_recycle, make_dir, route_recycle, route_serving,
  after_ensure, route_backend,
}
use ga_ottt.Supervisor.Endpoints.Bounds.{
  Bounded, RecycledOk, RoutingOk, IsEnsure, IsRoute, Bounded-refl, Bounded-trans,
  ensure_locked-Bounded, recycle_failed_backend-Bounded,
}

module _ {U T : Type 0} (dec : Discrete U) (same_token : Discrete T) (no_token : T) where
  conclude_ok :
      (s : Supervisor U T) (uid : U) (t : T) (r : Readiness)
      → lookup dec uid s.token_files ≡ some t
      → RoutingOk dec same_token no_token s uid (conclude t r)
  unfolding conclude
  conclude_ok s uid t failed file = tt
  conclude_ok s uid t starting file = file
  conclude_ok s uid t semantic_ready file = file
  conclude_ok s uid t hybrid_ready file = file
  conclude_ok s uid t legacy file = file
  conclude_ok s uid t transient file = file

  after_recycle_ok :
      (s : Supervisor U T) (uid : U) (t : T) (polls : List Readiness) (a : Recycled T)
      → RecycledOk dec same_token no_token s uid a
      → RoutingOk dec same_token no_token s uid (after_recycle t polls a)
  unfolding after_recycle ensured_or
  after_recycle_ok s uid t polls abandoned ok = tt
  after_recycle_ok s uid t polls (current t') ok =
      conclude_ok s uid t' (await_backend_readiness polls) ok
  after_recycle_ok s uid t polls (respawned (serving t')) ok =
      conclude_ok s uid t' (await_backend_readiness polls) ok
  after_recycle_ok s uid t polls (respawned universe_inactive) ok = tt
  after_recycle_ok s uid t polls (respawned tuning_env_error) ok = tt
  after_recycle_ok s uid t polls (respawned not_ready) ok = tt

  add-kept : (k : U) (ks : List U) → has dec k ks ≡ true → add dec k ks ≡ ks
  unfolding has add
  add-kept k [] there = absurd cc
  add-kept k (j ∷ ks) there = ground (arith, add-kept k ks)

module _ {U T : Type 0} (dec : Discrete U) (same_token : Discrete T) (no_token : T) where
  twice :
      (s s' : Supervisor U T) (j : U)
      → Bounded dec same_token no_token 1 s j s'
      → Bounded dec same_token no_token 2 s j s'
  twice s s' j b =
      Bounded-trans dec same_token no_token 1 1 s s' s' j b
        (Bounded-refl dec same_token no_token 1 s' j)

module _ {U T H I : Type 0} (dec : Discrete U) (same_token : Discrete T) (no_token : T) where
  -- The registry, the embedder, the directories and the trash are as they were.
  abbrev pub Frame : Host U T H I → Host U T H I → Type 0
  Frame h h' =
      (h'.registry ≡ h.registry)
      × (h'.embedder ≡ h.embedder)
      × (h'.dirs ≡ h.dirs)
      × (h'.trash ≡ h.trash)

  -- Besides the frame, what was started, what is said, and the universe `j`.
  abbrev pub Leaves : ℕ → Host U T H I → U → U → Host U T H I × Routing T → Type 0
  Leaves n h uid j (h', answer) =
      Frame h h' × IsRoute dec same_token no_token n h.supervisor uid j (h'.supervisor, answer)

  module _ {P : Type 0} (same_hash : Discrete H) (hash_key : P → H) where
    route_recycle-Leaves :
        (h : Host U T H I) (uid j : U) (t : T) (v : Visit T I)
        → j ≢ uid
        → has dec uid h.dirs ≡ true
        → lookup dec uid h.supervisor.token_files ≡ some t
        → Leaves 1 h uid j (route_recycle dec same_token no_token same_hash hash_key h uid t v)
    unfolding route_recycle make_dir
    route_recycle-Leaves h uid j t v ne there file =
        let a : Supervisor U T × Recycled T =
          recycle_failed_backend dec same_token no_token h.registry h.supervisor uid v.recycling in
        let (b, ok) =
          recycle_failed_backend-Bounded dec same_token no_token h.registry h.supervisor uid j
            v.recycling t ne file in
        (
          (refl, refl, add-kept dec same_token no_token uid h.dirs there, refl),
          (b, after_recycle_ok dec same_token no_token a.0 uid t v.polls_after_recycle a.1 ok),
        )

    route_serving-Leaves :
        (h : Host U T H I) (uid j : U) (t : T) (v : Visit T I)
        → j ≢ uid
        → has dec uid h.dirs ≡ true
        → lookup dec uid h.supervisor.token_files ≡ some t
        → Leaves 1 h uid j (route_serving dec same_token no_token same_hash hash_key h uid t v)
    unfolding route_serving
    route_serving-Leaves h uid j t v ne there file = go (await_backend_readiness v.polls) refl
      where
        still : (r : Readiness) → Leaves 1 h uid j (h, conclude t r)
        still r = (
          (refl, refl, refl, refl),
          (
            Bounded-refl dec same_token no_token 1 h.supervisor j,
            conclude_ok dec same_token no_token h.supervisor uid t r file,
          ),
        )

        go :
            (a : Readiness)
            → await_backend_readiness v.polls ≡ a
            → Leaves 1 h uid j (route_serving dec same_token no_token same_hash hash_key h uid t v)
        go failed e = rw (route_serving, e) (route_recycle-Leaves h uid j t v ne there file)
        go starting e = rw (route_serving, e) (still starting)
        go semantic_ready e = rw (route_serving, e) (still semantic_ready)
        go hybrid_ready e = rw (route_serving, e) (still hybrid_ready)
        go legacy e = rw (route_serving, e) (still legacy)
        go transient e = rw (route_serving, e) (still transient)

    after_ensure-Leaves :
        (h : Host U T H I) (uid j : U) (v : Visit T I) (a : Supervisor U T × Ensured T)
        → j ≢ uid
        → has dec uid h.dirs ≡ true
        → IsEnsure dec same_token no_token h.supervisor uid j a
        → Leaves 2 h uid j (after_ensure dec same_token no_token same_hash hash_key h uid v a)
    unfolding after_ensure
    after_ensure-Leaves h uid j v (s, serving t) ne there (b, file) =
        let h' : Host U T H I = record h { supervisor = s } in
        let (frame, (b', ok)) = route_serving-Leaves h' uid j t v ne there file in
        let s' =
          (route_serving dec same_token no_token same_hash hash_key h' uid t v).0.supervisor in
        (frame, (Bounded-trans dec same_token no_token 1 1 h.supervisor s s' j b b', ok))
    after_ensure-Leaves h uid j v (s, universe_inactive) ne there (b, _) =
        ((refl, refl, refl, refl), (twice dec same_token no_token h.supervisor s j b, tt))
    after_ensure-Leaves h uid j v (s, tuning_env_error) ne there (b, _) =
        ((refl, refl, refl, refl), (twice dec same_token no_token h.supervisor s j b, tt))
    after_ensure-Leaves h uid j v (s, not_ready) ne there (b, _) =
        ((refl, refl, refl, refl), (twice dec same_token no_token h.supervisor s j b, tt))

    pub route_backend-Leaves :
        (h : Host U T H I) (uid j : U) (v : Visit T I)
        → j ≢ uid
        → Leaves 2
            (record h { dirs = add dec uid h.dirs })
            uid
            j
            (route_backend dec same_token no_token same_hash hash_key h uid v)
    unfolding route_backend make_dir
    route_backend-Leaves h uid j v ne =
        after_ensure-Leaves (record h { dirs = add dec uid h.dirs }) uid j v
          (ensure_locked dec same_token no_token h.registry h.supervisor uid v.meeting) ne
          (ground (arith, has-add dec uid uid h.dirs))
          (ensure_locked-Bounded dec same_token no_token h.registry h.supervisor uid j v.meeting ne)
