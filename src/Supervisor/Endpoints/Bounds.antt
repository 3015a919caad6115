-- ===== src/Supervisor/Endpoints/Bounds.antt =====
-- How many processes `_ensure_locked` and `recycle_failed_backend` may start, what tokens they give
-- away, and that they leave the other universes alone.
use ga_ottt.Base.{ℕ, ◌+◌, ◌≤◌, ◌≡◌, ◌≢◌, ◌∙◌, refl, inl, inr, Option, none, some, arith, or_else}
use ga_ottt.Dict.{lookup}
use ga_ottt.Dict.Laws.{lookup-erase}
use ga_ottt.Registry.{Registry}
use ga_ottt.Supervisor.{Supervisor}
use ga_ottt.Supervisor.Stop.{forget_pid}
use ga_ottt.Supervisor.Stop.Safety.{stop_backend_cases}
use ga_ottt.Supervisor.Ensure.{
  Meeting, Ensured, serving, universe_inactive, tuning_env_error, not_ready, ensure_locked,
}
use ga_ottt.Supervisor.Ensure.Serving.{Started, Untouched, Accepted, ensure_locked_lem}
use ga_ottt.Supervisor.Recycle.{
  Readiness, semantic_ready, hybrid_ready, failed, starting, legacy, transient, Recycling, Recycled,
  abandoned, current, respawned, recycle_failed_backend, stop_and_respawn, respawn_if_stopped,
}
use ga_ottt.Supervisor.Endpoints.{
  Routing, routed, unauthorized, not_available, embedder_down, embedder_error, invalid_tuning_env,
  spawn_timeout, startup_failed,
}

module _ {U T : Type 0} (dec : Discrete U) (same_token : Discrete T) (no_token : T) where
  -- At most `n` processes are started and the universe `j` keeps its process and its token.
  abbrev pub Bounded : ℕ → Supervisor U T → U → Supervisor U T → Type 0
  Bounded n s j s' =
      Untouched dec same_token no_token s j s'
      × (s.spawned ≤ s'.spawned)
      × (s'.spawned ≤ s.spawned + n)

  -- A token that is given is the one in the universe's file.
  abbrev pub EnsuredOk : Supervisor U T → U → Ensured T → Type 0
  EnsuredOk s uid (serving t) = lookup dec uid s.token_files ≡ some t
  EnsuredOk s uid universe_inactive = Unit
  EnsuredOk s uid tuning_env_error = Unit
  EnsuredOk s uid not_ready = Unit

  abbrev pub RecycledOk : Supervisor U T → U → Recycled T → Type 0
  RecycledOk s uid abandoned = Unit
  RecycledOk s uid (current t) = lookup dec uid s.token_files ≡ some t
  RecycledOk s uid (respawned e) = EnsuredOk s uid e

  abbrev pub RoutingOk : Supervisor U T → U → Routing T → Type 0
  RoutingOk s uid (routed t b) = lookup dec uid s.token_files ≡ some t
  RoutingOk s uid unauthorized = Unit
  RoutingOk s uid not_available = Unit
  RoutingOk s uid embedder_down = Unit
  RoutingOk s uid embedder_error = Unit
  RoutingOk s uid invalid_tuning_env = Unit
  RoutingOk s uid spawn_timeout = Unit
  RoutingOk s uid startup_failed = Unit

  -- One step for the universe `uid`: what it started and what it says, and the universe `j`.
  abbrev pub IsEnsure : Supervisor U T → U → U → Supervisor U T × Ensured T → Type 0
  IsEnsure s uid j (s', e) = Bounded 1 s j s' × EnsuredOk s' uid e

  abbrev pub IsRecycle : Supervisor U T → U → U → Supervisor U T × Recycled T → Type 0
  IsRecycle s uid j (s', e) = Bounded 1 s j s' × RecycledOk s' uid e

  abbrev pub IsRoute : ℕ → Supervisor U T → U → U → Supervisor U T × Routing T → Type 0
  IsRoute n s uid j (s', e) = Bounded n s j s' × RoutingOk s' uid e

  pub Bounded-refl : (n : ℕ) (s : Supervisor U T) (j : U) → Bounded n s j s
  Bounded-refl n s j = ((refl, refl), omega arith, omega arith)

  pub Bounded-trans :
      (m n : ℕ) (s s1 s2 : Supervisor U T) (j : U)
      → Bounded m s j s1
      → Bounded n s1 j s2
      → Bounded (m + n) s j s2
  Bounded-trans m n s s1 s2 j ((a, b), l, u) ((a', b'), l', u') =
      ((a' ∙ a, b' ∙ b), omega arith, omega arith)

  pub ensure_locked-Bounded :
      {H : Type 0} (r : Registry U H) (s : Supervisor U T) (uid j : U) (m : Meeting T)
      → j ≢ uid
      → IsEnsure s uid j (ensure_locked dec same_token no_token r s uid m)
  ensure_locked-Bounded r s uid j m ne =
      elim (ensure_locked_lem dec same_token no_token r s uid j m ne) [
        | inl (e, same) ↦ rw same (Bounded-refl 1 s j, tt)
        | inr (e, (started, un, ok)) ↦
            (bounded started un, accepted (ensure_locked dec same_token no_token r s uid m).1 ok)
      ]
    where
      s' : Supervisor U T
      s' = (ensure_locked dec same_token no_token r s uid m).0

      bounded :
          Started dec same_token no_token s uid s'
          → Untouched dec same_token no_token s j s'
          → Bounded 1 s j s'
      bounded (inl st) un = (un, omega arith, omega arith)
      bounded (inr st) un = (un, omega arith, omega arith)

      accepted : (e : Ensured T) → Accepted dec same_token no_token s' uid m e → EnsuredOk s' uid e
      accepted (serving t) ok = ok.0
      accepted universe_inactive ok = tt
      accepted tuning_env_error ok = tt
      accepted not_ready ok = tt

  stop_and_respawn-Bounded :
      {H : Type 0} (r : Registry U H) (s : Supervisor U T) (uid j : U) (c : Recycling T)
      → j ≢ uid
      → IsRecycle s uid j (stop_and_respawn dec same_token no_token r s uid c)
  unfolding stop_and_respawn respawn_if_stopped forget_pid
  stop_and_respawn-Bounded r s uid j c ne =
      elim (stop_backend_cases dec no_token s uid c.killing c.stop_probe) [
        | inr (e, unsafe) ↦ rw (stop_and_respawn, e) (Bounded-refl 1 s j, tt)
        | inl (e, safe) ↦
            rw (stop_and_respawn, e)
              (let (b, ok) = ensure_locked-Bounded r (forget_pid dec s uid) uid j c.meeting ne in
                (Bounded-trans 0 1 s (forget_pid dec s uid) _ j forgotten b, ok))
      ]
    where
      forgotten : Bounded 0 s j (forget_pid dec s uid)
      forgotten =
          ((ground (arith, lookup-erase dec uid j s.backend_pids), refl), omega arith, omega arith)

  pub recycle_failed_backend-Bounded :
      {H : Type 0} (r : Registry U H) (s : Supervisor U T) (uid j : U) (c : Recycling T) (t : T)
      → j ≢ uid
      → lookup dec uid s.token_files ≡ some t
      → IsRecycle s uid j (recycle_failed_backend dec same_token no_token r s uid c)
  unfolding recycle_failed_backend
  recycle_failed_backend-Bounded r s uid j c t ne file = go c.recheck
    where
      now : lookup dec uid s.token_files ≡ some (or_else (lookup dec uid s.token_files) no_token)
      now = rw file refl

      go :
          (o : Option Readiness)
          → IsRecycle s uid j
              (recycle_failed_backend dec same_token no_token r s uid (record c { recheck = o }))
      go none = (Bounded-refl 1 s j, tt)
      go (some legacy) = (Bounded-refl 1 s j, tt)
      go (some failed) = stop_and_respawn-Bounded r s uid j c ne
      go (some semantic_ready) = (Bounded-refl 1 s j, now)
      go (some hybrid_ready) = (Bounded-refl 1 s j, now)
      go (some starting) = (Bounded-refl 1 s j, now)
      go (some transient) = (Bounded-refl 1 s j, now)
