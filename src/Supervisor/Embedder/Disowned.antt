-- ===== src/Supervisor/Embedder/Disowned.antt =====
-- An owned embedder whose `/info` has not been cached: `ensure_embedder_up` gives it up.
use ga_ottt.Base.{ℕ, ◌≡◌, refl, true, ◌||◌, none, List, arith, is_some}
use ga_ottt.Registry.{Universe}
use ga_ottt.Supervisor.{Supervisor}
use ga_ottt.Supervisor.Embedder.{
  unowned, owned_idle, Embedder, Calling, disown, finish, lazy_spawn, from_cache, without_cache,
  ensure_in_lock, ensure_embedder_up,
}
use ga_ottt.Supervisor.Embedder.Watch.{Round, ended, watchdog_round}

module _ {I : Type 0} where
  finish_keeps :
      (e : Embedder I) (c : Calling I)
      → ((finish e c).0.embedder_state ≡ e.embedder_state)
        × ((finish e c).0.embedder_pid ≡ e.embedder_pid)
        × ((finish e c).0.started ≡ e.started)
  unfolding finish
  finish_keeps e c = ground arith

  to_lazy_spawn :
      (e : Embedder I) (c : Calling I)
      → e.embedder_state ≡ owned_idle
      → e.embedder_info_cache ≡ none
      → c.endpoint_set ≡ true
      → (is_some c.info_first || c.may_spawn) ≡ true
      → ensure_embedder_up e c ≡ lazy_spawn e c
  unfolding ensure_embedder_up ensure_in_lock without_cache from_cache
  to_lazy_spawn e c owned empty there may = ground arith

  lazy_spawn-disowns :
      (e : Embedder I) (c : Calling I)
      → c.health_lazy ≡ true
      → ((lazy_spawn e c).0.embedder_state ≡ unowned)
        × ((lazy_spawn e c).0.embedder_pid ≡ none)
        × ((lazy_spawn e c).0.started ≡ e.started)
  unfolding lazy_spawn disown
  lazy_spawn-disowns e c healthy = rw (lazy_spawn, healthy) (finish_keeps (disown e) c)

module _ {U T I : Type 0} (dec : Discrete U) (no_token : T) where
  -- For an owned and idle embedder without a cached info, with the endpoint set, `/info` answering
  -- or a spawn allowed, and `/healthz` answering, `ensure_embedder_up` makes the state `unowned`
  -- without a process and starts none, so that a later round of the watchdog changes nothing and
  -- ends.
  pub ensure_embedder_up-disowns :
      (e : Embedder I) (c : Calling I) (timeout : ℕ) (us : List (Universe U)) (s : Supervisor U T)
      (r : Round T)
      → e.embedder_state ≡ owned_idle
      → e.embedder_info_cache ≡ none
      → c.endpoint_set ≡ true
      → (is_some c.info_first || c.may_spawn) ≡ true
      → c.health_lazy ≡ true
      → ((ensure_embedder_up e c).0.embedder_state ≡ unowned)
        × ((ensure_embedder_up e c).0.embedder_pid ≡ none)
        × ((ensure_embedder_up e c).0.started ≡ e.started)
        × (watchdog_round dec no_token timeout us s (ensure_embedder_up e c).0 r
            ≡ ((s, (ensure_embedder_up e c).0), ended))
  unfolding watchdog_round
  ensure_embedder_up-disowns e c timeout us s r owned empty there may healthy =
      let (state, pid, same) = lazy_spawn-disowns e c healthy in
      rw (to_lazy_spawn e c owned empty there may)
        (state, pid, same, rw (watchdog_round, state) refl)
