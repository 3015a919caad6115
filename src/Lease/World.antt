-- ===== src/Lease/World.antt =====
-- Several processes that share one lock file, as interleavings of the critical sections of
-- `OwnerLease`. A process is named by its owner id (`uuid4`, so no two share one). `acquire` is two
-- steps on the path that creates the file, with the empty file visible in between, and else one.
use ga_ottt.Base.{ℕ, Bool, true, false, none, some, List, [], ◌∷◌, ite, if◌then◌else◌}
use ga_ottt.Lease.{
  LockFile, Config, Lease, acquire_existing, create_exclusive, publish, release, refresh_heartbeat,
}

pub record World (K : Type 0) : Type 0 where
  pub file : LockFile K
  pub leases : K → Lease K
  -- between `os.open` and the end of `os.write`
  pub creating : K → Bool

pub data Action (K : Type 0) : Type 0 where
  creates : K → Action K
  publishes : K → ℕ → Bool → Action K
  takes : K → Bool → ℕ → Action K
  beats : K → ℕ → Action K
  releases : K → Action K

module _ {K : Type 0} (dec : Discrete K) where
  unfoldable pub update : {A : Type 0} → (K → A) → K → A → K → A
  update f k a j = ite (dec k j) a (f j)

  -- A process inside `acquire` does nothing else until it has published.
  unfoldable pub act : Config → World K → Action K → World K
  act cfg w (Action.creates k) = if w.creating k then w else elim (create_exclusive w.file) [
    | none ↦ w
    | some f ↦ record w { file = f; creating = update w.creating k true }
  ]
  act cfg w (Action.publishes k now writes) =
      let a = publish (w.leases k) now writes in
      if w.creating k
      then record w {
        file = a.file;
        leases = update w.leases k a.lease;
        creating = update w.creating k false;
      }
      else w
  act cfg w (Action.takes k force now) =
      let a = acquire_existing cfg (w.leases k) w.file force now in
      if w.creating k then w else record w { file = a.file; leases = update w.leases k a.lease }
  act cfg w (Action.beats k now) =
      let a = refresh_heartbeat dec (w.leases k) w.file now in
      if w.creating k then w else record w { file = a.file; leases = update w.leases k a.lease }
  act cfg w (Action.releases k) =
      let a = release dec (w.leases k) w.file in
      if w.creating k then w else record w { file = a.file; leases = update w.leases k a.lease }

  unfoldable pub run : Config → World K → List (Action K) → World K
  run cfg w [] = w
  run cfg w (a ∷ actions) = run cfg (act cfg w a) actions
