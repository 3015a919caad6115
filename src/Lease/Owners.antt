-- ===== src/Lease/Owners.antt =====
-- Who can displace an owner: nobody but itself, by a release, and a process that takes over a stale
-- lock or is told to force it.
use ga_ottt.Base.{
  ℕ, ◌≡◌, ◌≢◌, refl, sym, ◌∙◌, subst, inl, inr, Bool, true, false, none, List, [], ◌∷◌,
  if◌then◌else◌, Bool-cases,
}
use ga_ottt.Lease.{
  LockFile, missing, unreadable, readable, Config, Lease, acquire_existing, create_exclusive,
  release, refresh_heartbeat,
}
use ga_ottt.Lease.Sections.{
  Owner, Takeable, acquire_existing_cases, refresh_heartbeat_cases, release_cases,
}
use ga_ottt.Lease.World.{World, Action, act, run}
use ga_ottt.Lease.Creators.{IsOrderly, act-IsOrderly}

module _ {K : Type 0} (dec : Discrete K) (cfg : Config) where
  -- The actions that may end the ownership of `p`.
  abbrev pub Displaces : World K → K → Action K → Type 0
  Displaces w p (Action.creates k) = ⊥
  Displaces w p (Action.publishes k now writes) = ⊥
  Displaces w p (Action.takes k force now) = Takeable cfg force now w.file
  Displaces w p (Action.beats k now) = ⊥
  Displaces w p (Action.releases k) = k ≡ p

  abbrev pub Undisturbed : World K → K → List (Action K) → Type 0
  Undisturbed w p [] = Unit {0}
  Undisturbed w p (a ∷ actions) = (¬ Displaces w p a) × Undisturbed (act dec cfg w a) p actions

  owned_readable : (p : K) (f : LockFile K) → Owner f p → f ≢ unreadable
  owned_readable p missing own = absurd own
  owned_readable p unreadable own = absurd own
  owned_readable p (readable q) own = λ e. cc

  create_owned : (p : K) (f : LockFile K) → Owner f p → create_exclusive f ≡ none
  unfolding create_exclusive
  create_owned p missing own = absurd own
  create_owned p unreadable own = absurd own
  create_owned p (readable q) own = refl

  if_keeps :
      (b : Bool) (w v : World K) (p : K)
      → Owner w.file p
      → Owner v.file p
      → Owner (if b then w else v).file p
  if_keeps true w v p h g = h
  if_keeps false w v p h g = g

  takes_keeps :
      (l : Lease K) (f : LockFile K) (p : K) (force : Bool) (now : ℕ)
      → Owner f p
      → ¬ Takeable cfg force now f
      → Owner (acquire_existing cfg l f force now).file p
  takes_keeps l f p force now own calm = elim (acquire_existing_cases cfg l f force now) [
    | inl taken ↦ absurd (calm taken.0)
    | inr left ↦ subst (λ g. Owner g p) (sym left.2) own
  ]

  same-Owner : (f : LockFile K) (j k : K) → Owner f j → Owner f k → j ≡ k
  same-Owner missing j k a b = absurd a
  same-Owner unreadable j k a b = absurd a
  same-Owner (readable q) j k a b = cc

  beats_keeps :
      (l : Lease K) (f : LockFile K) (p : K) (now : ℕ)
      → Owner f p
      → Owner (refresh_heartbeat dec l f now).file p
  beats_keeps l f p now own = elim (refresh_heartbeat_cases dec l f now) [
    | inl kept ↦
        subst (Owner (refresh_heartbeat dec l f now).file) (same-Owner f l.owner_id p kept.0 own)
          kept.2
    | inr left ↦ subst (λ g. Owner g p) (sym left.2) own
  ]

  releases_keeps :
      (l : Lease K) (f : LockFile K) (p : K)
      → Owner f p
      → l.owner_id ≢ p
      → Owner (release dec l f).file p
  releases_keeps l f p own other = elim (release_cases dec l f) [
    | inl gone ↦ absurd (other (same-Owner f l.owner_id p gone.0 own))
    | inr left ↦ subst (λ g. Owner g p) (sym left.1) own
  ]

  act_keeps_Owner :
      (w : World K) (p : K) (a : Action K)
      → IsOrderly dec cfg w
      → Owner w.file p
      → ¬ Displaces w p a
      → Owner (act dec cfg w a).file p
  unfolding act
  act_keeps_Owner w p (Action.creates k) o own calm =
      rw (create_owned p w.file own) (if_keeps (w.creating k) w w p own own)
  act_keeps_Owner w p (Action.publishes k now writes) o own calm =
      elim (Bool-cases (w.creating k)) [
        | inl c ↦ absurd (owned_readable p w.file own (o.empty k c))
        | inr c ↦ rw c own
      ]
  act_keeps_Owner w p (Action.takes k force now) o own calm =
      if_keeps (w.creating k) w _ p own (takes_keeps (w.leases k) w.file p force now own calm)
  act_keeps_Owner w p (Action.beats k now) o own calm =
      if_keeps (w.creating k) w _ p own (beats_keeps (w.leases k) w.file p now own)
  act_keeps_Owner w p (Action.releases k) o own calm =
      if_keeps (w.creating k) w _ p own
        (releases_keeps (w.leases k) w.file p own (λ e. calm (sym (o.named k) ∙ e)))

  -- In any interleaving that starts from an orderly world, the owner that the lock names stays its
  -- owner as long as it does not release the lock and no process takes it over, which takes a
  -- forced call or a heartbeat more than `stale_seconds` old. Creations, publications, heartbeats
  -- and releases of other processes never displace it.
  pub run_keeps_Owner :
      (w : World K) (p : K) (actions : List (Action K))
      → IsOrderly dec cfg w
      → Owner w.file p
      → Undisturbed w p actions
      → Owner (run dec cfg w actions).file p
  unfolding run
  run_keeps_Owner w p [] o own calm = own
  run_keeps_Owner w p (a ∷ actions) o own calm =
      run_keeps_Owner (act dec cfg w a) p actions (act-IsOrderly dec cfg w a o)
        (act_keeps_Owner w p a o own calm.0) calm.1
