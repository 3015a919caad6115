-- ===== src/Lease/Sections.antt =====
-- Each critical section of `OwnerLease` on every content of the lock file.
use ga_ottt.Base.{
  ℕ, ◌+◌, ◌<◌, ◌≡◌, ◌↔◌, refl, ◌⊎◌, inl, inr, Bool, true, false, ◌||◌, Option, none, some, arith,
  ltb, or_else, Bool-cases,
}
use ga_ottt.Lease.{
  Payload, LockFile, missing, unreadable, readable, Config, Lease, acquired, held_error,
  new_payload, acquire_existing, owns, release, is_active, refresh_heartbeat,
}

module _ {K : Type 0} where
  -- Who the lock names.
  abbrev pub Owner : LockFile K → K → Type 0
  Owner missing k = ⊥
  Owner unreadable k = ⊥
  Owner (readable p) k = p.owner_id ≡ some k

  -- A lock that another process may take: the caller or the configuration forces it, or its
  -- heartbeat is more than `stale_seconds` old.
  abbrev pub Takeable : Config → Bool → ℕ → LockFile K → Type 0
  Takeable cfg force now missing = ⊥
  Takeable cfg force now unreadable = ⊥
  Takeable cfg force now (readable p) =
      ((force ≡ true) ⊎ (cfg.force_takeover ≡ true))
      ⊎ (or_else p.heartbeat_at 0 + cfg.stale_seconds < now)

  abbrev pub heartbeat : LockFile K → Option ℕ
  heartbeat missing = none
  heartbeat unreadable = none
  heartbeat (readable p) = p.heartbeat_at

  -- The takeovers that the lock has counted.
  abbrev pub takeovers : LockFile K → ℕ
  takeovers missing = 0
  takeovers unreadable = 0
  takeovers (readable p) = or_else p.takeover_count 0

  Takeable-test :
      (cfg : Config) (force : Bool) (now : ℕ) (p : Payload K)
      → ((force || (cfg.force_takeover || ltb (or_else p.heartbeat_at 0 + cfg.stale_seconds) now))
          ≡ true)
        ↔ Takeable cfg force now (readable p)
  Takeable-test cfg force now p = (ground arith, ground arith)

  -- The existing path acquires exactly a lock that may be taken. Then the file names the caller as
  -- owner, with a fresh heartbeat and one takeover more; otherwise it raises `LeaseHeldError` and
  -- changes neither the file nor the lease.
  pub acquire_existing_cases :
      (cfg : Config) (l : Lease K) (file : LockFile K) (force : Bool) (now : ℕ)
      → let a = acquire_existing cfg l file force now in
        (Takeable cfg force now file
          × (a.answer ≡ acquired)
          × (a.file ≡ readable (new_payload l now (takeovers file + 1)))
          × (a.lease.is_active ≡ true))
        ⊎ ((¬ Takeable cfg force now file)
            × (a.answer ≡ held_error)
            × (a.file ≡ file)
            × (a.lease ≡ l))
  unfolding acquire_existing
  acquire_existing_cases cfg l missing force now = inr ((λ h. h), refl, refl, refl)
  acquire_existing_cases cfg l unreadable force now = inr ((λ h. h), refl, refl, refl)
  acquire_existing_cases cfg l (readable p) force now =
      let test : Bool =
        force || (cfg.force_takeover || ltb (or_else p.heartbeat_at 0 + cfg.stale_seconds) now) in
      elim (Bool-cases test) [
        | inl e ↦ rw e (inl ((Takeable-test cfg force now p).0 e, refl, refl, refl))
        | inr e ↦ rw e (inr ((λ h. cc ((Takeable-test cfg force now p).1 h)), refl, refl, refl))
      ]

module _ {K : Type 0} (dec : Discrete K) where
  owns_iff : (l : Lease K) (p : Payload K) → (owns dec l p ≡ true) ↔ Owner (readable p) l.owner_id
  unfolding owns
  owns_iff l p = (ground arith, ground arith)

  -- The property `is_active` is true exactly when the file names the lease's owner.
  pub is_active_iff :
      (l : Lease K) (file : LockFile K) → (is_active dec l file ≡ true) ↔ Owner file l.owner_id
  unfolding is_active
  is_active_iff l missing = ((λ h. cc), λ h. absurd h)
  is_active_iff l unreadable = ((λ h. cc), λ h. absurd h)
  is_active_iff l (readable p) = owns_iff l p

  -- A heartbeat answers true exactly when the lease still owns the lock, and then moves only the
  -- heartbeat; when the lock is lost it answers false, leaves the file as it is and marks the lease
  -- inactive.
  pub refresh_heartbeat_cases :
      (l : Lease K) (file : LockFile K) (now : ℕ)
      → let a = refresh_heartbeat dec l file now in
        (Owner file l.owner_id
          × (a.answer ≡ true)
          × Owner a.file l.owner_id
          × (heartbeat a.file ≡ some now)
          × (takeovers a.file ≡ takeovers file)
          × (a.lease ≡ l))
        ⊎ ((¬ Owner file l.owner_id)
            × (a.answer ≡ false)
            × (a.file ≡ file)
            × (a.lease.is_active ≡ false))
  unfolding refresh_heartbeat
  refresh_heartbeat_cases l missing now = inr ((λ h. h), refl, refl, refl)
  refresh_heartbeat_cases l unreadable now = inr ((λ h. h), refl, refl, refl)
  refresh_heartbeat_cases l (readable p) now = elim (Bool-cases (owns dec l p)) [
    | inl e ↦ let own = (owns_iff l p).0 e in rw e (inl (own, refl, own, refl, refl, refl))
    | inr e ↦ rw e (inr ((λ own. cc ((owns_iff l p).1 own)), refl, refl, refl))
  ]

  -- `release` removes the lock exactly when the lease owns it, and never another owner's.
  pub release_cases :
      (l : Lease K) (file : LockFile K)
      → let a = release dec l file in
        (Owner file l.owner_id × (a.file ≡ missing) × (a.lease.is_active ≡ false))
        ⊎ ((¬ Owner file l.owner_id) × (a.file ≡ file))
  unfolding release
  release_cases l missing = inr ((λ h. h), refl)
  release_cases l unreadable = inr ((λ h. h), refl)
  release_cases l (readable p) = elim (Bool-cases (owns dec l p)) [
    | inl e ↦ rw e (inl ((owns_iff l p).0 e, refl, refl))
    | inr e ↦ rw e (inr ((λ own. cc ((owns_iff l p).1 own)), refl))
  ]
