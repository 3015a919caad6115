-- ===== src/Lease/Creators.antt =====
-- At most one process is ever creating the lock file, and until it publishes nobody changes it.
use ga_ottt.Base.{
  ℕ, ◌≡◌, ◌≢◌, refl, Bool, true, false, none, some, List, [], ◌∷◌, if◌then◌else◌, arith, Bool-cases,
  inl, inr,
}
use ga_ottt.Lease.{
  LockFile, missing, unreadable, readable, Config, Lease, acquire_existing, create_exclusive,
  publish, release, refresh_heartbeat,
}
use ga_ottt.Lease.World.{World, Action, update, act, run}

module _ {K : Type 0} (dec : Discrete K) (cfg : Config) where
  pub record IsOrderly (w : World K) : Type 0 where
    pub named : (k : K) → (w.leases k).owner_id ≡ k
    pub empty : (k : K) → w.creating k ≡ true → w.file ≡ unreadable
    pub single : (j k : K) → w.creating j ≡ true → w.creating k ≡ true → j ≡ k

  -- On an unreadable file every section but the creator's leaves the file.
  existing_unreadable :
      (l : Lease K) (force : Bool) (now : ℕ) (f : LockFile K)
      → f ≡ unreadable
      → (acquire_existing cfg l f force now).file ≡ unreadable
  unfolding acquire_existing
  existing_unreadable l force now f e = ground arith

  refresh_unreadable :
      (l : Lease K) (now : ℕ) (f : LockFile K)
      → f ≡ unreadable
      → (refresh_heartbeat dec l f now).file ≡ unreadable
  unfolding refresh_heartbeat
  refresh_unreadable l now f e = ground arith

  release_unreadable :
      (l : Lease K) (f : LockFile K) → f ≡ unreadable → (release dec l f).file ≡ unreadable
  unfolding release
  release_unreadable l f e = ground arith

  existing_owner_id :
      (l : Lease K) (force : Bool) (now : ℕ) (f : LockFile K)
      → (acquire_existing cfg l f force now).lease.owner_id ≡ l.owner_id
  unfolding acquire_existing
  existing_owner_id l force now f = ground arith

  refresh_owner_id :
      (l : Lease K) (now : ℕ) (f : LockFile K)
      → (refresh_heartbeat dec l f now).lease.owner_id ≡ l.owner_id
  unfolding refresh_heartbeat
  refresh_owner_id l now f = ground arith

  release_owner_id : (l : Lease K) (f : LockFile K) → (release dec l f).lease.owner_id ≡ l.owner_id
  unfolding release
  release_owner_id l f = ground arith

  publish_owner_id :
      (l : Lease K) (now : ℕ) (writes : Bool) → (publish l now writes).lease.owner_id ≡ l.owner_id
  unfolding publish
  publish_owner_id l now writes = ground arith

  updated_named :
      (leases : K → Lease K) (k : K) (l : Lease K)
      → ((j : K) → (leases j).owner_id ≡ j)
      → l.owner_id ≡ (leases k).owner_id
      → (j : K) → (update dec leases k l j).owner_id ≡ j
  unfolding update
  updated_named leases k l named e j = ground (arith, named j, named k)

  -- The sections that leave the creators alone: what they must do for the world to stay orderly.
  section-IsOrderly :
      (w : World K) (k : K) (f : LockFile K) (l : Lease K)
      → IsOrderly w
      → (w.file ≡ unreadable → f ≡ unreadable)
      → l.owner_id ≡ (w.leases k).owner_id
      → IsOrderly (record w { file = f; leases = update dec w.leases k l })
  section-IsOrderly w k f l o keeps e = record {
    named = updated_named w.leases k l o.named e;
    empty = λ j c. keeps (o.empty j c);
    single = o.single;
  }

  if-IsOrderly :
      (b : Bool) (w v : World K)
      → IsOrderly w
      → (b ≡ false → IsOrderly v)
      → IsOrderly (if b then w else v)
  if-IsOrderly true w v o h = o
  if-IsOrderly false w v o h = h refl

  creates-IsOrderly :
      (w : World K) (k : K) (f : LockFile K)
      → f ≡ w.file
      → IsOrderly w
      → IsOrderly (elim (create_exclusive f) [
        | none ↦ w
        | some g ↦ record w { file = g; creating = update dec w.creating k true }
      ])
  unfolding create_exclusive
  creates-IsOrderly w k unreadable e o = o
  creates-IsOrderly w k (readable p) e o = o
  creates-IsOrderly w k missing e o = record {
    named = o.named;
    empty = λ j c. refl;
    single = λ i j a b. unfold update in ground (arith, o.empty i, o.empty j);
  }

  publishes-IsOrderly :
      (w : World K) (k : K) (f : LockFile K) (l : Lease K)
      → IsOrderly w
      → w.creating k ≡ true
      → l.owner_id ≡ (w.leases k).owner_id
      → IsOrderly (record w {
        file = f;
        leases = update dec w.leases k l;
        creating = update dec w.creating k false;
      })
  unfolding update
  publishes-IsOrderly w k f l o c e = record {
    named = updated_named w.leases k l o.named e;
    empty = λ j a. ground (arith, o.single j k);
    single = λ i j a b. ground (arith, o.single i j);
  }

  pub act-IsOrderly : (w : World K) (a : Action K) → IsOrderly w → IsOrderly (act dec cfg w a)
  unfolding act
  act-IsOrderly w (Action.creates k) o =
      if-IsOrderly (w.creating k) w _ o (λ _. creates-IsOrderly w k w.file refl o)
  act-IsOrderly w (Action.publishes k now writes) o = elim (Bool-cases (w.creating k)) [
    | inl c ↦ rw c (publishes-IsOrderly w k _ _ o c (publish_owner_id (w.leases k) now writes))
    | inr c ↦ rw c o
  ]
  act-IsOrderly w (Action.takes k force now) o = if-IsOrderly (w.creating k) w _ o λ _.
      section-IsOrderly w k _ _ o (existing_unreadable (w.leases k) force now w.file)
        (existing_owner_id (w.leases k) force now w.file)
  act-IsOrderly w (Action.beats k now) o = if-IsOrderly (w.creating k) w _ o λ _.
      section-IsOrderly w k _ _ o (refresh_unreadable (w.leases k) now w.file)
        (refresh_owner_id (w.leases k) now w.file)
  act-IsOrderly w (Action.releases k) o = if-IsOrderly (w.creating k) w _ o λ _.
      section-IsOrderly w k _ _ o (release_unreadable (w.leases k) w.file)
        (release_owner_id (w.leases k) w.file)

  pub run-IsOrderly :
      (w : World K) (actions : List (Action K)) → IsOrderly w → IsOrderly (run dec cfg w actions)
  unfolding run
  run-IsOrderly w [] o = o
  run-IsOrderly w (a ∷ actions) o = run-IsOrderly (act dec cfg w a) actions (act-IsOrderly w a o)

  -- Start with no process inside `acquire` and each lease under its own id. After any interleaving
  -- of the processes' steps, while a process is creating the lock the file is still its empty one,
  -- and no other process is creating it.
  pub creator_unique :
      (w : World K) (actions : List (Action K)) (j k : K)
      → ((i : K) → (w.leases i).owner_id ≡ i)
      → ((i : K) → w.creating i ≡ false)
      → (run dec cfg w actions).creating j ≡ true
      → k ≢ j
      → ((run dec cfg w actions).file ≡ unreadable) × ((run dec cfg w actions).creating k ≡ false)
  creator_unique w actions j k named calm c other =
      let o : IsOrderly (run dec cfg w actions) =
        run-IsOrderly w actions (record {
          named = named;
          empty = λ i h. cc (calm i);
          single = λ i i' h h'. cc (calm i);
        }) in
      (
        o.empty j c,
        elim (Bool-cases ((run dec cfg w actions).creating k)) [
          | inl d ↦ absurd (other (o.single k j d c))
          | inr d ↦ d
        ],
      )
