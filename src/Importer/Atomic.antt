-- ===== src/Importer/Atomic.antt =====
-- A copying import is all or nothing.
use ga_ottt.Base.{
  ℕ, ◌≡◌, refl, subst, inl, inr, Bool, true, false, Option, none, some, List, [], ◌∷◌, arith,
  if◌then◌else◌, All, is_some, Bool-cases,
}
use ga_ottt.Dict.{Dict, lookup, insert, has}
use ga_ottt.Dict.Laws.{lookup-insert}
use ga_ottt.Registry.{
  Registry, Answer, ok, no_free_port, integrity_error, allocate_port, get_universe, verify_api_key,
}
use ga_ottt.Registry.Tokens.{verify-created}
use ga_ottt.Importer.{
  ImportPlan, Files, Attempt, Outcome, imported, already_exists, target_exists, failed, port_race,
  exhausted, Progress, done, again, verify_target_db, clean_up, after_create, with_manifest,
  after_transfer, with_allocated, attempt, attempts, execute_import,
}
use ga_ottt.Importer.Transfer.{IsCopied, transfer-IsCopied}

module _ {N D : Type 0} (dec : Discrete N) where
  -- The manifest is none of the files, so that writing it leaves them.
  pub All-manifest :
      (name : N) (m : D) (source target : Dict N D) (ns : List N)
      → has dec name ns ≡ false
      → All (λ k. lookup dec k target ≡ lookup dec k source) ns
      → All (λ k. lookup dec k (insert dec name m target) ≡ lookup dec k source) ns
  unfolding has
  All-manifest name m source target [] out all = tt
  All-manifest name m source target (k ∷ ns) out (same, all) =
      ground
        (arith, lookup-insert dec name k m target, same, All-manifest name m source target ns, all)

module _ {N U H P D : Type 0} (dec : Discrete N) (same_id : Discrete U) (same_hash : Discrete H)
    (hash_key : P → H) (db_name manifest_name : N) (is_sound : D → Bool)
    (plan : ImportPlan N U) where
  -- The target has the files of the source, and the key resolves to the universe.
  abbrev pub IsImported : Files N D → Files N D → Registry U H → P → Type 0
  IsImported start f r key =
      (t : Dict N D) × (f.target ≡ some t)
      × All (λ k. lookup dec k t ≡ lookup dec k start.source) plan.copy_files
      × (verify_api_key same_id same_hash hash_key r key ≡ some plan.universe_id)

  -- Only an import that succeeds changes the files.
  abbrev pub IsAllOrNothing : Files N D → (Files N D × Registry U H) × Outcome P → Type 0
  IsAllOrNothing start ((f, r), imported key) = (f.source ≡ start.source) × IsImported start f r key
  IsAllOrNothing start ((f, r), already_exists) = f ≡ start
  IsAllOrNothing start ((f, r), target_exists) = f ≡ start
  IsAllOrNothing start ((f, r), failed) = f ≡ start
  IsAllOrNothing start ((f, r), port_race) = f ≡ start
  IsAllOrNothing start ((f, r), exhausted) = f ≡ start

  abbrev Goes : Files N D → (Files N D × Registry U H) × Progress P → Type 0
  Goes start (w, done o) = IsAllOrNothing start (w, o)
  Goes start ((f, r), again) = f ≡ start

  module _ (copies : plan.move ≡ false)
      (apart : has dec manifest_name plan.copy_files ≡ false) where
    cleaned :
        (start : Files N D) (source target : Dict N D)
        → start.target ≡ none
        → source ≡ start.source
        → clean_up plan.move (record { source = source; target = some target }) ≡ start
    unfolding clean_up
    cleaned start source target empty same = ground (arith, copies, empty, same)

    after_create-Goes :
        (start : Files N D) (source target : Dict N D) (a : Registry U H × Answer P)
        → start.target ≡ none
        → source ≡ start.source
        → All (λ k. lookup dec k target ≡ lookup dec k start.source) plan.copy_files
        → ((r : Registry U H) (key : P)
            → a ≡ (r, ok key)
            → verify_api_key same_id same_hash hash_key r key ≡ some plan.universe_id)
        → Goes start (
            after_create dec same_id same_hash hash_key db_name manifest_name is_sound plan
              (record { source = source; target = some target })
              a)
    unfolding after_create
    after_create-Goes start source target (r, ok key) empty same all resolves =
        (same, (target, refl, all, resolves r key refl))
    after_create-Goes start source target (r, no_free_port) empty same all resolves =
        cleaned start source target empty same
    after_create-Goes start source target (r, integrity_error) empty same all resolves =
        ground (arith, copies, cleaned start source target empty same)

    -- The check and the manifest, with the files in the target.
    with_manifest-Goes :
        (start : Files N D) (a : Attempt N U H P D) (r : Registry U H) (port : ℕ)
        (source target : Dict N D) (m : Option D)
        → start.target ≡ none
        → source ≡ start.source
        → All (λ k. lookup dec k target ≡ lookup dec k start.source) plan.copy_files
        → Goes start (
            with_manifest dec same_id same_hash hash_key db_name manifest_name is_sound plan a r
              port source target m)
    unfolding with_manifest
    with_manifest-Goes start a r port source target none empty same all =
        cleaned start source target empty same
    with_manifest-Goes start a r port source target (some m) empty same all =
        after_create-Goes start source (insert dec manifest_name m target) _ empty same
          (All-manifest dec manifest_name m start.source target plan.copy_files apart all)
          (λ r' key e.
            verify-created same_id same_hash hash_key (a.meanwhile r) r' plan.universe_id
              plan.owner_label port plan.embedder_id plan.embedder_version a.fresh_key key a.now e)

    after_transfer-Goes :
        (start : Files N D) (a : Attempt N U H P D) (r : Registry U H) (port : ℕ)
        (moved : Dict N D × Dict N D × Bool)
        → start.target ≡ none
        → IsCopied dec start.source [] plan.copy_files moved
        → Goes start (
            after_transfer dec same_id same_hash hash_key db_name manifest_name is_sound plan a r
              port moved)
    unfolding after_transfer
    after_transfer-Goes start a r port (source, target, false) empty (same, _, all) =
        cleaned start source target empty same
    after_transfer-Goes start a r port (source, target, true) empty (same, _, all) =
        elim (Bool-cases (verify_target_db dec db_name is_sound target)) [
          | inl sound ↦
              rw sound
                (with_manifest-Goes start a r port source target a.manifest empty same (all refl))
          | inr broken ↦ rw broken (cleaned start source target empty same)
        ]

    with_allocated-Goes :
        (a : Attempt N U H P D) (f : Files N D) (r : Registry U H) (port : Answer ℕ)
        → f.target ≡ none
        → Goes f (
            with_allocated dec same_id same_hash hash_key db_name manifest_name is_sound plan a f r
              port)
    unfolding with_allocated
    with_allocated-Goes a f r (ok port) empty =
        after_transfer-Goes f a r port _ empty
          (rw copies (transfer-IsCopied dec a.transfers plan.copy_files f.source []))
    with_allocated-Goes a f r no_free_port empty = cleaned f f.source [] empty refl
    with_allocated-Goes a f r integrity_error empty = rw copies (ground (arith, empty))

    attempt-Goes :
        (port_lo port_hi : ℕ) (a : Attempt N U H P D) (f : Files N D) (r : Registry U H)
        → Goes f (
            attempt dec same_id same_hash hash_key db_name manifest_name is_sound plan port_lo
              port_hi a
              (f, r))
    unfolding attempt
    attempt-Goes port_lo port_hi a f r = by f.target refl
      where
        by :
            (t : Option (Dict N D))
            → f.target ≡ t
            → Goes f (
                if is_some t
                then ((f, r), done target_exists)
                else with_allocated dec same_id same_hash hash_key db_name manifest_name is_sound
                    plan a f r
                    (allocate_port r a.is_port_free port_lo port_hi))
        by (some t) e = refl
        by none e = with_allocated-Goes a f r _ e

    -- A retry starts from the same files.
    attempts-IsAllOrNothing :
        (port_lo port_hi : ℕ) (later : List (Attempt N U H P D)) (start : Files N D)
        (s : (Files N D × Registry U H) × Progress P)
        → Goes start s
        → IsAllOrNothing start (
            attempts dec same_id same_hash hash_key db_name manifest_name is_sound plan port_lo
              port_hi later s)
    unfolding attempts
    attempts-IsAllOrNothing port_lo port_hi [] start (w, done o) g = g
    attempts-IsAllOrNothing port_lo port_hi (a ∷ later) start (w, done o) g = g
    attempts-IsAllOrNothing port_lo port_hi [] start ((f, r), again) g = g
    attempts-IsAllOrNothing port_lo port_hi (a ∷ later) start ((f, r), again) g =
        attempts-IsAllOrNothing port_lo port_hi later start _ (
          subst
            (λ f0. Goes f0 (
              attempt dec same_id same_hash hash_key db_name manifest_name is_sound plan port_lo
                port_hi a (f, r)))
            g (attempt-Goes port_lo port_hi a f r))

    -- When the plan copies and the manifest is none of its files: whatever the three attempts meet,
    -- the import either succeeds, with the source as before, every file of the plan in the target
    -- with its content in the source, and a key that resolves to the new universe, or leaves source
    -- and target as they were.
    pub execute_import-IsAllOrNothing :
        (port_lo port_hi : ℕ) (first second third : Attempt N U H P D) (start : Files N D)
        (r : Registry U H)
        → IsAllOrNothing start (
            execute_import dec same_id same_hash hash_key db_name manifest_name is_sound plan
              port_lo port_hi first second third
              (start, r))
    unfolding execute_import
    execute_import-IsAllOrNothing port_lo port_hi first second third start r =
        by (is_some (get_universe same_id r plan.universe_id))
      where
        by :
            (b : Bool)
            → IsAllOrNothing start (
                if b
                then ((start, r), already_exists)
                else attempts dec same_id same_hash hash_key db_name manifest_name is_sound plan
                    port_lo port_hi
                    (first ∷ second ∷ third ∷ [])
                    ((start, r), again))
        by true = refl
        by false =
            attempts-IsAllOrNothing port_lo port_hi (first ∷ second ∷ third ∷ []) start
              ((start, r), again) refl
