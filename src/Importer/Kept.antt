-- ===== src/Importer/Kept.antt =====
-- An import by moving loses no file.
use ga_ottt.Base.{
  ℕ, ◌≡◌, ◌≢◌, ◌⊎◌, refl, inl, inr, Bool, true, false, ◌&&◌, Option, none, some, List, [], ◌∷◌,
  arith, if◌then◌else◌, is_some, Bool-cases,
}
use ga_ottt.Dict.{Dict, lookup, insert}
use ga_ottt.Dict.Laws.{lookup-insert}
use ga_ottt.Registry.{
  Registry, Answer, ok, no_free_port, integrity_error, allocate_port, get_universe,
}
use ga_ottt.Importer.{
  ImportPlan, Files, Attempt, Outcome, already_exists, target_exists, Progress, done, again,
  verify_target_db, clean_up, after_create, with_manifest, after_transfer, with_allocated, attempt,
  attempts, execute_import,
}
use ga_ottt.Importer.Transfer.{IsKept, AreKept, transfer-AreKept}

module _ {N U H P D : Type 0} (dec : Discrete N) (same_id : Discrete U) (same_hash : Discrete H)
    (hash_key : P → H) (db_name manifest_name : N) (is_sound : D → Bool) (plan : ImportPlan N U)
    (k : N) where
  -- The file is in the source as before, or in the target with the content that it had.
  abbrev pub IsThere : Files N D → Files N D → Type 0
  IsThere start f =
      (lookup dec k f.source ≡ lookup dec k start.source)
      ⊎ ((t : Dict N D) × (f.target ≡ some t) × (lookup dec k t ≡ lookup dec k start.source))

  module _ (moves : plan.move ≡ true) (file : manifest_name ≢ k) where
    in_target :
        (start : Files N D) (source target : Dict N D)
        → IsKept dec start.source k source target
        → IsThere start (record { source = source; target = some target })
    in_target start source target (inl same) = inl same
    in_target start source target (inr (gone, arrived)) = inr (target, refl, arrived)

    left :
        (start : Files N D) (source target : Dict N D)
        → IsKept dec start.source k source target
        → IsThere start (clean_up plan.move (record { source = source; target = some target }))
    unfolding clean_up
    left start source target kept = rw moves (in_target start source target kept)

    insert-IsKept :
        (start : Files N D) (m : D) (source target : Dict N D)
        → IsKept dec start.source k source target
        → IsKept dec start.source k source (insert dec manifest_name m target)
    insert-IsKept start m source target (inl same) = inl same
    insert-IsKept start m source target (inr (gone, arrived)) =
        inr (gone, ground (arith, lookup-insert dec manifest_name k m target, file, arrived))

    -- An attempt of a move ends the import.
    abbrev Ends : Files N D → (Files N D × Registry U H) × Progress P → Type 0
    Ends start ((f, r), done o) = IsThere start f
    Ends start (w, again) = ⊥

    after_create-Ends :
        (start : Files N D) (source target : Dict N D) (a : Registry U H × Answer P)
        → IsKept dec start.source k source target
        → Ends start (
            after_create dec same_id same_hash hash_key db_name manifest_name is_sound plan
              (record { source = source; target = some target })
              a)
    unfolding after_create
    after_create-Ends start source target (r, ok key) kept = in_target start source target kept
    after_create-Ends start source target (r, no_free_port) kept = left start source target kept
    after_create-Ends start source target (r, integrity_error) kept =
        rw moves (in_target start source target kept)

    with_manifest-Ends :
        (start : Files N D) (a : Attempt N U H P D) (r : Registry U H) (port : ℕ)
        (source target : Dict N D) (m : Option D)
        → IsKept dec start.source k source target
        → Ends start (
            with_manifest dec same_id same_hash hash_key db_name manifest_name is_sound plan a r
              port source target m)
    unfolding with_manifest
    with_manifest-Ends start a r port source target none kept = left start source target kept
    with_manifest-Ends start a r port source target (some m) kept =
        after_create-Ends start source (insert dec manifest_name m target) _
          (insert-IsKept start m source target kept)

    after_transfer-Ends :
        (start : Files N D) (a : Attempt N U H P D) (r : Registry U H) (port : ℕ)
        (moved : Dict N D × Dict N D × Bool)
        → AreKept dec start.source k moved
        → Ends start (
            after_transfer dec same_id same_hash hash_key db_name manifest_name is_sound plan a r
              port moved)
    unfolding after_transfer
    after_transfer-Ends start a r port (source, target, through) kept =
        elim (Bool-cases (through && verify_target_db dec db_name is_sound target)) [
          | inl sound ↦ rw sound (with_manifest-Ends start a r port source target a.manifest kept)
          | inr broken ↦ rw broken (left start source target kept)
        ]

    with_allocated-Ends :
        (a : Attempt N U H P D) (f : Files N D) (r : Registry U H) (port : Answer ℕ)
        → Ends f (
            with_allocated dec same_id same_hash hash_key db_name manifest_name is_sound plan a f r
              port)
    unfolding with_allocated clean_up
    with_allocated-Ends a f r (ok port) = after_transfer-Ends f a r port _ (
        transfer-AreKept dec f.source k plan.move a.transfers plan.copy_files f.source []
          (inl refl))
    with_allocated-Ends a f r no_free_port = rw moves (inl refl)
    with_allocated-Ends a f r integrity_error = rw moves (inl refl)

    attempt-Ends :
        (port_lo port_hi : ℕ) (a : Attempt N U H P D) (f : Files N D) (r : Registry U H)
        → Ends f (
            attempt dec same_id same_hash hash_key db_name manifest_name is_sound plan port_lo
              port_hi a
              (f, r))
    unfolding attempt
    attempt-Ends port_lo port_hi a f r = by (is_some f.target)
      where
        by :
            (b : Bool)
            → Ends f (
                if b
                then ((f, r), done target_exists)
                else with_allocated dec same_id same_hash hash_key db_name manifest_name is_sound
                    plan a f r
                    (allocate_port r a.is_port_free port_lo port_hi))
        by true = inl refl
        by false = with_allocated-Ends a f r _

    abbrev Result : Files N D → (Files N D × Registry U H) × Outcome P → Type 0
    Result start ((f, r), o) = IsThere start f

    attempts-Result :
        (port_lo port_hi : ℕ) (later : List (Attempt N U H P D)) (start : Files N D)
        (s : (Files N D × Registry U H) × Progress P)
        → Ends start s
        → Result start (
            attempts dec same_id same_hash hash_key db_name manifest_name is_sound plan port_lo
              port_hi later s)
    unfolding attempts
    attempts-Result port_lo port_hi [] start (w, done o) e = e
    attempts-Result port_lo port_hi (a ∷ later) start (w, done o) e = e
    attempts-Result port_lo port_hi [] start (w, again) e = absurd e
    attempts-Result port_lo port_hi (a ∷ later) start (w, again) e = absurd e

    -- When the plan moves: whatever the import meets and however it ends, each file but the
    -- manifest is in the source as before, or in the target with the content that it had.
    pub execute_import-IsThere :
        (port_lo port_hi : ℕ) (first second third : Attempt N U H P D) (start : Files N D)
        (r : Registry U H)
        → IsThere start
            (execute_import dec same_id same_hash hash_key db_name manifest_name is_sound plan
              port_lo port_hi first second third
              (start, r)).0.0
    unfolding execute_import attempts
    execute_import-IsThere port_lo port_hi first second third start r =
        by (is_some (get_universe same_id r plan.universe_id))
      where
        by :
            (b : Bool)
            → IsThere start
                (if b
                  then ((start, r), already_exists)
                  else attempts dec same_id same_hash hash_key db_name manifest_name is_sound plan
                      port_lo port_hi
                      (first ∷ second ∷ third ∷ [])
                      ((start, r), again)).0.0
        by true = inl refl
        by false =
            attempts-Result port_lo port_hi (second ∷ third ∷ []) start _
              (attempt-Ends port_lo port_hi first start r)
