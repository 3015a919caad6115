-- ===== src/Importer.antt =====
-- gaottt/multiverse/importer.py, `execute_import` and what it calls: a standalone data directory
-- becomes a universe. The source and the target are dictionaries from file names to contents; what
-- an attempt meets of the operating system, of SQLite and of the other processes is its argument.
pub mod Transfer
pub mod Atomic
pub mod Kept
use Prim.Native.String.{String}
use ga_ottt.Base.{
  ℕ, ◌+◌, Bool, true, false, ◌&&◌, not, Option, none, some, List, [], ◌∷◌, ◌++◌, if◌then◌else◌,
  is_some,
}
use ga_ottt.Dict.{Dict, lookup, insert, erase, has}
use ga_ottt.Registry.{
  Registry, Answer, ok, no_free_port, integrity_error, allocate_port, create_universe, get_universe,
}

pub record FilePlan (N R : Type 0) : Type 0 where
  pub copy_files : List N
  pub skipped : List (N × R)
  pub total_bytes : ℕ

-- An entry of the source directory: a file with its size, or something else.
pub record Entry (N : Type 0) : Type 0 where
  pub name : N
  pub is_file : Bool
  pub size : ℕ

pub record ImportPlan (N U : Type 0) : Type 0 where
  pub universe_id : U
  pub owner_label : String
  pub embedder_id : String
  pub embedder_version : String
  pub copy_files : List N
  pub move : Bool

pub record Files (N D : Type 0) : Type 0 where
  pub source : Dict N D
  pub target : Option (Dict N D)

-- What one attempt meets: the bind test of a port, the transfers that the system lets through, the
-- content of the manifest, if it can be written, what other processes do to the registry after the
-- port is chosen, and the fresh key with the time.
pub record Attempt (N U H P D : Type 0) : Type 0 where
  pub is_port_free : ℕ → Bool
  pub transfers : N → Bool
  pub manifest : Option D
  pub meanwhile : Registry U H → Registry U H
  pub fresh_key : P
  pub now : ℕ

pub data Outcome (P : Type 0) : Type 0 where
  imported : P → Outcome P
  already_exists target_exists failed port_race exhausted : Outcome P

-- An attempt ends the import, or lets the loop go on.
pub data Progress (P : Type 0) : Type 0 where
  done : Outcome P → Progress P
  again : Progress P

module _ {N R : Type 0} (dec : Discrete N) where
  -- The first classifier whose needle is in the name; `contains` is the operator `in`.
  unfoldable pub classify_skip :
      {Needle : Type 0} → (Needle → N → Bool) → List (Needle × R) → R → N → R
  classify_skip contains [] unrecognized name = unrecognized
  classify_skip contains ((needle, reason) ∷ classifiers) unrecognized name =
      if contains needle name then reason else classify_skip contains classifiers unrecognized name

  unfoldable pub plan_entry : List N → (N → R) → R → Entry N → FilePlan N R → FilePlan N R
  plan_entry copy_filenames classify directory e p =
      if not e.is_file
      then record p { skipped = (e.name, directory) ∷ p.skipped }
      else if has dec e.name copy_filenames
      then record p { copy_files = e.name ∷ p.copy_files; total_bytes = e.size + p.total_bytes }
      else record p { skipped = (e.name, classify e.name) ∷ p.skipped }

  -- The loop over the sorted entries.
  unfoldable pub compute_file_plan : List N → (N → R) → R → List (Entry N) → FilePlan N R
  unfolding plan_entry
  compute_file_plan copy_filenames classify directory [] = record {
    copy_files = [];
    skipped = [];
    total_bytes = 0;
  }
  compute_file_plan copy_filenames classify directory (e ∷ es) =
      plan_entry copy_filenames classify directory e
        (compute_file_plan copy_filenames classify directory es)

-- `_cleanup_target`, and its omission in move mode
unfoldable pub clean_up : {N D : Type 0} → Bool → Files N D → Files N D
clean_up move f = if move then f else record f { target = none }

module _ {N D : Type 0} (dec : Discrete N) where
  -- `_transfer_one`: the loop over the files, up to the first that raises.
  unfoldable pub transfer :
      Bool → (N → Bool) → List N → Dict N D → Dict N D → Dict N D × Dict N D × Bool
  transfer move transfers [] source target = (source, target, true)
  transfer move transfers (n ∷ ns) source target = elim (lookup dec n source) [
    | none ↦ (source, target, false)
    | some d ↦
        let rest : Dict N D × Dict N D × Bool =
          transfer move transfers ns (if move then erase dec n source else source)
            (insert dec n d target) in
        if transfers n then rest else (source, target, false)
  ]

  -- `_verify_target_db`, where `is_sound` is SQLite's check and the count of the tables
  unfoldable pub verify_target_db : N → (D → Bool) → Dict N D → Bool
  verify_target_db db_name is_sound target = elim (lookup dec db_name target) [
    | none ↦ false
    | some d ↦ is_sound d
  ]

module _ {N U H P D : Type 0} (dec : Discrete N) (same_id : Discrete U) (same_hash : Discrete H)
    (hash_key : P → H) (db_name manifest_name : N) (is_sound : D → Bool)
    (plan : ImportPlan N U) where
  abbrev pub World : Type 0
  World = Files N D × Registry U H

  -- The rows are there, or the port was taken meanwhile.
  unfoldable pub after_create : Files N D → Registry U H × Answer P → World × Progress P
  unfolding clean_up
  after_create f (r, ok key) = ((f, r), done (imported key))
  after_create f (r, no_free_port) = ((clean_up plan.move f, r), done failed)
  after_create f (r, integrity_error) =
      ((clean_up plan.move f, r), if plan.move then done port_race else again)

  -- The manifest, if it can be written, and the rows.
  unfoldable pub with_manifest :
      Attempt N U H P D → Registry U H → ℕ → Dict N D → Dict N D → Option D → World × Progress P
  unfolding after_create clean_up
  with_manifest a r port source target none =
      ((clean_up plan.move (record { source = source; target = some target }), r), done failed)
  with_manifest a r port source target (some m) =
      after_create (record { source = source; target = some (insert dec manifest_name m target) })
        (create_universe same_id same_hash hash_key (a.meanwhile r) plan.universe_id
          plan.owner_label port plan.embedder_id plan.embedder_version a.fresh_key a.now)

  -- With the files in the target: the check, and what follows it.
  unfoldable pub after_transfer :
      Attempt N U H P D → Registry U H → ℕ → Dict N D × Dict N D × Bool → World × Progress P
  unfolding with_manifest clean_up verify_target_db
  after_transfer a r port (source, target, through) =
      if through && verify_target_db dec db_name is_sound target
      then with_manifest a r port source target a.manifest
      else ((clean_up plan.move (record { source = source; target = some target }), r), done failed)

  -- The body of the `try`, on the port that was allocated.
  unfoldable pub with_allocated :
      Attempt N U H P D → Files N D → Registry U H → Answer ℕ → World × Progress P
  unfolding after_transfer transfer clean_up
  with_allocated a f r (ok port) =
      after_transfer a r port (transfer dec plan.move a.transfers plan.copy_files f.source [])
  with_allocated a f r no_free_port =
      ((clean_up plan.move (record f { target = some [] }), r), done failed)
  with_allocated a f r integrity_error = (
    (clean_up plan.move (record f { target = some [] }), r),
    if plan.move then done port_race else again,
  )

  -- One pass of the loop; `mkdir` raises outside of the `try`.
  unfoldable pub attempt : ℕ → ℕ → Attempt N U H P D → World → World × Progress P
  unfolding with_allocated
  attempt port_lo port_hi a (f, r) =
      if is_some f.target
      then ((f, r), done target_exists)
      else with_allocated a f r (allocate_port r a.is_port_free port_lo port_hi)

  -- The loop goes on with the attempts that are left.
  unfoldable pub attempts :
      ℕ → ℕ → List (Attempt N U H P D) → World × Progress P → World × Outcome P
  unfolding attempt
  attempts port_lo port_hi later (w, done o) = (w, o)
  attempts port_lo port_hi [] (w, again) = (w, exhausted)
  attempts port_lo port_hi (a ∷ later) (w, again) =
      attempts port_lo port_hi later (attempt port_lo port_hi a w)

  -- The three attempts of `_MAX_ATTEMPTS`.
  unfoldable pub execute_import :
      ℕ → ℕ → (first second third : Attempt N U H P D) → World → World × Outcome P
  unfolding attempts get_universe
  execute_import port_lo port_hi first second third w =
      if is_some (get_universe same_id w.1 plan.universe_id)
      then (w, already_exists)
      else attempts port_lo port_hi (first ∷ second ∷ third ∷ []) (w, again)
