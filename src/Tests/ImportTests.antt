-- ===== src/Tests/ImportTests.antt =====
-- Examples of the import of a data directory.
use ga_ottt.Base.{
  ℕ, ◌≡◌, refl, Bool, true, false, none, some, [], ◌∷◌, ◌++◌, arith, ltb, ℕ_discrete,
}
use ga_ottt.Dict.{has}
use ga_ottt.Registry.{Registry, Universe, Status}
use ga_ottt.Importer.{ImportPlan, Files, Attempt, execute_import}
use ga_ottt.Importer.Atomic.{IsAllOrNothing, execute_import-IsAllOrNothing}
use ga_ottt.Importer.Kept.{IsThere, execute_import-IsThere}

-- The database is file 1, the index file 2, the manifest file 9.
abbrev plan : Bool → ImportPlan ℕ ℕ
plan move = record {
  universe_id = 5;
  owner_label = "team";
  embedder_id = "ruri";
  embedder_version = "unpinned";
  copy_files = 1 ∷ 2 ∷ [];
  move = move;
}

abbrev standalone : Files ℕ ℕ
standalone = record { source = (1, 10) ∷ (2, 20) ∷ (3, 30) ∷ []; target = none }

abbrev other_universe : Universe ℕ
other_universe = record {
  universe_id = 6;
  owner_label = "other";
  port = 7890;
  status = Status.active;
  embedder_id = "ruri";
  embedder_version = "unpinned";
  created_at = 1;
}

-- Another process takes port 7890 after it was chosen.
abbrev raced : Attempt ℕ ℕ ℕ ℕ ℕ
raced = record {
  is_port_free = λ port. true;
  transfers = λ name. true;
  manifest = some 90;
  meanwhile = λ r. record r { universes = r.universes ++ other_universe ∷ [] };
  fresh_key = 77;
  now = 2;
}

abbrev alone : Attempt ℕ ℕ ℕ ℕ ℕ
alone = record {
  is_port_free = λ port. true;
  transfers = λ name. true;
  manifest = some 90;
  meanwhile = λ r. r;
  fresh_key = 78;
  now = 3;
}

abbrev no_rows : Registry ℕ ℕ
no_rows = record { universes = []; api_keys = [] }

apart : has ℕ_discrete 9 (1 ∷ 2 ∷ []) ≡ false
unfolding has ℕ_discrete
apart = refl

execute_import-IsAllOrNothing_example :
    IsAllOrNothing ℕ_discrete ℕ_discrete ℕ_discrete
      (λ key. key)
      1
      9
      (λ d. ltb 0 d)
      (plan false)
      standalone
      (execute_import ℕ_discrete ℕ_discrete ℕ_discrete
        (λ key. key)
        1
        9
        (λ d. ltb 0 d)
        (plan false)
        7890
        7899
        raced
        alone
        alone
        (standalone, no_rows))
execute_import-IsAllOrNothing_example =
    execute_import-IsAllOrNothing ℕ_discrete ℕ_discrete ℕ_discrete (λ key. key) 1 9 (λ d. ltb 0 d)
      (plan false) refl apart 7890 7899 raced alone alone standalone no_rows

execute_import-IsThere_example :
    IsThere ℕ_discrete ℕ_discrete ℕ_discrete
      (λ key. key)
      1
      9
      (λ d. ltb 0 d)
      (plan true)
      2
      standalone
      (execute_import ℕ_discrete ℕ_discrete ℕ_discrete
        (λ key. key)
        1
        9
        (λ d. ltb 0 d)
        (plan true)
        7890
        7899
        raced
        alone
        alone
        (standalone, no_rows)).0.0
execute_import-IsThere_example =
    execute_import-IsThere ℕ_discrete ℕ_discrete ℕ_discrete (λ key. key) 1 9 (λ d. ltb 0 d)
      (plan true) 2 refl (omega arith) 7890 7899 raced alone alone standalone no_rows
