-- ===== src/Manifest.antt =====
-- gaottt/store/manifest.py: the manifest of a universe and the two guards against a silent change of
-- the embedder. The file's text is its parsed content; JSON, logging and the clock are left to their
-- libraries, the time and the outcome of `os.replace` are arguments.
pub mod Guards
use Prim.Native.String.{String}
use ga_ottt.Base.{ℕ, ◌==◌, Bool, true, false, Option, none, some, ite, if◌then◌else◌, not}

pub record UniverseManifest : Type 0 where
  pub schema_version : ℕ
  pub universe_id : String
  pub embedder_id : String
  pub embedder_version : String
  pub embedding_dim : ℕ
  pub created_at : ℕ
  pub managed : Bool

pub record Config : Type 0 where
  pub model_name : String
  pub embedding_dim : ℕ
  pub manifest_check_enabled : Bool

pub record Embedder : Type 0 where
  pub dimension : ℕ
  pub embedder_id : String
  pub embedder_version : String

-- `manifest.json` in the data directory, and the scratch file of this writer.
pub record DataDir : Type 0 where
  pub exists : Bool
  pub manifest : Option UniverseManifest
  pub tmp : Option UniverseManifest

pub data Outcome (A : Type 0) : Type 0 where
  ok : A → Outcome A
  os_error runtime_error : Outcome A

unfoldable pub load_manifest : DataDir → Option UniverseManifest
load_manifest d = d.manifest

-- `replaced` says whether `os.replace` succeeds; if it fails the scratch file is unlinked.
unfoldable pub write_manifest : DataDir → UniverseManifest → Bool → DataDir × Outcome Unit
write_manifest d m replaced =
    let d' : DataDir = record d { exists = true; tmp = some m } in
    if replaced
    then (record d' { manifest = d'.tmp; tmp = none }, ok tt)
    else (record d' { tmp = none }, os_error)

unfoldable pub ensure_manifest : DataDir → Config → ℕ → Bool → DataDir × Outcome UniverseManifest
unfolding load_manifest write_manifest
ensure_manifest d config now replaced =
    let d' : DataDir = record d { exists = true } in
    elim (load_manifest d') [
      | some m ↦ (d', ok m)
      | none ↦
          let m : UniverseManifest = record {
            schema_version = 1;
            universe_id = "default";
            embedder_id = config.model_name;
            embedder_version = "unpinned";
            embedding_dim = config.embedding_dim;
            created_at = now;
            managed = false;
          } in
          let (d'', answer) = write_manifest d' m replaced in
          (d'', elim answer [ ok u ↦ ok m | os_error ↦ os_error | runtime_error ↦ runtime_error ])
    ]

-- The warnings of the call, which never stop it.
pub record Warnings : Type 0 where
  pub dimension : Bool
  pub identity : Bool
  pub version : Bool

unfoldable pub verify_embedder_identity :
    Discrete String → UniverseManifest → Embedder → Config → Outcome Warnings
verify_embedder_identity same_text m e config =
    let dim_differs = not (m.embedding_dim == config.embedding_dim) in
    let id_differs = ite (same_text m.embedder_id e.embedder_id) false true in
    if not (e.dimension == config.embedding_dim)
    then runtime_error
    else if (if dim_differs then config.manifest_check_enabled else false)
    then runtime_error
    else if (if id_differs then config.manifest_check_enabled else false)
    then runtime_error
    else ok (record {
      dimension = dim_differs;
      identity = id_differs;
      version = ite (same_text m.embedder_version e.embedder_version) false true;
    })
