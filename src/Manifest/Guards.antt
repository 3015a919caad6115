-- ===== src/Manifest/Guards.antt =====
-- What the guards let through, and that the manifest of a directory never changes by itself.
use Prim.Native.String.{String}
use ga_ottt.Base.{ℕ, ◌≡◌, ◌↔◌, refl, ◌⊎◌, Bool, true, false, Option, none, some, arith, inl, inr}
use ga_ottt.Manifest.{
  UniverseManifest, Config, Embedder, DataDir, Outcome, ok, os_error, runtime_error, load_manifest,
  write_manifest, ensure_manifest, verify_embedder_identity,
}

abbrev pub passes : {A : Type 0} → Outcome A → Bool
passes (ok a) = true
passes os_error = false
passes runtime_error = false

-- The embedder is let through exactly when its dimension is the configured one and either the check
-- is switched off or both the manifest's dimension and its embedder id match. So the switch never
-- lets a wrong dimension of the embedder pass.
pub passes-verify_embedder_identity :
    (same_text : Discrete String) (m : UniverseManifest) (e : Embedder) (config : Config)
    → (passes (verify_embedder_identity same_text m e config) ≡ true) ↔ (
        (e.dimension ≡ config.embedding_dim)
        × ((config.manifest_check_enabled ≡ false)
            ⊎ ((m.embedding_dim ≡ config.embedding_dim) × (m.embedder_id ≡ e.embedder_id))))
unfolding verify_embedder_identity
passes-verify_embedder_identity same_text m e config = (ground arith, ground arith)

-- Whether the replacement of the file succeeds or fails, `write_manifest` leaves no scratch file.
-- It stores the manifest, or it raises and the stored manifest is the one of before.
pub write_manifest_cases :
    (d : DataDir) (m : UniverseManifest) (replaced : Bool)
    → let (after, answer) = write_manifest d m replaced in
      (after.tmp ≡ none)
      × (((answer ≡ ok tt) × (load_manifest after ≡ some m))
          ⊎ ((answer ≡ os_error) × (load_manifest after ≡ load_manifest d)))
unfolding write_manifest load_manifest
write_manifest_cases d m true = (refl, inl (refl, refl))
write_manifest_cases d m false = (refl, inr (refl, refl))

-- Once `ensure_manifest` has answered a manifest, a second call answers the same one, whatever the
-- configuration and the time have become.
pub ensure_manifest_twice :
    (d : DataDir) (first second : Config) (now later : ℕ) (m : UniverseManifest) (replaced : Bool)
    → (ensure_manifest d first now true).1 ≡ ok m
    → (ensure_manifest (ensure_manifest d first now true).0 second later replaced).1 ≡ ok m
unfolding ensure_manifest write_manifest load_manifest
ensure_manifest_twice d first second now later m replaced h = go d.exists d.manifest d.tmp h
  where
    go :
        (b : Bool) (found tmp : Option UniverseManifest)
        → (ensure_manifest (record { exists = b; manifest = found; tmp = tmp }) first now true).1
          ≡ ok m
        → (ensure_manifest
            (ensure_manifest (record { exists = b; manifest = found; tmp = tmp }) first now true).0
            second
            later
            replaced).1
          ≡ ok m
    go b none tmp e = e
    go b (some old) tmp e = e
