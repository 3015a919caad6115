-- ===== src/Supervisor/Creation.antt =====
-- The route `POST /admin/universes`: the embedder, a port, a directory with its manifest, and the rows
-- of the registry. The fresh id and key, the bind test and what `/info` says are arguments.
pub mod Answers
use Prim.Native.String.{String}
use ga_ottt.Base.{ℕ, Bool, true, none, some}
use ga_ottt.Dict.{add}
use ga_ottt.Registry.{
  Registry, Answer, ok, no_free_port, integrity_error, allocate_port, create_universe,
}
use ga_ottt.Supervisor.Embedder.{
  Embedder, Calling, EmbedderAnswer, up, validation_error, os_error, ensure_embedder_up,
}
use ga_ottt.Supervisor.Endpoints.{Host, validated}

-- 201 with the id, the key and the port, 400 for the embedder, an uncaught error of its start or of a
-- missing info, the RuntimeError of the range of ports, and an error of the registry.
pub data Creating (U P : Type 0) : Type 0 where
  created : U → P → ℕ → Creating U P
  embedder_invalid embedder_uncaught no_port registry_failed : Creating U P

-- What one call meets and is given: the ids of the embedder are read off its info.
pub record Request (U P I : Type 0) : Type 0 where
  pub calling : Calling I
  pub is_port_free : ℕ → Bool
  pub range_start : ℕ
  pub range_end : ℕ
  pub universe_id : U
  pub owner_label : String
  pub embedder_id : I → String
  pub embedder_version : I → String
  pub plaintext_key : P
  pub now : ℕ

module _ {U T H I P : Type 0} (dec : Discrete U) (same_hash : Discrete H) (hash_key : P → H) where
  unfoldable pub after_rows :
      Host U T H I → U → ℕ → Registry U H × Answer P → Host U T H I × Creating U P
  after_rows h id port (r, ok key) = (record h { registry = r }, created id key port)
  after_rows h id port (r, no_free_port) = (record h { registry = r }, registry_failed)
  after_rows h id port (r, integrity_error) = (record h { registry = r }, registry_failed)

  unfoldable pub with_port :
      Host U T H I → Request U P I → I → Answer ℕ → Host U T H I × Creating U P
  unfolding after_rows
  with_port h q info (ok port) =
      after_rows (record h { dirs = add dec q.universe_id h.dirs }) q.universe_id port
        (create_universe dec same_hash hash_key h.registry q.universe_id q.owner_label port
          (q.embedder_id info) (q.embedder_version info) q.plaintext_key q.now)
  with_port h q info no_free_port = (h, no_port)
  with_port h q info integrity_error = (h, no_port)

  -- With the embedder up: `info.get` of None is an uncaught error.
  unfoldable pub with_embedder :
      Host U T H I → Request U P I → Embedder I × EmbedderAnswer I → Host U T H I × Creating U P
  unfolding with_port
  with_embedder h q (e, up (some info)) =
      with_port (record h { embedder = e }) q info
        (allocate_port h.registry q.is_port_free q.range_start q.range_end)
  with_embedder h q (e, up none) = (record h { embedder = e }, embedder_uncaught)
  with_embedder h q (e, validation_error) = (record h { embedder = e }, embedder_invalid)
  with_embedder h q (e, os_error) = (record h { embedder = e }, embedder_uncaught)

  unfoldable pub create_endpoint : Host U T H I → Request U P I → Host U T H I × Creating U P
  unfolding with_embedder ensure_embedder_up
  create_endpoint h q = with_embedder h q (ensure_embedder_up h.embedder (validated q.calling))
