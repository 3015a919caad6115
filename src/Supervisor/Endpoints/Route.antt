-- ===== src/Supervisor/Endpoints/Route.antt =====
-- `POST /route` on every branch.
use ga_ottt.Base.{
  ◌≡◌, ◌≢◌, ◌⊎◌, ◌∙◌, sym, refl, ap, inl, inr, true, false, none, some, Bool-cases, Option-cases,
}
use ga_ottt.Dict.{add}
use ga_ottt.Registry.{get_universe, verify_api_key}
use ga_ottt.Supervisor.Embedder.{
  Embedder, EmbedderAnswer, up, validation_error, os_error, ensure_embedder_up,
}
use ga_ottt.Supervisor.Ensure.{is_active_row, ensure_locked}
use ga_ottt.Supervisor.Endpoints.{
  Host, Visit, Routing, unauthorized, not_available, embedder_down, embedder_error, validated,
  make_dir, route_backend, after_embedder, route_universe, route,
}
use ga_ottt.Supervisor.Endpoints.Table.{Says, after_ensure-StartSays}
use ga_ottt.Supervisor.Endpoints.Leaves.{Leaves, route_backend-Leaves}

module _ {U T H I P : Type 0} (dec : Discrete U) (same_token : Discrete T) (no_token : T)
    (same_hash : Discrete H) (hash_key : P → H) where
  route_backend-Says :
      (h : Host U T H I) (uid : U) (v : Visit T I)
      → Says dec same_token no_token same_hash hash_key h.registry h.supervisor uid v
          (route_backend dec same_token no_token same_hash hash_key h uid v).1
  unfolding route_backend make_dir
  route_backend-Says h uid v =
      after_ensure-StartSays dec same_token no_token same_hash hash_key
        (record h { dirs = add dec uid h.dirs }) uid v
        (ensure_locked dec same_token no_token h.registry h.supervisor uid v.meeting)

  -- After the embedder: refused with its new state, or the backend's turn, in its directory.
  abbrev pub Answered :
      Host U T H I
      → U
      → U
      → Visit T I
      → Embedder I × EmbedderAnswer I
      → Host U T H I × Routing T
      → Type 0
  Answered h j uid v (e, validation_error) out = (out ≡ (record h { embedder = e }, embedder_down))
  Answered h j uid v (e, os_error) out = (out ≡ (record h { embedder = e }, embedder_error))
  Answered h j uid v (e, up info) out =
      Leaves dec same_token no_token 2 (record h { embedder = e; dirs = add dec uid h.dirs }) uid j
        out
      × Says dec same_token no_token same_hash hash_key h.registry h.supervisor uid v out.1

  after_embedder-Answered :
      (h : Host U T H I) (uid j : U) (v : Visit T I) (a : Embedder I × EmbedderAnswer I)
      → j ≢ uid
      → Answered h j uid v a (after_embedder dec same_token no_token same_hash hash_key h uid v a)
  unfolding after_embedder
  after_embedder-Answered h uid j v (e, validation_error) ne = refl
  after_embedder-Answered h uid j v (e, os_error) ne = refl
  after_embedder-Answered h uid j v (e, up info) ne = (
    route_backend-Leaves dec same_token no_token same_hash hash_key (record h { embedder = e }) uid
        j v ne,
    route_backend-Says (record h { embedder = e }) uid v,
  )

  -- A call whose key belongs to the universe `uid`.
  abbrev pub Resolved : Host U T H I → U → Visit T I → U → Host U T H I × Routing T → Type 0
  Resolved h j v uid out =
      ((is_active_row (get_universe dec h.registry uid) ≡ false) × (out ≡ (h, not_available)))
      ⊎ ((is_active_row (get_universe dec h.registry uid) ≡ true)
          × Answered h j uid v (ensure_embedder_up h.embedder (validated v.calling)) out)

  -- For a key that does not resolve to the universe `j`, POST /route answers 401 and changes
  -- nothing if the key resolves to nothing, and 404 and changes nothing if its universe is not
  -- active. Else the embedder is as `ensure_embedder_up` leaves it. If that call raises, the answer
  -- is 503, or its error when that is uncaught, and nothing else changes; if not, the universe's
  -- directory is added where it was missing, registry and trash are left alone, at most two
  -- backends are started, the process and the token of `j` are as they were, a token that is given
  -- is the one in the universe's file, and the answer is the one that a table gives for what
  -- `_ensure_locked`, the readiness and, where that is `FAILED`, the recycle have given.
  pub route_cases :
      (h : Host U T H I) (key : P) (j : U) (v : Visit T I)
      → verify_api_key dec same_hash hash_key h.registry key ≢ some j
      → let out = route dec same_token no_token same_hash hash_key h key v in
        ((verify_api_key dec same_hash hash_key h.registry key ≡ none) × (out ≡ (h, unauthorized)))
        ⊎ ((uid : U) × (verify_api_key dec same_hash hash_key h.registry key ≡ some uid)
            × Resolved h j v uid out)
  unfolding route route_universe
  route_cases h key j v other =
      elim (Option-cases (verify_api_key dec same_hash hash_key h.registry key)) [
        | inl e ↦ inl (e, rw (route, e) refl)
        | inr (uid, e) ↦ inr (uid, e, rw (route, e) (resolved uid e))
      ]
    where
      resolved :
          (uid : U)
          → verify_api_key dec same_hash hash_key h.registry key ≡ some uid
          → Resolved h j v uid (route_universe dec same_token no_token same_hash hash_key h uid v)
      resolved uid e = elim (Bool-cases (is_active_row (get_universe dec h.registry uid))) [
        | inr inactive ↦ inl (inactive, rw inactive refl)
        | inl active ↦ inr (
          active,
          rw active (
              after_embedder-Answered h uid j v
                (ensure_embedder_up h.embedder (validated v.calling))
                (λ q. other (e ∙ ap some (sym q)))),
        )
      ]
