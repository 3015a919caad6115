-- ===== src/Supervisor/Creation/Answers.antt =====
-- What `POST /admin/universes` leaves behind, on every answer.
use Prim.Native.String.{String}
use ga_ottt.Base.{
  ℕ, ◌+◌, ◌≤◌, ◌≡◌, ◌≢◌, ◌⊎◌, ◌∙◌, refl, ap, inl, inr, true, false, none, some, arith,
}
use ga_ottt.Dict.{add}
use ga_ottt.Registry.{
  Registry, Answer, ok, no_free_port, integrity_error, id_taken, hash_taken, port_used,
  allocate_port, create_universe, verify_api_key,
}
use ga_ottt.Registry.Ports.{is_free, Allocated, lowest, exhausted, allocate_port-Allocated}
use ga_ottt.Registry.Tokens.{verify-create}
use ga_ottt.Supervisor.Embedder.{
  Embedder, EmbedderAnswer, up, validation_error, os_error, ensure_embedder_up,
}
use ga_ottt.Supervisor.Endpoints.{Host, validated}
use ga_ottt.Supervisor.Creation.{
  Creating, Request, created, embedder_invalid, embedder_uncaught, no_port, registry_failed,
  after_rows, with_port, with_embedder, create_endpoint,
}

module _ {U H P : Type 0} (dec : Discrete U) (same_hash : Discrete H) (hash_key : P → H) where
  create_universe_cases :
      (r r' : Registry U H) (id : U) (label : String) (port : ℕ) (eid ever : String) (key : P)
      (now : ℕ) (a : Answer P)
      → port_used port r.universes ≡ false
      → create_universe dec same_hash hash_key r id label port eid ever key now ≡ (r', a)
      → ((id_taken dec id r.universes ≡ true) × (r' ≡ r) × (a ≡ integrity_error))
        ⊎ ((id_taken dec id r.universes ≡ false)
            × (hash_taken same_hash (hash_key key) r.api_keys ≡ true)
            × (r'.api_keys ≡ r.api_keys)
            × (a ≡ integrity_error))
        ⊎ ((id_taken dec id r.universes ≡ false)
            × (hash_taken same_hash (hash_key key) r.api_keys ≡ false)
            × (a ≡ ok key))
  unfolding create_universe
  create_universe_cases r r' id label port eid ever key now a unused e = ground (arith, unused, e)

module _ {U H I P : Type 0} (dec : Discrete U) (same_hash : Discrete H) (hash_key : P → H) where
  -- The rows: the id is taken, or the hash of the key is, or both rows are there, and then the key
  -- resolves to the new universe and the other key as before.
  abbrev pub Rows : Registry U H → Request U P I → P → ℕ → Registry U H → Creating U P → Type 0
  Rows r q other port r' answer =
      ((id_taken dec q.universe_id r.universes ≡ true) × (r' ≡ r) × (answer ≡ registry_failed))
      ⊎ ((id_taken dec q.universe_id r.universes ≡ false)
          × (hash_taken same_hash (hash_key q.plaintext_key) r.api_keys ≡ true)
          × (r'.api_keys ≡ r.api_keys)
          × (answer ≡ registry_failed))
      ⊎ ((id_taken dec q.universe_id r.universes ≡ false)
          × (hash_taken same_hash (hash_key q.plaintext_key) r.api_keys ≡ false)
          × (answer ≡ created q.universe_id q.plaintext_key port)
          × (verify_api_key dec same_hash hash_key r' q.plaintext_key ≡ some q.universe_id)
          × (verify_api_key dec same_hash hash_key r' other
              ≡ verify_api_key dec same_hash hash_key r other))

module _ {U T H I P : Type 0} (dec : Discrete U) (same_hash : Discrete H) (hash_key : P → H) where
  -- With a port: the directory is there, the supervisor, the embedder and the trash are as before,
  -- and so are the rows.
  abbrev pub Created : Host U T H I → Request U P I → P → ℕ → Host U T H I × Creating U P → Type 0
  Created h q other port (h', answer) =
      (h'.dirs ≡ add dec q.universe_id h.dirs)
      × (h'.supervisor ≡ h.supervisor)
      × (h'.embedder ≡ h.embedder)
      × (h'.trash ≡ h.trash)
      × Rows dec same_hash hash_key h.registry q other port h'.registry answer

  with_port-Created :
      (h : Host U T H I) (q : Request U P I) (info : I) (other : P) (port : ℕ)
      → hash_key other ≢ hash_key q.plaintext_key
      → is_free q.is_port_free h.registry.universes port ≡ true
      → Created h q other port (with_port dec same_hash hash_key h q info (ok port))
  unfolding with_port after_rows
  with_port-Created h q info other port ne free =
      by
        (create_universe dec same_hash hash_key h.registry q.universe_id q.owner_label port
          (q.embedder_id info) (q.embedder_version info) q.plaintext_key q.now)
        refl
    where
      by :
          (a : Registry U H × Answer P)
          → create_universe dec same_hash hash_key h.registry q.universe_id q.owner_label port
              (q.embedder_id info)
              (q.embedder_version info)
              q.plaintext_key
              q.now
            ≡ a
          → Created h q other port (with_port dec same_hash hash_key h q info (ok port))
      by (r', a) e =
          elim (create_universe_cases dec same_hash hash_key h.registry r' q.universe_id
            q.owner_label port (q.embedder_id info) (q.embedder_version info) q.plaintext_key q.now
            a (ground (arith, free)) e) [
              | inl (taken, same, bad) ↦
                  let e' = e ∙ ap (λ z. (r', z)) bad in
                  rw (with_port, e') (refl, refl, refl, refl, inl (taken, same, refl))
              | inr (inl (new, taken, same, bad)) ↦
                  let e' = e ∙ ap (λ z. (r', z)) bad in
                  rw (with_port, e') (refl, refl, refl, refl, inr (inl (new, taken, same, refl)))
              | inr (inr (new, fresh, good)) ↦
                  let e' = e ∙ ap (λ z. (r', z)) good in
                  let (_, mine, others) =
                    verify-create dec same_hash hash_key h.registry r' q.universe_id q.owner_label
                      port (q.embedder_id info) (q.embedder_version info) q.plaintext_key
                      q.plaintext_key other q.now e' ne in
                  rw (with_port, e')
                    (refl, refl, refl, refl, inr (inr (new, fresh, refl, mine, others)))
            ]

  -- By the answer of the search for a port.
  abbrev pub Ported :
      Host U T H I → Request U P I → P → Host U T H I × Creating U P → Answer ℕ → Type 0
  Ported h q other out (ok port) = Created h q other port out
  Ported h q other out no_free_port = (out ≡ (h, no_port))
  Ported h q other out integrity_error = ⊥

  -- The search for a port answers with the lowest free one of the range, or with none when the
  -- range is exhausted.
  abbrev pub Searched : Host U T H I → Request U P I → P → Host U T H I × Creating U P → Type 0
  Searched h q other out =
      (port : Answer ℕ) × Allocated q.is_port_free h.registry.universes q.range_start
        (q.range_end + 1) port
      × Ported h q other out port

  with_port-Searched :
      (h : Host U T H I) (q : Request U P I) (info : I) (other : P) (a : Answer ℕ)
      → hash_key other ≢ hash_key q.plaintext_key
      → Allocated q.is_port_free h.registry.universes q.range_start (q.range_end + 1) a
      → Searched h q other (with_port dec same_hash hash_key h q info a)
  unfolding with_port
  with_port-Searched h q info other a ne (exhausted none_free) =
      (no_free_port, exhausted none_free, refl)
  with_port-Searched h q info other a ne (lowest port from to free first) =
      (ok port, lowest port from to free first, with_port-Created h q info other port ne free)

  -- By the answer of the embedder, with the state that it leaves.
  abbrev pub Answered :
      Host U T H I
      → Request U P I
      → P
      → Host U T H I × Creating U P
      → Embedder I × EmbedderAnswer I
      → Type 0
  Answered h q other out (e, up (some info)) = Searched (record h { embedder = e }) q other out
  Answered h q other out (e, up none) = (out ≡ (record h { embedder = e }, embedder_uncaught))
  Answered h q other out (e, validation_error) =
      (out ≡ (record h { embedder = e }, embedder_invalid))
  Answered h q other out (e, os_error) = (out ≡ (record h { embedder = e }, embedder_uncaught))

  with_embedder-Answered :
      (h : Host U T H I) (q : Request U P I) (other : P) (a : Embedder I × EmbedderAnswer I)
      → q.range_start ≤ q.range_end + 1
      → hash_key other ≢ hash_key q.plaintext_key
      → Answered h q other (with_embedder dec same_hash hash_key h q a) a
  unfolding with_embedder
  with_embedder-Answered h q other (e, up (some info)) range ne =
      with_port-Searched (record h { embedder = e }) q info other
        (allocate_port h.registry q.is_port_free q.range_start q.range_end) ne
        (allocate_port-Allocated h.registry q.is_port_free q.range_start q.range_end range)
  with_embedder-Answered h q other (e, up none) range ne = refl
  with_embedder-Answered h q other (e, validation_error) range ne = refl
  with_embedder-Answered h q other (e, os_error) range ne = refl

  -- On a range of ports that does not end more than one before its start, and for an API key with
  -- another hash than the fresh one, POST of a universe leaves the embedder as `ensure_embedder_up`
  -- leaves it. If that call raises or gives no info, nothing else changes. Else, when the range has
  -- no free port, the answer is `no_port` and nothing else changes; otherwise `port` is its lowest
  -- free port, the directory of the new id is there, the supervisor and the trash are as before,
  -- and one of three holds: the id is taken, the registry is as before and the answer a failure; or
  -- the hash of the fresh key is taken, the keys are as before and the answer a failure; or neither
  -- is, the answer names id, key and port, the fresh key resolves to the new universe, and the
  -- other key as before.
  pub create_endpoint_cases :
      (h : Host U T H I) (q : Request U P I) (other : P)
      → q.range_start ≤ q.range_end + 1
      → hash_key other ≢ hash_key q.plaintext_key
      → Answered h q other
          (create_endpoint dec same_hash hash_key h q)
          (ensure_embedder_up h.embedder (validated q.calling))
  unfolding create_endpoint
  create_endpoint_cases h q other range ne =
      with_embedder-Answered h q other (ensure_embedder_up h.embedder (validated q.calling)) range
        ne
