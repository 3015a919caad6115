-- ===== src/Prefetch/Reads.antt =====
-- What a `get` returns: nothing that has expired, what was put last under the key, and whatever the
-- bound on the size did not push out.
use ga_ottt.Base.{
  ℕ, ◌+◌, ◌≤◌, ◌≡◌, ◌≢◌, ◌↔◌, refl, ap, ◌∙◌, Option, none, some, [], ◌∷◌, ◌++◌, arith, length,
  length-append, if◌then◌else◌, ltb, Option-cases, Bool-cases, ◌<◌, inl, inr, is_some,
}
use ga_ottt.Dict.{Dict, lookup, insert, erase}
use ga_ottt.Dict.Laws.{lookup-insert, lookup-erase, lookup-append, length-erase-lt, erase_absent}
use ga_ottt.Prefetch.{Cache, evict, move_to_end, get, put}
use ga_ottt.Prefetch.Entries.{evict_fits, evict_one}
use ga_ottt.Prefetch.Calls.{IsValid}

module _ {K R : Type 0} (dec : Discrete K) where
  -- `get` returns results exactly when the key has an entry that is at most `ttl` old, and then
  -- that entry's.
  pub get-eq-some_iff :
      (c : Cache K R) (key : K) (now : ℕ) (r : R)
      → ((get dec c key now).1 ≡ some r)
        ↔ ((at : ℕ) × (lookup dec key c.entries ≡ some (at, r)) × (now ≤ at + c.ttl))
  unfolding get
  get-eq-some_iff c key now r = elim (Option-cases (lookup dec key c.entries)) [
    | inl e ↦ rw (e, get) ((λ h. cc), (λ h. cc))
    | inr ((at, s), e) ↦
        rw (e, get) ((λ h. (at, ground arith, ground arith)), λ (b, found, fresh). ground arith)
  ]

  move_to_end_new :
      (key : K) (v : ℕ × R) (d : Dict K (ℕ × R))
      → move_to_end dec key (insert dec key v d)
        ≡ erase dec key (insert dec key v d) ++ (key, v) ∷ []
  unfolding move_to_end
  move_to_end_new key v d =
      let e : lookup dec key (insert dec key v d) ≡ some v =
        ground (arith, lookup-insert dec key key v d) in
      rw (e, move_to_end) refl

  erase-insert :
      (key : K) (v : ℕ × R) (d : Dict K (ℕ × R))
      → erase dec key (insert dec key v d) ≡ erase dec key d
  unfolding insert erase
  erase-insert key v [] = ground arith
  erase-insert key v ((j, w) ∷ d) = ground (arith, erase-insert key v d)

  -- The entries before the eviction loop: the key's entry comes last.
  pub put_order :
      (key : K) (v : ℕ × R) (d : Dict K (ℕ × R))
      → move_to_end dec key (insert dec key v d) ≡ erase dec key d ++ (key, v) ∷ []
  put_order key v d =
      move_to_end_new key v d ∙ ap (λ es. es ++ (key, v) ∷ []) (erase-insert key v d)

  -- The loop keeps the last entry.
  lookup-evict_last :
      (n : ℕ) (key : K) (v : ℕ × R) (d : Dict K (ℕ × R)) (k : ℕ)
      → 1 ≤ n
      → lookup dec key d ≡ none
      → lookup dec key (evict n (d ++ (key, v) ∷ []) k).0 ≡ some v
  unfolding evict lookup
  lookup-evict_last n key v [] k h e = ground arith
  lookup-evict_last n key v ((j, w) ∷ d) k h e =
      ground (arith, lookup-evict_last n key v d (k + 1) h, lookup-append dec key d ((key, v) ∷ []))

  pub lookup-put_self :
      (c : Cache K R) (key : K) (r : R) (now : ℕ)
      → 1 ≤ c.max_size
      → lookup dec key (put dec c key r now).entries ≡ some (now, r)
  unfolding put
  lookup-put_self c key r now h = rw (put_order key (now, r) c.entries) (
      lookup-evict_last c.max_size key (now, r) (erase dec key c.entries) c.evictions h
        (ground (arith, lookup-erase dec key key c.entries)))

  -- Right after a `put`, a `get` of the same key returns what was put until `ttl` has passed, and
  -- nothing afterwards.
  pub get-put_self :
      (c : Cache K R) (key : K) (r : R) (now later : ℕ)
      → IsValid dec c
      → (get dec (put dec c key r now) key later).1
        ≡ (if ltb (now + c.ttl) later then none else some r)
  unfolding get
  get-put_self c key r now later v =
      rw (lookup-put_self c key r now v.positive, get) (unfold put in ground arith)

  abbrev head_key : Dict K (ℕ × R) → Option K
  head_key [] = none
  head_key (e ∷ es) = some e.0

  -- The key that a `put` pushes out: the oldest, if the key is new and the cache is full.
  unfoldable pub victim : Cache K R → K → Option K
  victim c key =
      if is_some (lookup dec key c.entries)
      then none
      else if ltb (length c.entries) c.max_size
      then none
      else head_key c.entries

  put_present :
      (c : Cache K R) (key j : K) (e : ℕ × R) (v : ℕ × R) (k : ℕ)
      → length c.entries ≤ c.max_size
      → lookup dec key c.entries ≡ some e
      → j ≢ key
      → lookup dec j (evict c.max_size (erase dec key c.entries ++ (key, v) ∷ []) k).0
        ≡ lookup dec j c.entries
  unfolding lookup
  put_present c key j e v k h found other =
      rw
        (evict_fits c.max_size (erase dec key c.entries ++ (key, v) ∷ []) k (
          omega (
            arith,
            length-append (erase dec key c.entries) ((key, v) ∷ []),
            length-erase-lt dec key e c.entries found,
          )))
        (ground (
          arith,
          lookup-append dec j (erase dec key c.entries) ((key, v) ∷ []),
          lookup-erase dec key j c.entries,
        ))

  put_room :
      (n : ℕ) (key j : K) (v : ℕ × R) (d : Dict K (ℕ × R)) (k : ℕ)
      → length d < n
      → j ≢ key
      → lookup dec j (evict n (d ++ (key, v) ∷ []) k).0 ≡ lookup dec j d
  unfolding lookup
  put_room n key j v d k h other =
      rw (evict_fits n (d ++ (key, v) ∷ []) k (omega (arith, length-append d ((key, v) ∷ []))))
        (ground (arith, lookup-append dec j d ((key, v) ∷ [])))

  put_full :
      (n : ℕ) (key j : K) (v : ℕ × R) (e : K × (ℕ × R)) (d : Dict K (ℕ × R)) (k : ℕ)
      → length (e ∷ d) ≡ n
      → j ≢ key
      → e.0 ≢ j
      → lookup dec j (evict n ((e ∷ d) ++ (key, v) ∷ []) k).0 ≡ lookup dec j (e ∷ d)
  unfolding lookup
  put_full n key j v e d k h other old =
      rw (evict_one n e (d ++ (key, v) ∷ []) k (omega (arith, length-append d ((key, v) ∷ []))))
        (ground (arith, lookup-append dec j d ((key, v) ∷ [])))

  put_new :
      (n : ℕ) (key j : K) (v : ℕ × R) (d : Dict K (ℕ × R)) (k : ℕ)
      → 1 ≤ n
      → length d ≤ n
      → j ≢ key
      → (if ltb (length d) n then none else head_key d) ≢ some j
      → lookup dec j (evict n (d ++ (key, v) ∷ []) k).0 ≡ lookup dec j d
  put_new n key j v [] k p h other old = put_room n key j v [] k p other
  put_new n key j v (e ∷ d) k p h other old = elim (Bool-cases (ltb (length (e ∷ d)) n)) [
    | inl room ↦ put_room n key j v (e ∷ d) k (ground arith) other
    | inr full ↦
        put_full n key j v e d k (ground arith) other (λ same. old (rw full (ap some same)))
  ]

  -- A `put` on a valid cache changes what is stored under no other key, except the one that it
  -- pushes out: the oldest, and only if the key is new and the cache full.
  pub lookup-put_ne :
      (c : Cache K R) (key j : K) (r : R) (now : ℕ)
      → IsValid dec c
      → j ≢ key
      → victim c key ≢ some j
      → lookup dec j (put dec c key r now).entries ≡ lookup dec j c.entries
  unfolding put victim
  lookup-put_ne c key j r now v other kept = elim (Option-cases (lookup dec key c.entries)) [
    | inl new ↦
        rw (put_order key (now, r) c.entries, erase_absent dec key c.entries new)
          (put_new c.max_size key j (now, r) c.entries c.evictions v.positive v.bounded other
            (rw new at kept))
    | inr (e, old) ↦
        rw (put_order key (now, r) c.entries)
          (put_present c key j e (now, r) c.evictions v.bounded old other)
  ]
