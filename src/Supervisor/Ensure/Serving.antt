-- ===== src/Supervisor/Ensure/Serving.antt =====
-- What `_ensure_locked` guarantees of the token that it answers, and of the other universes.
use ga_ottt.Base.{
  ℕ, ◌+◌, ◌≡◌, ◌≢◌, ◌⊎◌, refl, ap, ◌∙◌, inl, inr, Bool, true, false, Option, none, some, arith,
  if◌then◌else◌, Option-cases, Bool-cases,
}
use ga_ottt.Dict.{lookup, insert}
use ga_ottt.Dict.Laws.{lookup-insert, lookup-erase}
use ga_ottt.Registry.{Registry, find_universe}
use ga_ottt.Supervisor.{Supervisor, Probe, probe_ok, probe_unauthorized, probe_down, is_ok, any}
use ga_ottt.Supervisor.Ensure.{
  Meeting, Ensured, serving, universe_inactive, tuning_env_error, not_ready, is_active_row,
  persist_token, read_again, respawn, rotated, probe_or_respawn, ensure_locked,
}

module _ {U T : Type 0} (dec : Discrete U) (same_token : Discrete T) (no_token : T) where
  -- No process is started, or one is, and it is tracked.
  abbrev pub Started : Supervisor U T → U → Supervisor U T → Type 0
  Started s uid s' =
      ((s'.spawned ≡ s.spawned) × (s'.backend_pids ≡ s.backend_pids))
      ⊎ ((s'.spawned ≡ s.spawned + 1) × ((pid : ℕ) × (lookup dec uid s'.backend_pids ≡ some pid)))

  -- Another universe keeps its process and its token.
  abbrev pub Untouched : Supervisor U T → U → Supervisor U T → Type 0
  Untouched s j s' =
      (lookup dec j s'.backend_pids ≡ lookup dec j s.backend_pids)
      × (lookup dec j s'.token_files ≡ lookup dec j s.token_files)

  -- A token that is answered is the one in the file, and the backend has accepted it.
  abbrev pub Accepted : Supervisor U T → U → Meeting T → Ensured T → Type 0
  Accepted s' uid m (serving t) =
      (lookup dec uid s'.token_files ≡ some t)
      × ((m.probe t ≡ probe_ok)
          ⊎ (m.probe_again t ≡ probe_ok)
          ⊎ (any (λ probe. is_ok (probe t)) m.ready_polls ≡ true))
  Accepted s' uid m universe_inactive = Unit
  Accepted s' uid m tuning_env_error = Unit
  Accepted s' uid m not_ready = Unit

  abbrev pub Sound : Supervisor U T → U → U → Meeting T → Supervisor U T × Ensured T → Type 0
  Sound s uid j m (s', e) = Started s uid s' × Untouched s j s' × Accepted s' uid m e

  respawn-Sound :
      (s : Supervisor U T) (uid j : U) (m : Meeting T)
      → j ≢ uid
      → Sound s uid j m (respawn dec same_token no_token s uid m)
  unfolding respawn persist_token
  respawn-Sound s uid j m ne = elim (Option-cases m.process) [
    | inl e ↦ rw (e, respawn) (ground (arith, lookup-insert dec uid j m.fresh s.token_files))
    | inr (pid, e) ↦
        rw (e, respawn)
          (
            inr (ground arith, (pid, ground (arith, lookup-insert dec uid uid pid s.backend_pids))),
            (
              ground (arith, lookup-insert dec uid j pid s.backend_pids),
              ground (arith, lookup-insert dec uid j m.fresh s.token_files),
            ),
            accepted (any (λ probe. is_ok (probe m.fresh)) m.ready_polls) refl pid,
          )
  ]
    where
      accepted :
          (b : Bool)
          → any (λ probe. is_ok (probe m.fresh)) m.ready_polls ≡ b
          → (pid : ℕ)
          → Accepted
              (record s {
                token_files = insert dec uid m.fresh s.token_files;
                backend_pids = insert dec uid pid s.backend_pids;
                spawned = s.spawned + 1;
              })
              uid
              m
              (if b then serving m.fresh else not_ready)
      accepted true e pid =
          (ground (arith, lookup-insert dec uid uid m.fresh s.token_files), inr (inr e))
      accepted false e pid = tt

  -- A change of this universe's token file first.
  Sound-from :
      (s s1 : Supervisor U T) (uid j : U) (m : Meeting T) (a : Supervisor U T × Ensured T)
      → s1.spawned ≡ s.spawned
      → s1.backend_pids ≡ s.backend_pids
      → lookup dec j s1.token_files ≡ lookup dec j s.token_files
      → Sound s1 uid j m a
      → Sound s uid j m a
  Sound-from s s1 uid j m (s', e) p q r (inl (f, g), h, k) =
      (inl (f ∙ p, g ∙ q), (h.0 ∙ ap (lookup dec j) q, h.1 ∙ r), k)
  Sound-from s s1 uid j m (s', e) p q r (inr (f, g), h, k) =
      (inr (f ∙ ap (λ n. n + 1) p, g), (h.0 ∙ ap (lookup dec j) q, h.1 ∙ r), k)

  read_again-Sound :
      (s : Supervisor U T) (uid j : U) (m : Meeting T) (a : Supervisor U T × Ensured T)
      → j ≢ uid
      → Sound (read_again dec same_token no_token s uid m.reread) uid j m a
      → Sound s uid j m a
  unfolding read_again persist_token
  read_again-Sound s uid j m a ne h = elim (Option-cases m.reread) [
    | inl e ↦
        Sound-from s (read_again dec same_token no_token s uid none) uid j m a refl refl
          (ground (arith, lookup-erase dec uid j s.token_files)) (rw e at h)
    | inr (t, e) ↦
        Sound-from s (read_again dec same_token no_token s uid (some t)) uid j m a refl refl
          (ground (arith, lookup-insert dec uid j t s.token_files)) (rw e at h)
  ]

  rotated_accepted :
      (token t : T) (m : Meeting T)
      → rotated dec same_token no_token token m ≡ some t
      → (m.reread ≡ some t) × (m.probe_again t ≡ probe_ok)
  unfolding rotated
  rotated_accepted token t m e = ground arith

  probe_or_respawn-Sound :
      (s : Supervisor U T) (uid j : U) (token : T) (m : Meeting T)
      → j ≢ uid
      → lookup dec uid s.token_files ≡ some token
      → Sound s uid j m (probe_or_respawn dec same_token no_token s uid token m)
  unfolding probe_or_respawn
  probe_or_respawn-Sound s uid j token m ne file = go (m.probe token) refl
    where
      reread :
          (o : Option T)
          → rotated dec same_token no_token token m ≡ o
          → Sound s uid j m (elim o [
            | some t ↦ (read_again dec same_token no_token s uid m.reread, serving t)
            | none ↦
                respawn dec same_token no_token
                  (read_again dec same_token no_token s uid m.reread)
                  uid
                  m
          ])
      reread none e =
          read_again-Sound s uid j m _ ne
            (respawn-Sound (read_again dec same_token no_token s uid m.reread) uid j m ne)
      reread (some t) e =
          let (found, ok) = rotated_accepted token t m e in
          read_again-Sound s uid j m (read_again dec same_token no_token s uid m.reread, serving t)
            ne
            (
              inl (refl, refl),
              (refl, refl),
              (rw found (ground (arith, lookup-insert dec uid uid t s.token_files)), inr (inl ok)),
            )

      go :
          (p : Probe)
          → m.probe token ≡ p
          → Sound s uid j m (elim p [
            | probe_ok ↦ (s, serving token)
            | probe_unauthorized ↦ elim (rotated dec same_token no_token token m) [
              | some t ↦ (read_again dec same_token no_token s uid m.reread, serving t)
              | none ↦
                  respawn dec same_token no_token
                    (read_again dec same_token no_token s uid m.reread)
                    uid
                    m
            ]
            | probe_down ↦ respawn dec same_token no_token s uid m
          ])
      go probe_ok e = (inl (refl, refl), (refl, refl), (file, inl e))
      go probe_unauthorized e = reread (rotated dec same_token no_token token m) refl
      go probe_down e = respawn-Sound s uid j m ne

  -- `_ensure_locked` refuses a universe that is not active and changes nothing; for an active one
  -- it starts no process or one that it then tracks, it leaves the process and the token of any
  -- other universe, and a token that it answers is the one in the file and has been accepted by the
  -- backend.
  pub ensure_locked_lem :
      {H : Type 0} (r : Registry U H) (s : Supervisor U T) (uid j : U) (m : Meeting T)
      → j ≢ uid
      → ((is_active_row (find_universe dec uid r.universes) ≡ false)
          × (ensure_locked dec same_token no_token r s uid m ≡ (s, universe_inactive)))
        ⊎ ((is_active_row (find_universe dec uid r.universes) ≡ true)
            × Sound s uid j m (ensure_locked dec same_token no_token r s uid m))
  unfolding ensure_locked persist_token
  ensure_locked_lem r s uid j m ne =
      elim (Bool-cases (is_active_row (find_universe dec uid r.universes))) [
        | inl e ↦ inr (
          e,
          rw (e, ensure_locked)
              (elim (Option-cases (lookup dec uid s.token_files)) [
                | inl none_yet ↦ rw none_yet (first none_yet)
                | inr (token, file) ↦ rw file (probe_or_respawn-Sound s uid j token m ne file)
              ]),
        )
        | inr e ↦ inl (e, rw (e, ensure_locked) refl)
      ]
    where
      first :
          lookup dec uid s.token_files ≡ none
          → Sound s uid j m (
              probe_or_respawn dec same_token no_token
                (persist_token dec same_token no_token s uid m.first_token)
                uid
                m.first_token
                m)
      first e =
          Sound-from s (persist_token dec same_token no_token s uid m.first_token) uid j m
            (probe_or_respawn dec same_token no_token
              (persist_token dec same_token no_token s uid m.first_token) uid m.first_token m)
            refl refl (ground (arith, lookup-insert dec uid j m.first_token s.token_files))
            (probe_or_respawn-Sound (persist_token dec same_token no_token s uid m.first_token) uid
              j m.first_token m ne
              (ground (arith, lookup-insert dec uid uid m.first_token s.token_files)))
