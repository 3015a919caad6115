-- ===== src/Registry/Tokens.antt =====
-- API keys: what a plaintext resolves to as universes come and go.
use Prim.Native.String.{String}
use ga_ottt.Base.{
  ℕ, ◌≡◌, ◌≢◌, refl, false, Option, none, some, List, [], ◌∷◌, ◌++◌, ite, arith, if◌then◌else◌,
  is_some,
}
use ga_ottt.Registry.{
  Registry, ApiKey, ok, create_universe, verify_api_key, delete_universe, revoke_api_key, find_key,
  hash_taken, revoke_hash, revoke_all_keys,
}

module _ {U H : Type 0} (dec : Discrete H) where
  find_key-append :
      (h : H) (ks : List (ApiKey U H)) (k : ApiKey U H)
      → k.revoked_at ≡ none
      → find_key dec h (ks ++ k ∷ []) ≡ (
          if is_some (find_key dec h ks)
          then find_key dec h ks
          else ite (dec k.key_hash h) (some k.universe_id) none)
  unfolding find_key
  find_key-append h [] k e = ground arith
  find_key-append h (j ∷ ks) k e = ground (arith, find_key-append h ks k e)

  find_key_fresh :
      (h : H) (ks : List (ApiKey U H)) → hash_taken dec h ks ≡ false → find_key dec h ks ≡ none
  unfolding find_key hash_taken
  find_key_fresh h [] e = refl
  find_key_fresh h (k ∷ ks) e = ground (arith, find_key_fresh h ks)

  find_key-revoke_hash :
      (h g : H) (now : ℕ) (ks : List (ApiKey U H))
      → find_key dec g (revoke_hash dec h now ks) ≡ ite (dec h g) none (find_key dec g ks)
  unfolding find_key revoke_hash
  find_key-revoke_hash h g now [] = ground arith
  find_key-revoke_hash h g now (k ∷ ks) = ground (arith, find_key-revoke_hash h g now ks)

module _ {U H : Type 0} (same_id : Discrete U) (dec : Discrete H) where
  -- The primary key of `api_keys`: no hash twice.
  abbrev pub UniqueHashes : List (ApiKey U H) → Type 0
  UniqueHashes [] = Unit {0}
  UniqueHashes (k ∷ ks) = (hash_taken dec k.key_hash ks ≡ false) × UniqueHashes ks

  -- What is left of an answer when a universe goes.
  abbrev pub without : U → Option U → Option U
  without id none = none
  without id (some u) = ite (same_id u id) none (some u)

  hash_taken-revoke_all :
      (id : U) (h : H) (now : ℕ) (ks : List (ApiKey U H))
      → hash_taken dec h (revoke_all_keys same_id id now ks) ≡ hash_taken dec h ks
  unfolding hash_taken revoke_all_keys
  hash_taken-revoke_all id h now [] = refl
  hash_taken-revoke_all id h now (k ∷ ks) = ground (arith, hash_taken-revoke_all id h now ks)

  find_key-revoke_all :
      (id : U) (h : H) (now : ℕ) (ks : List (ApiKey U H))
      → UniqueHashes ks
      → find_key dec h (revoke_all_keys same_id id now ks) ≡ without id (find_key dec h ks)
  unfolding find_key revoke_all_keys
  find_key-revoke_all id h now [] v = refl
  find_key-revoke_all id h now (k ∷ ks) v =
      ground (arith, find_key-revoke_all id h now ks v.1, find_key_fresh dec h ks)

module _ {U H P : Type 0} (same_id : Discrete U) (same_hash : Discrete H) (hash_key : P → H) where
  -- The key that `create_universe` returns resolves to the new universe.
  pub verify-created :
      (r r' : Registry U H) (id : U) (label : String) (port : ℕ) (eid ever : String)
      (key returned : P) (now : ℕ)
      → create_universe same_id same_hash hash_key r id label port eid ever key now
        ≡ (r', ok returned)
      → verify_api_key same_id same_hash hash_key r' returned ≡ some id
  unfolding create_universe verify_api_key
  verify-created r r' id label port eid ever key returned now h =
      let k : ApiKey U H = record {
        key_hash = hash_key key;
        universe_id = id;
        created_at = now;
        revoked_at = none;
      } in
      ground (
        arith,
        find_key-append same_hash (hash_key key) r.api_keys k refl,
        find_key_fresh same_hash (hash_key key) r.api_keys,
      )

  -- When `create_universe` succeeds, the key that it returns resolves to the new universe, and
  -- every key with another hash resolves as before.
  pub verify-create :
      (r r' : Registry U H) (id : U) (label : String) (port : ℕ) (eid ever : String)
      (key returned other : P) (now : ℕ)
      → create_universe same_id same_hash hash_key r id label port eid ever key now
        ≡ (r', ok returned)
      → hash_key other ≢ hash_key key
      → (returned ≡ key)
        × (verify_api_key same_id same_hash hash_key r' returned ≡ some id)
        × (verify_api_key same_id same_hash hash_key r' other
            ≡ verify_api_key same_id same_hash hash_key r other)
  unfolding create_universe verify_api_key
  verify-create r r' id label port eid ever key returned other now h different =
      let k : ApiKey U H = record {
        key_hash = hash_key key;
        universe_id = id;
        created_at = now;
        revoked_at = none;
      } in
      ground (
        arith,
        find_key-append same_hash (hash_key key) r.api_keys k refl,
        find_key-append same_hash (hash_key other) r.api_keys k refl,
        find_key_fresh same_hash (hash_key key) r.api_keys,
      )

  -- With no hash stored twice, `delete_universe` takes away exactly the answers that named the
  -- universe: a key that resolved to it resolves to nothing, any other key resolves as before.
  pub verify-delete :
      (r : Registry U H) (id : U) (key : P) (now : ℕ)
      → UniqueHashes same_id same_hash r.api_keys
      → verify_api_key same_id same_hash hash_key (delete_universe same_id r id now) key
        ≡ without same_id same_hash id (verify_api_key same_id same_hash hash_key r key)
  unfolding verify_api_key delete_universe
  verify-delete r id key now v =
      find_key-revoke_all same_id same_hash id (hash_key key) now r.api_keys v

  -- Revoking a key by its hash ends that hash and no other.
  pub verify-revoke :
      (r : Registry U H) (h : H) (key : P) (now : ℕ)
      → verify_api_key same_id same_hash hash_key (revoke_api_key same_hash r h now) key
        ≡ ite (same_hash h (hash_key key)) none (verify_api_key same_id same_hash hash_key r key)
  unfolding verify_api_key revoke_api_key
  verify-revoke r h key now = find_key-revoke_hash same_hash h (hash_key key) now r.api_keys
