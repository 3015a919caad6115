-- ===== src/Registry.antt =====
-- gaottt/multiverse/registry.py, `MultiverseRegistry`: which universe lives at which port, and which
-- API key belongs to which universe. The two tables of registry.db are lists of rows in the order of
-- insertion, with the schema's constraints checked on insertion. SHA-256, the fresh random key, the
-- bind test of a port and the clock are arguments. A failed statement leaves the earlier ones of its
-- method in the open transaction, which the connection goes on to see.
pub mod Ports
pub mod Tokens
pub mod Universes
use Prim.Native.String.{String}
use ga_ottt.Base.{
  ℕ, zero, suc, ◌+◌, ◌-◌, Bool, true, false, ◌&&◌, ◌||◌, Option, none, some, List, [], ◌∷◌, ◌++◌,
  ite, ◌==◌, ltb, if◌then◌else◌, not, map,
}
use ga_ottt.Dict.{has}

pub data Status : Type 0 where
  active orphan deleted : Status

pub record Universe (U : Type 0) : Type 0 where
  pub universe_id : U
  pub owner_label : String
  pub port : ℕ
  pub status : Status
  pub embedder_id : String
  pub embedder_version : String
  pub created_at : ℕ

pub record ApiKey (U H : Type 0) : Type 0 where
  pub key_hash : H
  pub universe_id : U
  pub created_at : ℕ
  pub revoked_at : Option ℕ

pub record Registry (U H : Type 0) : Type 0 where
  pub universes : List (Universe U)
  pub api_keys : List (ApiKey U H)

pub data Answer (A : Type 0) : Type 0 where
  ok : A → Answer A
  no_free_port integrity_error : Answer A

abbrev pub is_deleted : Status → Bool
is_deleted Status.active = false
is_deleted Status.orphan = false
is_deleted Status.deleted = true

abbrev pub is_active : Status → Bool
is_active Status.active = true
is_active Status.orphan = false
is_active Status.deleted = false

-- Is the port that of a universe which is not deleted?
unfoldable pub port_used : {U : Type 0} → ℕ → List (Universe U) → Bool
port_used port [] = false
port_used port (u ∷ us) = (not (is_deleted u.status) && u.port == port) || port_used port us

-- The loop of `allocate_port` over `count` ports from `port` on
unfoldable pub first_free : {U : Type 0} → (ℕ → Bool) → List (Universe U) → ℕ → ℕ → Answer ℕ
first_free is_port_free us port zero = no_free_port
first_free is_port_free us port (suc count) =
    let later = first_free is_port_free us (port + 1) count in
    if port_used port us then later else if not (is_port_free port) then later else ok port

module _ {U H : Type 0} where
  unfoldable pub allocate_port : Registry U H → (ℕ → Bool) → ℕ → ℕ → Answer ℕ
  unfolding first_free
  allocate_port r is_port_free range_start range_end =
      first_free is_port_free r.universes range_start (range_end + 1 - range_start)

module _ {U : Type 0} (dec : Discrete U) where
  unfoldable pub id_taken : U → List (Universe U) → Bool
  id_taken id [] = false
  id_taken id (u ∷ us) = ite (dec u.universe_id id) true (id_taken id us)

  -- `UPDATE universes SET status = ? WHERE universe_id = ?`
  unfoldable pub set_status : Status → U → List (Universe U) → List (Universe U)
  set_status s id [] = []
  set_status s id (u ∷ us) =
      ite (dec u.universe_id id) (record u { status = s }) u ∷ set_status s id us

  unfoldable pub find_universe : U → List (Universe U) → Option (Universe U)
  find_universe id [] = none
  find_universe id (u ∷ us) = ite (dec u.universe_id id) (some u) (find_universe id us)

  -- The active universes whose directory is gone.
  unfoldable pub orphaned : List U → List (Universe U) → List U
  orphaned dir_names [] = []
  orphaned dir_names (u ∷ us) =
      if is_active u.status && not (has dec u.universe_id dir_names)
      then u.universe_id ∷ orphaned dir_names us
      else orphaned dir_names us

  unfoldable pub orphan_all : List U → List (Universe U) → List (Universe U)
  orphan_all [] us = us
  orphan_all (id ∷ ids) us = orphan_all ids (set_status Status.orphan id us)

module _ {U H : Type 0} (dec : Discrete H) where
  unfoldable pub hash_taken : H → List (ApiKey U H) → Bool
  hash_taken h [] = false
  hash_taken h (k ∷ ks) = ite (dec k.key_hash h) true (hash_taken h ks)

  -- `SELECT universe_id FROM api_keys WHERE key_hash = ? AND revoked_at IS NULL`
  unfoldable pub find_key : H → List (ApiKey U H) → Option U
  find_key h [] = none
  find_key h (k ∷ ks) = elim k.revoked_at [
    | none ↦ ite (dec k.key_hash h) (some k.universe_id) (find_key h ks)
    | some at ↦ find_key h ks
  ]

  unfoldable pub revoke_hash : H → ℕ → List (ApiKey U H) → List (ApiKey U H)
  revoke_hash h now [] = []
  revoke_hash h now (k ∷ ks) =
      elim k.revoked_at [
        | none ↦ ite (dec k.key_hash h) (record k { revoked_at = some now }) k
        | some at ↦ k
      ]
      ∷ revoke_hash h now ks

module _ {U H : Type 0} (dec : Discrete U) where
  unfoldable pub revoke_all_keys : U → ℕ → List (ApiKey U H) → List (ApiKey U H)
  revoke_all_keys id now [] = []
  revoke_all_keys id now (k ∷ ks) =
      elim k.revoked_at [
        | none ↦ ite (dec k.universe_id id) (record k { revoked_at = some now }) k
        | some at ↦ k
      ]
      ∷ revoke_all_keys id now ks

module _ {U H P : Type 0} (same_id : Discrete U) (same_hash : Discrete H) (hash_key : P → H) where
  -- The two insertions of `create_universe`, under the primary key and the index on live ports of
  -- the first and the primary key of the second.
  unfoldable pub create_universe :
      Registry U H → U → String → ℕ → String → String → P → ℕ → Registry U H × Answer P
  create_universe r id owner_label port embedder_id embedder_version plaintext now =
      if id_taken same_id id r.universes || port_used port r.universes
      then (r, integrity_error)
      else let us : List (Universe U) =
          r.universes
          ++ record {
            universe_id = id;
            owner_label = owner_label;
            port = port;
            status = Status.active;
            embedder_id = embedder_id;
            embedder_version = embedder_version;
            created_at = now;
          }
            ∷ [] in
        if hash_taken same_hash (hash_key plaintext) r.api_keys
        then (record r { universes = us }, integrity_error)
        else (
          record {
            universes = us;
            api_keys =
                r.api_keys
                ++ record {
                  key_hash = hash_key plaintext;
                  universe_id = id;
                  created_at = now;
                  revoked_at = none;
                }
                  ∷ [];
          },
          ok plaintext,
        )

  unfoldable pub verify_api_key : Registry U H → P → Option U
  unfolding find_key
  verify_api_key r plaintext = find_key same_hash (hash_key plaintext) r.api_keys

module _ {U H : Type 0} (dec : Discrete U) where
  unfoldable pub delete_universe : Registry U H → U → ℕ → Registry U H
  delete_universe r id now = record {
    universes = set_status dec Status.deleted id r.universes;
    api_keys = revoke_all_keys dec id now r.api_keys;
  }

  unfoldable pub get_universe : Registry U H → U → Option (Universe U)
  unfolding find_universe
  get_universe r id = find_universe dec id r.universes

  -- `dir_names` are the directories under `universes/`. The updates are independent of the order
  -- that `sorted` gives them; the warnings on unknown directories change nothing.
  unfoldable pub reconcile : Registry U H → List U → Registry U H
  unfolding orphaned orphan_all
  reconcile r dir_names = record r {
    universes = orphan_all dec (orphaned dec dir_names r.universes) r.universes;
  }

module _ {U H : Type 0} (dec : Discrete H) where
  unfoldable pub revoke_api_key : Registry U H → H → ℕ → Registry U H
  unfolding revoke_hash
  revoke_api_key r key_hash now = record r { api_keys = revoke_hash dec key_hash now r.api_keys }
