-- ===== src/Tests/RegistryTests.antt =====
-- gaottt/multiverse/registry.py with two universes on the ports 7900 and 7901; a key is its own hash.
use ga_ottt.Base.{ℕ, ◌≡◌, refl, Bool, none, [], ◌∷◌, ℕ_discrete, map, ◌==◌}
use ga_ottt.Registry.{
  Registry, Universe, ApiKey, Status, ok, create_universe, delete_universe, verify_api_key,
  reconcile, port_used, id_taken, hash_taken,
}
use ga_ottt.Registry.Tokens.{verify-delete, UniqueHashes, without}
use ga_ottt.Registry.Universes.{UniquePorts, UniqueIds, settled, reconcile_lem}

abbrev pub hash : ℕ → ℕ
hash k = k

abbrev plaintext : ℕ
plaintext = 13

abbrev pub universe : ℕ → ℕ → Status → Universe ℕ
universe id port status = record {
  universe_id = id;
  owner_label = "owner";
  port = port;
  status = status;
  embedder_id = "ruri";
  embedder_version = "unpinned";
  created_at = 0;
}

abbrev key : ℕ → ℕ → ApiKey ℕ ℕ
key k id = record { key_hash = k; universe_id = id; created_at = 0; revoked_at = none }

abbrev pub two : Registry ℕ ℕ
two = record {
  universes = universe 1 7900 Status.active ∷ universe 2 7901 Status.active ∷ [];
  api_keys = key 11 1 ∷ key 12 2 ∷ [];
}

bindable : ℕ → Bool
bindable port = port == 7902

abbrev three : Registry ℕ ℕ
three = record {
  universes =
      universe 1 7900 Status.active
      ∷ universe 2 7901 Status.active
      ∷ universe 3 7902 Status.active
      ∷ [];
  api_keys = key 11 1 ∷ key 12 2 ∷ key 13 3 ∷ [];
}

created :
    create_universe ℕ_discrete ℕ_discrete hash two 3 "owner" 7902 "ruri" "unpinned" 13 0
    ≡ (three, ok 13)
unfolding create_universe id_taken port_used hash_taken ℕ_discrete
created = refl

pub two-UniqueHashes : UniqueHashes ℕ_discrete ℕ_discrete two.api_keys
unfolding hash_taken ℕ_discrete
two-UniqueHashes = (refl, (refl, tt))

verify-delete_example :
    verify_api_key ℕ_discrete ℕ_discrete hash (delete_universe ℕ_discrete two 1 50) 11
    ≡ without ℕ_discrete ℕ_discrete 1 (verify_api_key ℕ_discrete ℕ_discrete hash two 11)
verify-delete_example = verify-delete ℕ_discrete ℕ_discrete hash two 1 11 50 two-UniqueHashes

two-UniqueIds : UniqueIds ℕ_discrete two.universes
unfolding id_taken ℕ_discrete
two-UniqueIds = (refl, (refl, tt))

two-UniquePorts : UniquePorts two.universes
unfolding port_used
two-UniquePorts = (refl, (refl, tt))

reconcile_lem_example :
    ((reconcile ℕ_discrete two (2 ∷ [])).universes
      ≡ map (settled ℕ_discrete (2 ∷ [])) two.universes)
    × ((reconcile ℕ_discrete two (2 ∷ [])).api_keys ≡ two.api_keys)
reconcile_lem_example = reconcile_lem ℕ_discrete two (2 ∷ []) two-UniqueIds
