-- ===== src/Registry/Universes.antt =====
-- The rows of `universes`: ports of live universes and what `reconcile` changes.
use Prim.Native.String.{String}
use ga_ottt.Base.{
  ℕ, ◌≡◌, refl, ◌∙◌, ap, Bool, true, false, ◌&&◌, ◌||◌, List, [], ◌∷◌, ◌++◌, arith, if◌then◌else◌,
  not, ◌==◌, map,
}
use ga_ottt.Dict.{has}
use ga_ottt.Registry.{
  Registry, Universe, Status, is_deleted, is_active, port_used, id_taken, set_status, orphaned,
  orphan_all, create_universe, delete_universe, reconcile,
}

-- The index on live ports: no two universes that are not deleted share a port.
abbrev pub UniquePorts : {U : Type 0} → List (Universe U) → Type 0
UniquePorts [] = Unit
UniquePorts (u ∷ us) = (not (is_deleted u.status) && port_used u.port us ≡ false) × UniquePorts us

port_used-append :
    {U : Type 0} (port : ℕ) (us : List (Universe U)) (v : Universe U)
    → port_used port (us ++ v ∷ [])
      ≡ (port_used port us || (not (is_deleted v.status) && v.port == port))
unfolding port_used
port_used-append port [] v = ground arith
port_used-append port (u ∷ us) v = ground (arith, port_used-append port us v)

append-UniquePorts :
    {U : Type 0} (us : List (Universe U)) (v : Universe U)
    → UniquePorts us
    → port_used v.port us ≡ false
    → UniquePorts (us ++ v ∷ [])
unfolding port_used
append-UniquePorts [] v h fresh = ground arith
append-UniquePorts (u ∷ us) v h fresh =
    ground (arith, append-UniquePorts us v h.1, port_used-append u.port us v)

module _ {U : Type 0} (dec : Discrete U) where
  -- The primary key of `universes`: no id twice.
  abbrev pub UniqueIds : List (Universe U) → Type 0
  UniqueIds [] = Unit {0}
  UniqueIds (u ∷ us) = (id_taken dec u.universe_id us ≡ false) × UniqueIds us

  port_used-delete :
      (port : ℕ) (id : U) (us : List (Universe U))
      → port_used port us ≡ false
      → port_used port (set_status dec Status.deleted id us) ≡ false
  unfolding port_used set_status
  port_used-delete port id [] h = refl
  port_used-delete port id (u ∷ us) h = ground (arith, port_used-delete port id us)

  delete-UniquePorts :
      (id : U) (us : List (Universe U))
      → UniquePorts us
      → UniquePorts (set_status dec Status.deleted id us)
  unfolding set_status
  delete-UniquePorts id [] h = tt
  delete-UniquePorts id (u ∷ us) h =
      ground (arith, delete-UniquePorts id us h.1, port_used-delete u.port id us)

  -- What `reconcile` is for: an active universe whose directory is gone becomes an orphan.
  abbrev pub settled : List U → Universe U → Universe U
  settled dir_names u =
      if is_active u.status && not (has dec u.universe_id dir_names)
      then record u { status = Status.orphan }
      else u

  abbrev marked : List U → Universe U → Universe U
  marked ids u = if has dec u.universe_id ids then record u { status = Status.orphan } else u

  marked-set_status :
      (id : U) (ids : List U) (us : List (Universe U))
      → map (marked ids) (set_status dec Status.orphan id us) ≡ map (marked (id ∷ ids)) us
  unfolding set_status has
  marked-set_status id ids [] = refl
  marked-set_status id ids (u ∷ us) = ground (arith, marked-set_status id ids us)

  map-marked_nil : (us : List (Universe U)) → map (marked []) us ≡ us
  unfolding has
  map-marked_nil [] = refl
  map-marked_nil (u ∷ us) = ap (◌∷◌ u) (map-marked_nil us)

  orphan_all-map :
      (ids : List U) (us : List (Universe U)) → orphan_all dec ids us ≡ map (marked ids) us
  unfolding orphan_all
  orphan_all-map [] us = ground (arith, map-marked_nil us)
  orphan_all-map (id ∷ ids) us =
      orphan_all-map ids (set_status dec Status.orphan id us) ∙ marked-set_status id ids us

  has-orphaned :
      (dirs : List U) (id : U) (us : List (Universe U))
      → id_taken dec id us ≡ false
      → has dec id (orphaned dec dirs us) ≡ false
  unfolding orphaned id_taken has
  has-orphaned dirs id [] h = refl
  has-orphaned dirs id (u ∷ us) h = ground (arith, has-orphaned dirs id us)

  marked-cons :
      (id : U) (ids : List U) (us : List (Universe U))
      → id_taken dec id us ≡ false
      → map (marked (id ∷ ids)) us ≡ map (marked ids) us
  unfolding id_taken has
  marked-cons id ids [] h = refl
  marked-cons id ids (u ∷ us) h = ground (arith, marked-cons id ids us)

  marked_head :
      (ids : List U) (u : Universe U)
      → marked (u.universe_id ∷ ids) u ≡ record u { status = Status.orphan }
  unfolding has
  marked_head ids u = ground arith

  orphaned_cons :
      (dirs : List U) (u : Universe U) (us : List (Universe U))
      → orphaned dec dirs (u ∷ us) ≡ (
          if is_active u.status && not (has dec u.universe_id dirs)
          then u.universe_id ∷ orphaned dec dirs us
          else orphaned dec dirs us)
  unfolding orphaned
  orphaned_cons dirs u us = refl

  marked_cons_step :
      (dirs O : List U) (b : Bool) (u : Universe U) (us : List (Universe U))
      → id_taken dec u.universe_id us ≡ false
      → has dec u.universe_id O ≡ false
      → map (marked O) us ≡ map (settled dirs) us
      → map (marked (if b then u.universe_id ∷ O else O)) (u ∷ us)
        ≡ (if b then record u { status = Status.orphan } else u) ∷ map (settled dirs) us
  marked_cons_step dirs O true u us h g ih =
      rw (marked_head O u, marked-cons u.universe_id O us h, ih) refl
  marked_cons_step dirs O false u us h g ih = rw (g, ih) refl

  marked-orphaned :
      (dirs : List U) (us : List (Universe U))
      → UniqueIds us
      → map (marked (orphaned dec dirs us)) us ≡ map (settled dirs) us
  marked-orphaned dirs [] h = refl
  marked-orphaned dirs (u ∷ us) h =
      ap (λ O. map (marked O) (u ∷ us)) (orphaned_cons dirs u us)
      ∙ marked_cons_step dirs (orphaned dec dirs us)
          (is_active u.status && not (has dec u.universe_id dirs)) u us h.0
          (has-orphaned dirs u.universe_id us h.0) (marked-orphaned dirs us h.1)

  -- With no id twice, `reconcile` turns exactly the active universes whose directory is gone into
  -- orphans: every deleted row, every orphan and every active universe with a directory stays as it
  -- is, no row is added or lost, and no key is touched.
  pub reconcile_lem :
      {H : Type 0} (r : Registry U H) (dir_names : List U)
      → UniqueIds r.universes
      → ((reconcile dec r dir_names).universes ≡ map (settled dir_names) r.universes)
        × ((reconcile dec r dir_names).api_keys ≡ r.api_keys)
  unfolding reconcile
  reconcile_lem r dir_names h = (
    orphan_all-map (orphaned dec dir_names r.universes) r.universes
        ∙ marked-orphaned dir_names r.universes h,
    refl,
  )

module _ {U : Type 0} (dec : Discrete U) where
  port_used-settled :
      (port : ℕ) (dirs : List U) (us : List (Universe U))
      → port_used port (map (settled dec dirs) us) ≡ port_used port us
  unfolding port_used
  port_used-settled port dirs [] = refl
  port_used-settled port dirs (u ∷ us) = ground (arith, port_used-settled port dirs us)

  settled-UniquePorts :
      (dirs : List U) (us : List (Universe U))
      → UniquePorts us
      → UniquePorts (map (settled dec dirs) us)
  settled-UniquePorts dirs [] h = tt
  settled-UniquePorts dirs (u ∷ us) h =
      ground (arith, settled-UniquePorts dirs us h.1, port_used-settled u.port dirs us)

module _ {U H P : Type 0} (same_id : Discrete U) (same_hash : Discrete H) (hash_key : P → H) where
  -- From a table with no id twice and no port shared by live universes, no operation lets two live
  -- universes share a port: not a creation, whether it succeeds or fails, not a deletion, and not a
  -- reconciliation.
  pub operations-UniquePorts :
      (r : Registry U H) (id : U) (label : String) (port : ℕ) (eid ever : String) (key : P)
      (now : ℕ) (dirs : List U)
      → UniquePorts r.universes
      → UniqueIds same_id r.universes
      → UniquePorts
          (create_universe same_id same_hash hash_key r id label port eid ever key now).0.universes
        × UniquePorts (delete_universe same_id r id now).universes
        × UniquePorts (reconcile same_id r dirs).universes
  unfolding create_universe delete_universe
  operations-UniquePorts r id label port eid ever key now dirs h ids =
      let u : Universe U = record {
        universe_id = id;
        owner_label = label;
        port = port;
        status = Status.active;
        embedder_id = eid;
        embedder_version = ever;
        created_at = now;
      } in
      (
        ground (arith, append-UniquePorts r.universes u h),
        delete-UniquePorts same_id id r.universes h,
        rw ((reconcile_lem same_id r dirs ids).0) (settled-UniquePorts same_id dirs r.universes h),
      )
