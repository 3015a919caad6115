-- ===== src/Store/Batches.antt =====
-- What a batch of writes leaves under each key.
use ga_ottt.Base.{
  ℕ, ◌≡◌, refl, Option, none, some, List, [], ◌∷◌, ite, if◌then◌else◌, leb, All, arith,
  Option-cases, inl, inr,
}
use ga_ottt.Dict.{Dict, lookup, insert, erase, has}
use ga_ottt.Dict.Laws.{lookup-insert, lookup-erase}
use ga_ottt.Dict.Order.{Order, sorted_pair}
use ga_ottt.Node.{NodeState}
use ga_ottt.Store.Tables.{
  Row, upsert_state, upsert_states, update_displacement, update_displacements, update_velocity,
  update_velocities, upsert_edges, delete_rows,
}

-- The row that an upsert of a state leaves: a stored row with a newer revision stays.
unfoldable pub merged : {K W V : Type 0} → Option (Row K W V) → NodeState K W → Row K W V
merged none s = record { state = s; displacement = none; velocity = none }
merged (some r) s = if leb r.state.rev s.rev then record r { state = s } else r

-- `[d[k] for k in s if k in d]`, with the keys
unfoldable pub collect : {K A : Type 0} → (K → Option A) → List K → Dict K A
collect f [] = []
collect f (k ∷ ks) = elim (f k) [ none ↦ collect f ks | some v ↦ (k, v) ∷ collect f ks ]

unfoldable pub collect_values : {K A : Type 0} → (K → Option A) → List K → List A
collect_values f [] = []
collect_values f (k ∷ ks) = elim (f k) [
  | none ↦ collect_values f ks
  | some v ↦ v ∷ collect_values f ks
]

module _ {K W V : Type 0} (dec : Discrete K) where
  pub lookup-upsert_state :
      (nodes : Dict K (Row K W V)) (s : NodeState K W) (id : K)
      → lookup dec id (upsert_state dec nodes s)
        ≡ ite (dec s.id id) (some (merged (lookup dec id nodes) s)) (lookup dec id nodes)
  unfolding upsert_state merged
  lookup-upsert_state nodes s id = elim (Option-cases (lookup dec s.id nodes)) [
    | inl e ↦
        rw (e, upsert_state)
          (ground (
            arith,
            e,
            lookup-insert dec s.id id (record { state = s; displacement = none; velocity = none })
                nodes,
          ))
    | inr (r, e) ↦
        rw (e, upsert_state)
          (ground (arith, e, lookup-insert dec s.id id (record r { state = s }) nodes))
  ]

  merged_twice :
      (r : Option (Row K W V)) (s : NodeState K W) → merged (some (merged r s)) s ≡ merged r s
  unfolding merged
  merged_twice none s = ground arith
  merged_twice (some r) s = ground arith

  pub lookup-upsert_states :
      (f : K → Option (NodeState K W)) (ids : List K) (nodes : Dict K (Row K W V)) (id : K)
      → ((k : K) (s : NodeState K W) → f k ≡ some s → s.id ≡ k)
      → lookup dec id (upsert_states dec nodes (collect_values f ids)) ≡ (
          if has dec id ids
          then elim (f id) [
            | none ↦ lookup dec id nodes
            | some s ↦ some (merged (lookup dec id nodes) s)
          ]
          else lookup dec id nodes)
  unfolding upsert_states collect_values has
  lookup-upsert_states f [] nodes id named = refl
  lookup-upsert_states f (k ∷ ids) nodes id named = elim (Option-cases (f k)) [
    | inl e ↦ rw (e, collect_values) (ground (arith, e, lookup-upsert_states f ids nodes id named))
    | inr (s, e) ↦
        rw (e, collect_values)
          (ground (
            arith,
            e,
            named k s e,
            lookup-upsert_states f ids (upsert_state dec nodes s) id named,
            lookup-upsert_state nodes s id,
            merged_twice (lookup dec id nodes) s,
          ))
  ]

  -- `UPDATE nodes SET displacement` reaches only a node that has a row.
  abbrev pub with_displacement : Option (Row K W V) → V → Option (Row K W V)
  with_displacement none v = none
  with_displacement (some r) v = some (record r { displacement = some v })

  lookup-update_displacement :
      (nodes : Dict K (Row K W V)) (k : K) (v : V) (id : K)
      → lookup dec id (update_displacement dec nodes k v)
        ≡ ite (dec k id) (with_displacement (lookup dec id nodes) v) (lookup dec id nodes)
  unfolding update_displacement
  lookup-update_displacement nodes k v id = elim (Option-cases (lookup dec k nodes)) [
    | inl e ↦ rw (e, update_displacement) (ground (arith, e))
    | inr (r, e) ↦
        rw (e, update_displacement)
          (ground (arith, e, lookup-insert dec k id (record r { displacement = some v }) nodes))
  ]

  pub lookup-update_displacements :
      (f : K → Option V) (ids : List K) (nodes : Dict K (Row K W V)) (id : K)
      → lookup dec id (update_displacements dec nodes (collect f ids)) ≡ (
          if has dec id ids
          then elim (f id) [
            | none ↦ lookup dec id nodes
            | some v ↦ with_displacement (lookup dec id nodes) v
          ]
          else lookup dec id nodes)
  unfolding update_displacements collect has
  lookup-update_displacements f [] nodes id = refl
  lookup-update_displacements f (k ∷ ids) nodes id = elim (Option-cases (f k)) [
    | inl e ↦ rw (e, collect) (ground (arith, e, lookup-update_displacements f ids nodes id))
    | inr (v, e) ↦
        rw (e, collect)
          (ground (
            arith,
            e,
            lookup-update_displacements f ids (update_displacement dec nodes k v) id,
            lookup-update_displacement nodes k v id,
          ))
  ]

  -- `UPDATE nodes SET velocity` reaches only a node that has a row.
  abbrev pub with_velocity : Option (Row K W V) → V → Option (Row K W V)
  with_velocity none v = none
  with_velocity (some r) v = some (record r { velocity = some v })

  lookup-update_velocity :
      (nodes : Dict K (Row K W V)) (k : K) (v : V) (id : K)
      → lookup dec id (update_velocity dec nodes k v)
        ≡ ite (dec k id) (with_velocity (lookup dec id nodes) v) (lookup dec id nodes)
  unfolding update_velocity
  lookup-update_velocity nodes k v id = elim (Option-cases (lookup dec k nodes)) [
    | inl e ↦ rw (e, update_velocity) (ground (arith, e))
    | inr (r, e) ↦
        rw (e, update_velocity)
          (ground (arith, e, lookup-insert dec k id (record r { velocity = some v }) nodes))
  ]

  pub lookup-update_velocities :
      (f : K → Option V) (ids : List K) (nodes : Dict K (Row K W V)) (id : K)
      → lookup dec id (update_velocities dec nodes (collect f ids)) ≡ (
          if has dec id ids
          then elim (f id) [
            | none ↦ lookup dec id nodes
            | some v ↦ with_velocity (lookup dec id nodes) v
          ]
          else lookup dec id nodes)
  unfolding update_velocities collect has
  lookup-update_velocities f [] nodes id = refl
  lookup-update_velocities f (k ∷ ids) nodes id = elim (Option-cases (f k)) [
    | inl e ↦ rw (e, collect) (ground (arith, e, lookup-update_velocities f ids nodes id))
    | inr (v, e) ↦
        rw (e, collect)
          (ground (
            arith,
            e,
            lookup-update_velocities f ids (update_velocity dec nodes k v) id,
            lookup-update_velocity nodes k v id,
          ))
  ]

module _ {K W : Type 0} (pairs : Discrete (K × K)) where
  pub lookup-upsert_edges :
      (f : K × K → Option (W × ℕ)) (ps : List (K × K)) (table : Dict (K × K) (W × ℕ)) (p : K × K)
      → lookup pairs p (upsert_edges pairs table (collect f ps)) ≡ (
          if has pairs p ps
          then elim (f p) [ none ↦ lookup pairs p table | some e ↦ some e ]
          else lookup pairs p table)
  unfolding upsert_edges collect has
  lookup-upsert_edges f [] table p = refl
  lookup-upsert_edges f (q ∷ ps) table p = elim (Option-cases (f q)) [
    | inl e ↦ rw (e, collect) (ground (arith, e, lookup-upsert_edges f ps table p))
    | inr (v, e) ↦
        rw (e, collect)
          (ground (
            arith,
            e,
            lookup-upsert_edges f ps (insert pairs q v table) p,
            lookup-insert pairs q p v table,
          ))
  ]

module _ {K W : Type 0} (o : Order K) (pairs : Discrete (K × K)) where
  pub lookup-delete_rows :
      (ps : List (K × K)) (table : Dict (K × K) (W × ℕ)) (p : K × K)
      → All (λ q. sorted_pair o q.0 q.1 ≡ q) ps
      → lookup pairs p (delete_rows o pairs table ps)
        ≡ (if has pairs p ps then none else lookup pairs p table)
  unfolding delete_rows has
  lookup-delete_rows [] table p sorted = refl
  lookup-delete_rows ((a, b) ∷ ps) table p sorted = ground (
    arith,
    sorted.0,
    lookup-delete_rows ps (erase pairs (sorted_pair o a b) table) p sorted.1,
    lookup-erase pairs (sorted_pair o a b) p table,
  )
