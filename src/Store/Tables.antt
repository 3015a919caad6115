-- ===== src/Store/Tables.antt =====
-- The tables of gaottt/store/sqlite_store.py as dictionaries from the primary key to the rest of the
-- row, and what one statement does to one table.
use Prim.Native.String.{String}
use ga_ottt.Base.{
  ℕ, Bool, true, false, ◌&&◌, Option, none, some, List, [], ◌∷◌, ite, if◌then◌else◌, leb, not,
}
use ga_ottt.Dict.{Dict, lookup, insert, erase}
use ga_ottt.Dict.Order.{Order, sorted_pair}
use ga_ottt.Node.{NodeState}

pub record Row (K W V : Type 0) : Type 0 where
  pub state : NodeState K W
  pub displacement : Option V
  pub velocity : Option V

module _ {K W V : Type 0} (dec : Discrete K) where
  -- One row of `INSERT … ON CONFLICT(id) DO UPDATE … WHERE excluded.rev >= nodes.rev`
  unfoldable pub upsert_state : Dict K (Row K W V) → NodeState K W → Dict K (Row K W V)
  upsert_state nodes s = elim (lookup dec s.id nodes) [
    | none ↦ insert dec s.id (record { state = s; displacement = none; velocity = none }) nodes
    | some r ↦
        if leb r.state.rev s.rev then insert dec s.id (record r { state = s }) nodes else nodes
  ]

  unfoldable pub upsert_states : Dict K (Row K W V) → List (NodeState K W) → Dict K (Row K W V)
  upsert_states nodes [] = nodes
  upsert_states nodes (s ∷ states) = upsert_states (upsert_state nodes s) states

  -- `UPDATE nodes SET displacement = ? WHERE id = ?`: a node without a row is passed over.
  unfoldable pub update_displacement : Dict K (Row K W V) → K → V → Dict K (Row K W V)
  update_displacement nodes id v = elim (lookup dec id nodes) [
    | none ↦ nodes
    | some r ↦ insert dec id (record r { displacement = some v }) nodes
  ]

  unfoldable pub update_displacements : Dict K (Row K W V) → Dict K V → Dict K (Row K W V)
  update_displacements nodes [] = nodes
  update_displacements nodes ((id, v) ∷ vs) =
      update_displacements (update_displacement nodes id v) vs

  unfoldable pub update_velocity : Dict K (Row K W V) → K → V → Dict K (Row K W V)
  update_velocity nodes id v = elim (lookup dec id nodes) [
    | none ↦ nodes
    | some r ↦ insert dec id (record r { velocity = some v }) nodes
  ]

  unfoldable pub update_velocities : Dict K (Row K W V) → Dict K V → Dict K (Row K W V)
  update_velocities nodes [] = nodes
  update_velocities nodes ((id, v) ∷ vs) = update_velocities (update_velocity nodes id v) vs

module _ {K W V : Type 0} where
  -- `SELECT id, c FROM nodes WHERE c IS NOT NULL`
  unfoldable pub column : (Row K W V → Option V) → Dict K (Row K W V) → Dict K V
  column c [] = []
  column c ((id, r) ∷ nodes) = elim (c r) [
    | none ↦ column c nodes
    | some v ↦ (id, v) ∷ column c nodes
  ]

  -- `UPDATE nodes SET … WHERE …`: the rows that the condition selects are changed.
  unfoldable pub update_rows :
      (K → Row K W V → Bool) → (Row K W V → Row K W V) → Dict K (Row K W V) → Dict K (Row K W V)
  update_rows p f [] = []
  update_rows p f ((id, r) ∷ nodes) = (id, if p id r then f r else r) ∷ update_rows p f nodes

  unfoldable pub is_due : ℕ → Row K W V → Bool
  is_due now r = elim r.state.expires_at [
    | none ↦ false
    | some at ↦ leb at now && not r.state.is_archived
  ]

module _ {K W : Type 0} (pairs : Discrete (K × K)) where
  -- `INSERT OR REPLACE INTO edges`
  unfoldable pub upsert_edges : Dict (K × K) (W × ℕ) → Dict (K × K) (W × ℕ) → Dict (K × K) (W × ℕ)
  upsert_edges table [] = table
  upsert_edges table ((key, e) ∷ es) = upsert_edges (insert pairs key e table) es

module _ {K W : Type 0} (o : Order K) (pairs : Discrete (K × K)) where
  unfoldable pub delete_rows : Dict (K × K) (W × ℕ) → List (K × K) → Dict (K × K) (W × ℕ)
  delete_rows table [] = table
  delete_rows table ((a, b) ∷ ps) = delete_rows (erase pairs (sorted_pair o a b) table) ps

-- `edge_type IS NULL OR edge_type = ?`, as the two branches of the query
unfoldable pub of_type : Discrete String → Option String → String → Bool
of_type same_type none t = true
of_type same_type (some u) t = ite (same_type t u) true false
