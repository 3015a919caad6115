-- ===== src/Store.antt =====
-- gaottt/store/sqlite_store.py: the tables `nodes`, `edges` and `directed_edges` and the statements
-- on them. Each table is a dictionary from its primary key to the rest of the row; a method is one
-- transaction. Times are ticks. Documents and their JSON metadata are left out.
pub mod Tables
pub mod Batches
pub mod Deletion
use Prim.Native.String.{String}
use ga_ottt.Base.{
  ℕ, suc, Bool, true, false, ◌&&◌, ◌||◌, Option, none, some, List, [], ◌∷◌, ite, if◌then◌else◌, leb,
  or_else, map, keep, length, not, is_some,
}
use ga_ottt.Dict.{Dict, lookup, insert, erase, has}
use ga_ottt.Dict.Order.{Order, sorted_pair}
use Tables.{
  Row, upsert_states, update_displacements, update_velocities, column, update_rows, is_due,
  upsert_edges, delete_rows, of_type,
}
use ga_ottt.Node.{NodeState}

-- The primary key of `directed_edges` and the columns behind it.
abbrev pub DirectedKey : Type 0 → Type 0
DirectedKey K = K × K × String

pub record DirectedData (W D : Type 0) : Type 0 where
  pub weight : W
  pub created_at : ℕ
  pub metadata : Option D

pub record Store (K W V D : Type 0) : Type 0 where
  pub nodes : Dict K (Row K W V)
  pub edges : Dict (K × K) (W × ℕ)
  pub directed_edges : Dict (DirectedKey K) (DirectedData W D)

module _ {K W V D : Type 0} (dec : Discrete K) where
  unfoldable pub save_node_states : Store K W V D → List (NodeState K W) → Store K W V D
  unfolding upsert_states
  save_node_states st states = record st { nodes = upsert_states dec st.nodes states }

  unfoldable pub get_all_node_states : Store K W V D → List (NodeState K W)
  get_all_node_states st = map (λ e. e.1.state) st.nodes

  unfoldable pub save_displacements : Store K W V D → Dict K V → Store K W V D
  unfolding update_displacements
  save_displacements st vs = record st { nodes = update_displacements dec st.nodes vs }

  unfoldable pub save_velocities : Store K W V D → Dict K V → Store K W V D
  unfolding update_velocities
  save_velocities st vs = record st { nodes = update_velocities dec st.nodes vs }

  unfoldable pub load_displacements : Store K W V D → Dict K V
  unfolding column
  load_displacements st = column (λ r. r.displacement) st.nodes

  unfoldable pub load_velocities : Store K W V D → Dict K V
  unfolding column
  load_velocities st = column (λ r. r.velocity) st.nodes

  unfoldable pub set_archived : Store K W V D → List K → Bool → Store K W V D × ℕ
  unfolding update_rows
  set_archived st ids archived = (
    record st {
      nodes =
          update_rows (λ id r. has dec id ids)
            (λ r. record r { state = record (r.state) { is_archived = archived } }) st.nodes;
    },
    length (keep (λ e. has dec e.0 ids) st.nodes),
  )

  unfoldable pub expire_due_nodes : Store K W V D → ℕ → Store K W V D × ℕ
  unfolding update_rows is_due
  expire_due_nodes st now = (
    record st {
      nodes =
          update_rows (λ id r. is_due now r)
            (λ r. record r { state = record (r.state) { is_archived = true } }) st.nodes;
    },
    length (keep (λ e. is_due now e.1) st.nodes),
  )

  unfoldable pub reset_orbital_state : Store K W V D → Store K W V D × ℕ
  unfolding update_rows
  reset_orbital_state st = (
    record st {
      nodes =
          update_rows (λ id r. true) (λ r. record r { displacement = none; velocity = none })
            st.nodes;
    },
    length st.nodes,
  )

  unfoldable pub reset_velocities : Store K W V D → Store K W V D × ℕ
  unfolding update_rows
  reset_velocities st = (
    record st { nodes = update_rows (λ id r. true) (λ r. record r { velocity = none }) st.nodes },
    length st.nodes,
  )

  unfoldable pub reset_masses : Store K W V D → W → Store K W V D × ℕ
  unfolding update_rows
  reset_masses st value = (
    record st {
      nodes =
          update_rows (λ id r. true) (λ r. record r { state = record (r.state) { mass = value } })
            st.nodes;
    },
    length st.nodes,
  )

  -- The deletion of the nodes themselves; the count is that of the rows in `nodes`.
  unfoldable pub hard_delete_nodes : Store K W V D → List K → Store K W V D × ℕ
  hard_delete_nodes st ids = (
    record {
      nodes = keep (λ e. not (has dec e.0 ids)) st.nodes;
      edges = keep (λ e. not (has dec e.0.0 ids || has dec e.0.1 ids)) st.edges;
      directed_edges = keep (λ e. not (has dec e.0.0 ids || has dec e.0.1 ids)) st.directed_edges;
    },
    length (keep (λ e. has dec e.0 ids) st.nodes),
  )

module _ {K W V D : Type 0} (dec : Discrete K) (pairs : Discrete (K × K)) where
  unfoldable pub save_edges : Store K W V D → Dict (K × K) (W × ℕ) → Store K W V D
  unfolding upsert_edges
  save_edges st es = record st { edges = upsert_edges pairs st.edges es }

module _ {K W V D : Type 0} (o : Order K) (pairs : Discrete (K × K)) where
  -- The number of rows that it returns, which its callers drop, is left out.
  unfoldable pub delete_edges : Store K W V D → List (K × K) → Store K W V D
  unfolding delete_rows
  delete_edges st ps = record st { edges = delete_rows o pairs st.edges ps }

module _ {K W V D : Type 0} (dec : Discrete K) (keyed : Discrete (DirectedKey K)) where
  unfoldable pub upsert_directed_edge :
      Store K W V D → DirectedKey K → DirectedData W D → Store K W V D
  upsert_directed_edge st key e = record st {
    directed_edges = insert keyed key e st.directed_edges;
  }

module _ {K W V D : Type 0} (dec : Discrete K) (same_type : Discrete String) where
  unfoldable pub delete_directed_edge : Store K W V D → K → K → Option String → Store K W V D × ℕ
  unfolding of_type
  delete_directed_edge st src dst edge_type =
      let hit : DirectedKey K × DirectedData W D → Bool = λ e.
        ite (dec e.0.0 src) (ite (dec e.0.1 dst) (of_type same_type edge_type e.0.2) false) false in
      (
        record st { directed_edges = keep (λ e. not (hit e)) st.directed_edges },
        length (keep hit st.directed_edges),
      )

  unfoldable pub delete_directed_edges_for_node : Store K W V D → K → Store K W V D × ℕ
  delete_directed_edges_for_node st id =
      let hit : DirectedKey K × DirectedData W D → Bool =
        λ e. ite (dec e.0.0 id) true (ite (dec e.0.1 id) true false) in
      (
        record st { directed_edges = keep (λ e. not (hit e)) st.directed_edges },
        length (keep hit st.directed_edges),
      )
