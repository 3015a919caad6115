-- ===== src/Links.antt =====
-- The typed directed edges of `CacheLayer` in gaottt/store/cache.py: `directed_out` lists them by
-- source and `directed_in` by target.
pub mod Rows
pub mod Mirror
use Prim.Native.String.{String}
use ga_ottt.Base.{
  Bool, true, false, ◌||◌, Option, none, some, List, [], ◌∷◌, ite, or_else, keep, not,
}
use ga_ottt.Dict.{Dict, lookup, insert, erase, has, add}

-- A row of the other node and the type of each edge, in the order in which they came.
abbrev pub Rows : Type 0 → Type 0
Rows K = Dict K (List (K × String))

pub record Links (K : Type 0) : Type 0 where
  pub out : Rows K
  pub into : Rows K

unfoldable pub differs {ℓ} : {A : Type ℓ} → Discrete A → A → A → Bool
differs dec a b = ite (dec a b) false true

module _ {K : Type 0} (dec : Discrete K) where
  -- `m.get(a, [])`
  unfoldable pub links : Rows K → K → List (K × String)
  links m a = or_else (lookup dec a m) []

  -- `if a in m`: the row without the entries that fail the test, dropped if nothing is left
  unfoldable pub keep_links : Rows K → K → (K × String → Bool) → Rows K
  keep_links m a p = elim (lookup dec a m) [
    | none ↦ m
    | some es ↦ elim (keep p es) [ [] ↦ erase dec a m | f ∷ fs ↦ insert dec a (f ∷ fs) m ]
  ]

  -- The loops of `evict_node`: the rows of the nodes in a list lose their entries for the node.
  unfoldable pub keep_each : Rows K → List (K × String) → K → Rows K
  unfolding differs
  keep_each m [] id = m
  keep_each m ((a, t) ∷ as') id = keep_each (keep_links m a (λ e. differs dec e.0 id)) as' id

  unfoldable pub evict_directed : Links K → K → Links K
  unfolding links keep_each
  evict_directed l id =
      let into' = keep_each l.into (links l.out id) id in
      record { out = keep_each (erase dec id l.out) (links into' id) id; into = erase dec id into' }

module _ {K : Type 0} (dec : Discrete K) (typed : Discrete (K × String))
    (same_type : Discrete String) where
  -- `m.setdefault(a, [])`, with `e` appended if it is not there
  unfoldable pub add_link : Rows K → K → K × String → Rows K
  unfolding links
  add_link m a e = insert dec a (add typed e (links dec m a)) m

  unfoldable pub set_directed_edge : Links K → K → K → String → Links K
  unfolding add_link
  set_directed_edge l src dst edge_type = record {
    out = add_link l.out src (dst, edge_type);
    into = add_link l.into dst (src, edge_type);
  }

  -- `edge_type is not None and et != edge_type`
  unfoldable pub other_type : Option String → String → Bool
  unfolding differs
  other_type none et = false
  other_type (some t) et = differs same_type et t

  unfoldable pub remove_directed_edge : Links K → K → K → Option String → Links K
  unfolding differs
  remove_directed_edge l src dst edge_type = record {
    out = keep_links dec l.out src (λ e. differs dec e.0 dst || other_type edge_type e.1);
    into = keep_links dec l.into dst (λ e. differs dec e.0 src || other_type edge_type e.1);
  }
