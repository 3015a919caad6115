-- ===== src/Lifecycle/Forgetting.antt =====
-- What `forget` leaves of the nodes that it is given, and of the others.
use ga_ottt.Base.{
  ℕ, ◌≡◌, refl, ◌∙◌, Bool, true, false, Option, none, some, List, arith, if◌then◌else◌, keep, not,
  length,
}
use ga_ottt.Dict.{lookup, has}
use ga_ottt.Dict.Order.{Order}
use ga_ottt.Cache.{Cache}
use ga_ottt.Cache.Flush.{flush_to_store}
use ga_ottt.Store.{Store, set_archived, hard_delete_nodes}
use ga_ottt.Store.Tables.{Row}
use ga_ottt.Lifecycle.{Memory, Change, changed}
use ga_ottt.Lifecycle.Evictions.{flagged, mapped_if, lookup-update_rows, lookup-kept}

module _ {K W V : Type 0} (dec : Discrete K) where
  -- The row of a node that is forgotten is gone, or flagged.
  abbrev pub forgotten : Bool → Bool → Option (Row K W V) → Option (Row K W V)
  forgotten hard false row = row
  forgotten true true row = none
  forgotten false true row = mapped_if dec true (flagged dec true) row

  not_hit :
      (hit : Bool) (row : Option (Row K W V))
      → (if not hit then row else none) ≡ forgotten true hit row
  not_hit true row = refl
  not_hit false row = refl

  flag_hit :
      (hit : Bool) (row : Option (Row K W V))
      → mapped_if dec hit (flagged dec true) row ≡ forgotten false hit row
  flag_hit true none = refl
  flag_hit true (some r) = refl
  flag_hit false none = refl
  flag_hit false (some r) = refl

module _ {K W V D : Type 0} (o : Order K) (pairs : Discrete (K × K)) where
  pub node_cache-flush :
      (c : Cache K W V) (st : Store K W V D) (now : ℕ)
      → (flush_to_store o pairs c st now).0.node_cache ≡ c.node_cache
  unfolding flush_to_store
  node_cache-flush c st now = ground arith

  pub nodes-hard_delete_nodes :
      (st : Store K W V D) (ids : List K) (k : K)
      → lookup o.dec k (hard_delete_nodes o.dec st ids).0.nodes
        ≡ forgotten o.dec true (has o.dec k ids) (lookup o.dec k st.nodes)
  unfolding hard_delete_nodes
  nodes-hard_delete_nodes st ids k =
      lookup-kept o.dec (λ id. not (has o.dec id ids)) st.nodes k
      ∙ not_hit o.dec (has o.dec k ids) (lookup o.dec k st.nodes)

  pub nodes-set_archived :
      (st : Store K W V D) (ids : List K) (k : K)
      → lookup o.dec k (set_archived o.dec st ids true).0.nodes
        ≡ forgotten o.dec false (has o.dec k ids) (lookup o.dec k st.nodes)
  unfolding set_archived
  nodes-set_archived st ids k =
      lookup-update_rows o.dec (λ id. has o.dec id ids) (flagged o.dec true) st.nodes k
      ∙ flag_hit o.dec (has o.dec k ids) (lookup o.dec k st.nodes)

  abbrev rows_after : Store K W V D → List K → Bool → Store K W V D × ℕ
  rows_after st ids true = hard_delete_nodes o.dec st ids
  rows_after st ids false = set_archived o.dec st ids true

module _ {K W V D T X Q R : Type 0} (o : Order K) (pairs : Discrete (K × K))
    (same_term : Discrete T) (tokenize : X → List T) (is_empty : X → Bool) where
  abbrev pub Forgotten :
      Memory K W V D T X Q R → List K → Bool → ℕ → K → Memory K W V D T X Q R × Change → Type 0
  Forgotten m ids hard now k (m', answer) =
      let flushed = flush_to_store o pairs m.cache m.store now in
      (lookup o.dec k m'.cache.node_cache
        ≡ (if has o.dec k ids then none else lookup o.dec k m.cache.node_cache))
      × (lookup o.dec k m'.store.nodes
          ≡ forgotten o.dec hard (has o.dec k ids) (lookup o.dec k flushed.1.nodes))
      × (answer ≡ changed (length (keep (λ e. has o.dec e.0 ids) flushed.1.nodes)))
