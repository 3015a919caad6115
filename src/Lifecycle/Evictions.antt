-- ===== src/Lifecycle/Evictions.antt =====
-- What evictions leave in the cache, and what statements on many rows leave under a key.
use ga_ottt.Base.{
  ◌<◌, ◌≡◌, refl, Bool, true, false, Option, none, some, List, [], ◌∷◌, arith, if◌then◌else◌,
  length, keep, All, ltb, Option-cases, inl, inr,
}
use ga_ottt.Dict.{Dict, keys, lookup, has}
use ga_ottt.Dict.Laws.{lookup-erase}
use ga_ottt.Dict.Order.{Order}
use ga_ottt.Cache.{Cache, evict_node}
use ga_ottt.Store.Tables.{Row, update_rows}
use ga_ottt.Lifecycle.{evict_all}

module _ {K W V : Type 0} (o : Order K) (pairs : Discrete (K × K)) where
  pub node_cache-evict_all :
      (ids : List K) (c : Cache K W V) (k : K)
      → lookup o.dec k (evict_all o pairs ids c).node_cache
        ≡ (if has o.dec k ids then none else lookup o.dec k c.node_cache)
  unfolding evict_all evict_node has
  node_cache-evict_all [] c k = refl
  node_cache-evict_all (id ∷ ids) c k = ground (
    arith,
    node_cache-evict_all ids (evict_node o pairs c id) k,
    lookup-erase o.dec id k c.node_cache,
  )

  pub displacement_cache-evict_all :
      (ids : List K) (c : Cache K W V) (k : K)
      → lookup o.dec k (evict_all o pairs ids c).displacement_cache
        ≡ (if has o.dec k ids then none else lookup o.dec k c.displacement_cache)
  unfolding evict_all evict_node has
  displacement_cache-evict_all [] c k = refl
  displacement_cache-evict_all (id ∷ ids) c k = ground (
    arith,
    displacement_cache-evict_all ids (evict_node o pairs c id) k,
    lookup-erase o.dec id k c.displacement_cache,
  )

  pub tags-evict_all :
      (ids : List K) (c : Cache K W V) (k : K)
      → lookup o.dec k (evict_all o pairs ids c).tags_by_id
        ≡ (if has o.dec k ids then none else lookup o.dec k c.tags_by_id)
  unfolding evict_all evict_node has
  tags-evict_all [] c k = refl
  tags-evict_all (id ∷ ids) c k =
      ground (
        arith,
        tags-evict_all ids (evict_node o pairs c id) k,
        lookup-erase o.dec id k c.tags_by_id,
      )

module _ {K A : Type 0} (dec : Discrete K) where
  pub lookup-kept :
      (hit : K → Bool) (nodes : Dict K A) (k : K)
      → lookup dec k (keep (λ e. hit e.0) nodes) ≡ (if hit k then lookup dec k nodes else none)
  unfolding lookup
  lookup-kept hit [] k = ground arith
  lookup-kept hit ((j, r) ∷ nodes) k = ground (arith, lookup-kept hit nodes k)

  -- A row that is hit counts.
  pub counted :
      (hit : K → Bool) (nodes : Dict K A) (k : K) (r : A)
      → hit k ≡ true
      → lookup dec k nodes ≡ some r
      → 0 < length (keep (λ e. hit e.0) nodes)
  unfolding lookup
  counted hit [] k r h e = cc
  counted hit ((j, x) ∷ nodes) k r h e = ground (arith, counted hit nodes k r h)

  pub uncounted :
      (hit : K → Bool) (rows : Dict K A) (k : K)
      → hit k ≡ true
      → ltb 0 (length (keep (λ e. hit e.0) rows)) ≡ false
      → lookup dec k rows ≡ none
  uncounted hit rows k h few = elim (Option-cases (lookup dec k rows)) [
    | inl e ↦ e
    | inr (r, e) ↦ absurd (ground (arith, counted hit rows k r h e))
  ]

module _ {K W V : Type 0} (dec : Discrete K) where
  -- The row with the flag `is_archived` set.
  abbrev pub flagged : Bool → Row K W V → Row K W V
  flagged b r = record r { state = record (r.state) { is_archived = b } }

  abbrev pub mapped_if : Bool → (Row K W V → Row K W V) → Option (Row K W V) → Option (Row K W V)
  mapped_if hit f none = none
  mapped_if false f (some r) = some r
  mapped_if true f (some r) = some (f r)

  pub lookup-update_rows :
      (hit : K → Bool) (f : Row K W V → Row K W V) (nodes : Dict K (Row K W V)) (k : K)
      → lookup dec k (update_rows (λ id r. hit id) f nodes)
        ≡ mapped_if (hit k) f (lookup dec k nodes)
  unfolding update_rows lookup
  lookup-update_rows hit f [] k = refl
  lookup-update_rows hit f ((j, r) ∷ nodes) k = ground (arith, lookup-update_rows hit f nodes k)

  pub keys-update_rows :
      (p : K → Row K W V → Bool) (f : Row K W V → Row K W V) (nodes : Dict K (Row K W V))
      → keys (update_rows p f nodes) ≡ keys nodes
  unfolding update_rows
  keys-update_rows p f [] = refl
  keys-update_rows p f ((j, r) ∷ nodes) = ground (arith, keys-update_rows p f nodes)

  -- Each row is stored under the id of its state.
  abbrev pub AreKeyed : Dict K (Row K W V) → Type 0
  AreKeyed nodes = All (λ e. e.1.state.id ≡ e.0) nodes

  pub flagged-AreKeyed :
      (ids : List K) (b : Bool) (nodes : Dict K (Row K W V))
      → AreKeyed nodes
      → AreKeyed (update_rows (λ id r. has dec id ids) (λ r. flagged b r) nodes)
  unfolding update_rows
  flagged-AreKeyed ids b [] h = tt
  flagged-AreKeyed ids b ((j, r) ∷ nodes) (e, h) =
      (ground (arith, e), flagged-AreKeyed ids b nodes h)
