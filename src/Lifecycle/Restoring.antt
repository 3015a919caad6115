-- ===== src/Lifecycle/Restoring.antt =====
-- A node that is archived and restored.
use ga_ottt.Base.{
  ℕ, ◌≡◌, refl, sym, ◌∙◌, ap, subst, Bool, true, false, none, some, List, [], ◌∷◌, lt→ltb, ltb,
}
use ga_ottt.Dict.{keys, lookup, has}
use ga_ottt.Dict.Laws.{Distinct}
use ga_ottt.Dict.Order.{Order}
use ga_ottt.Cache.{Cache, get_node}
use ga_ottt.Cache.Flush.{flush_to_store}
use ga_ottt.Store.{Store, set_archived}
use ga_ottt.Store.Tables.{Row}
use ga_ottt.Lifecycle.{
  Memory, Change, archive, restore, dropped_from, after_unarchive, reloaded, get_node_states,
  load_column, reload_states,
}
use ga_ottt.Lifecycle.Evictions.{
  AreKeyed, flagged, mapped_if, lookup-update_rows, flagged-AreKeyed, keys-update_rows, counted,
  node_cache-evict_all, tags-evict_all,
}
use ga_ottt.Lifecycle.Reload.{
  picked, active_state, node_cache-reload_states, node_cache-reload_vectors, tags-reload_all,
}

module _ {K W V D : Type 0} (o : Order K) where
  unarchived_row :
      (st : Store K W V D) (ids : List K) (b : Bool) (k : K) (r : Row K W V)
      → has o.dec k ids ≡ true
      → lookup o.dec k st.nodes ≡ some r
      → lookup o.dec k (set_archived o.dec st ids b).0.nodes ≡ some (flagged o.dec b r)
  unfolding set_archived
  unarchived_row st ids b k r hit row =
      lookup-update_rows o.dec (λ id. has o.dec id ids) (flagged o.dec b) st.nodes k
      ∙ ap (λ h. mapped_if o.dec h (flagged o.dec b) (lookup o.dec k st.nodes)) hit
      ∙ ap (mapped_if o.dec true (flagged o.dec b)) row

  -- The rows of a table are stored under the ids of their states, each id once.
  abbrev pub IsTable : Store K W V D → Type 0
  IsTable st = AreKeyed o.dec st.nodes × Distinct o.dec (keys st.nodes)

  set_archived-IsTable :
      (st : Store K W V D) (ids : List K) (b : Bool)
      → IsTable st
      → IsTable (set_archived o.dec st ids b).0
  unfolding set_archived
  set_archived-IsTable st ids b (keyed, distinct) = (
    flagged-AreKeyed o.dec ids b st.nodes keyed,
    subst (Distinct o.dec)
        (sym (keys-update_rows o.dec (λ id r. has o.dec id ids) (flagged o.dec b) st.nodes))
        distinct,
  )

  affected_pos :
      (st : Store K W V D) (ids : List K) (b : Bool) (k : K) (r : Row K W V)
      → has o.dec k ids ≡ true
      → lookup o.dec k st.nodes ≡ some r
      → ltb 0 (set_archived o.dec st ids b).1 ≡ true
  unfolding set_archived
  affected_pos st ids b k r hit row =
      lt→ltb 0 _ (counted o.dec (λ id. has o.dec id ids) st.nodes k r hit row)

module _ {K W V D T X Q R : Type 0} (o : Order K) (pairs : Discrete (K × K))
    (same_term : Discrete T) (tokenize : X → List T) (is_empty : X → Bool) where
  reloaded_cache :
      (m : Memory K W V D T X Q R) (ids : List K) (texts : List X) (st : Store K W V D) (n : ℕ)
      (k : K) (r : Row K W V)
      → has o.dec k ids ≡ true
      → lookup o.dec k st.nodes ≡ some r
      → IsTable o st
      → lookup o.dec k
          (reloaded o pairs same_term tokenize is_empty m ids texts (st, n)).cache.node_cache
        ≡ some (active_state o pairs r)
  unfolding reloaded get_node_states
  reloaded_cache m ids texts st n k r hit row (keyed, distinct) =
      ap (λ d. lookup o.dec k d)
        (node_cache-reload_vectors o pairs (load_column o.dec (λ x. x.velocity) st ids)
          (load_column o.dec (λ x. x.displacement) st ids)
          (reload_states o pairs (get_node_states o.dec st ids) m.cache))
      ∙ node_cache-reload_states o pairs (λ id. has o.dec id ids) st.nodes m.cache k keyed distinct
      ∙ ap
          (λ h.
            picked o.dec (active_state o pairs) h (lookup o.dec k st.nodes)
              (lookup o.dec k m.cache.node_cache))
          hit
      ∙ ap (λ x. picked o.dec (active_state o pairs) true x (lookup o.dec k m.cache.node_cache)) row

  reloaded_tags :
      (m : Memory K W V D T X Q R) (ids : List K) (texts : List X) (st : Store K W V D) (n : ℕ)
      → (reloaded o pairs same_term tokenize is_empty m ids texts (st, n)).cache.tags_by_id
        ≡ m.cache.tags_by_id
  unfolding reloaded
  reloaded_tags m ids texts st n =
      tags-reload_all o pairs (load_column o.dec (λ x. x.velocity) st ids)
        (load_column o.dec (λ x. x.displacement) st ids) (get_node_states o.dec st ids) m.cache

  archive_open :
      (m : Memory K W V D T X Q R) (ids : List K) (now : ℕ) (k : K)
      → m.persist_blocked ≡ false
      → has o.dec k ids ≡ true
      → archive o pairs same_term tokenize is_empty m ids now
        ≡ dropped_from o pairs same_term tokenize is_empty m ids
            (flush_to_store o pairs m.cache m.store now).0
            (set_archived o.dec (flush_to_store o pairs m.cache m.store now).1 ids true)
  unfolding archive has
  archive_open m [] now k e h = cc
  archive_open m (id ∷ ids) now k e h = rw e refl

  restore_open :
      (m : Memory K W V D T X Q R) (ids : List K) (texts : List X) (k : K) (r : Row K W V)
      → m.persist_blocked ≡ false
      → has o.dec k ids ≡ true
      → lookup o.dec k m.store.nodes ≡ some r
      → (restore o pairs same_term tokenize is_empty m ids texts).0
        ≡ reloaded o pairs same_term tokenize is_empty m ids texts
            (set_archived o.dec m.store ids false)
  unfolding restore after_unarchive has
  restore_open m [] texts k r e h row = cc
  restore_open m (id ∷ ids) texts k r e h row =
      rw (e, affected_pos o m.store (id ∷ ids) false k r h row) refl

  -- What `restore` answers for a row that it restores.
  abbrev Restored : Memory K W V D T X Q R → List K → List X → K → Row K W V → Type 0
  Restored m ids texts k r =
      let restored = (restore o pairs same_term tokenize is_empty m ids texts).0 in
      (lookup o.dec k restored.cache.node_cache ≡ some (active_state o pairs r))
      × (lookup o.dec k restored.store.nodes ≡ some (flagged o.dec false r))
      × (restored.cache.tags_by_id ≡ m.cache.tags_by_id)

  restore_lem :
      (m : Memory K W V D T X Q R) (ids : List K) (texts : List X) (k : K) (r : Row K W V)
      → m.persist_blocked ≡ false
      → has o.dec k ids ≡ true
      → IsTable o m.store
      → lookup o.dec k m.store.nodes ≡ some r
      → Restored m ids texts k r
  restore_lem m ids texts k r e hit table row =
      let st = set_archived o.dec m.store ids false in
      let after = reloaded o pairs same_term tokenize is_empty m ids texts st in
      let opened = restore_open m ids texts k r e hit row in
      let unflagged = unarchived_row o m.store ids false k r hit row in
      (
        ap (λ (w : Memory K W V D T X Q R). lookup o.dec k w.cache.node_cache) opened
            ∙ reloaded_cache m ids texts st.0 st.1 k (flagged o.dec false r) hit unflagged
                (set_archived-IsTable o m.store ids false table),
        ap (λ (w : Memory K W V D T X Q R). lookup o.dec k w.store.nodes) opened
            ∙ reloaded_rows m ids texts st
            ∙ unflagged,
        ap (λ (w : Memory K W V D T X Q R). w.cache.tags_by_id) opened
            ∙ reloaded_tags m ids texts st.0 st.1,
      )
    where
      reloaded_rows :
          (m : Memory K W V D T X Q R) (ids : List K) (texts : List X) (st : Store K W V D × ℕ)
          → lookup o.dec k (reloaded o pairs same_term tokenize is_empty m ids texts st).store.nodes
            ≡ lookup o.dec k st.0.nodes
      reloaded_rows m ids texts (st, n) = unfold reloaded in refl

  -- What an archived node is, and what it is after the restore.
  abbrev pub ComesBack : List K → List X → K → Row K W V → Memory K W V D T X Q R → Type 0
  ComesBack ids texts k r archived =
      let restored = (restore o pairs same_term tokenize is_empty archived ids texts).0 in
      (get_node o pairs archived.cache k ≡ none)
      × (get_node o pairs restored.cache k ≡ some (record (r.state) { is_archived = false }))
      × (lookup o.dec k restored.store.nodes
          ≡ some (record r { state = record (r.state) { is_archived = false } }))
      × (lookup o.dec k restored.cache.tags_by_id ≡ none)

  dropped_from-ComesBack :
      (m : Memory K W V D T X Q R) (ids : List K) (texts : List X) (c : Cache K W V)
      (st : Store K W V D) (k : K) (r : Row K W V)
      → m.persist_blocked ≡ false
      → has o.dec k ids ≡ true
      → IsTable o st
      → lookup o.dec k st.nodes ≡ some r
      → ComesBack ids texts k r
          (dropped_from o pairs same_term tokenize is_empty m ids c
            (set_archived o.dec st ids true)).0
  unfolding dropped_from get_node
  dropped_from-ComesBack m ids texts c st k r e hit table row =
      let m1 =
        (dropped_from o pairs same_term tokenize is_empty m ids c
          (set_archived o.dec st ids true)).0 in
      let back =
        restore_lem m1 ids texts k (flagged o.dec true r) e hit
          (set_archived-IsTable o st ids true table) (unarchived_row o st ids true k r hit row) in
      (
        node_cache-evict_all o pairs ids c k ∙ rw hit refl,
        back.0,
        back.1,
        ap (λ d. lookup o.dec k d) back.2 ∙ (tags-evict_all o pairs ids c k ∙ rw hit refl),
      )

  -- While the lease is held, when the store after the flush keeps each row under the id of its
  -- state, and no id twice, a node that is archived and has a row r there is not in the cache;
  -- after a restore of the same ids the cache answers the state of r, not archived, the store has
  -- r, not archived, and the cache has no tags for the node.
  pub restore-archive :
      (m : Memory K W V D T X Q R) (ids : List K) (texts : List X) (now : ℕ) (k : K) (r : Row K W V)
      → m.persist_blocked ≡ false
      → has o.dec k ids ≡ true
      → IsTable o (flush_to_store o pairs m.cache m.store now).1
      → lookup o.dec k (flush_to_store o pairs m.cache m.store now).1.nodes ≡ some r
      → ComesBack ids texts k r (archive o pairs same_term tokenize is_empty m ids now).0
  restore-archive m ids texts now k r e hit table row =
      subst (λ (w : Memory K W V D T X Q R × Change). ComesBack ids texts k r w.0)
        (sym (archive_open m ids now k e hit))
        (dropped_from-ComesBack m ids texts (flush_to_store o pairs m.cache m.store now).0
          (flush_to_store o pairs m.cache m.store now).1 k r e hit table row)
