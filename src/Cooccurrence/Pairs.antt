-- ===== src/Cooccurrence/Pairs.antt =====
-- What one recalled pair changes: its count, and its edge once the threshold is reached.
use ga_ottt.Base.{
  ℕ, ◌+◌, ◌≡◌, refl, true, ◌||◌, none, some, ite, leb, if◌then◌else◌, or_else, Bool-cases, inl, inr,
}
use ga_ottt.Dict.{lookup}
use ga_ottt.Dict.Laws.{lookup-insert}
use ga_ottt.Dict.Order.{Order, sorted_pair}
use ga_ottt.Graph.{weight}
use ga_ottt.Node.{Floats}
use ga_ottt.Cache.{get_neighbors, set_edge}
use ga_ottt.Cache.Edges.{IsSound, weight-set_edge, set_edge-IsSound}
use ga_ottt.Cooccurrence.{CooccurrenceGraph, count_pair}

module _ {K W V : Type 0} (F : Floats W) (o : Order K) (pairs : Discrete (K × K)) where
  -- One pair that is recalled together, on a sound cache: its count rises by one; its edge gains
  -- one if the edge has positive weight or the count has reached `edge_threshold`, and else stays
  -- as it is; every other count and edge stays, and the cache stays sound.
  pub count_pair_lem :
      (g : CooccurrenceGraph K W V) (a b : K) (now : ℕ) (x y : K)
      → IsSound o pairs g.cache
      → let after = count_pair F o pairs g a b now in
        let key = sorted_pair o a b in
        let count = or_else (lookup pairs key g.counts) 0 + 1 in
        let w = or_else (weight o.dec g.cache.graph_cache key.0 key.1) F.zero in
        (lookup pairs (sorted_pair o x y) after.counts
          ≡ ite
              (pairs key (sorted_pair o x y))
              (some count)
              (lookup pairs (sorted_pair o x y) g.counts))
        × (weight o.dec after.cache.graph_cache x y ≡ (
            if F.positive w || leb g.config.edge_threshold count
            then ite
                (pairs (sorted_pair o key.0 key.1) (sorted_pair o x y))
                (some (F.sum w F.one))
                (weight o.dec g.cache.graph_cache x y)
            else weight o.dec g.cache.graph_cache x y))
        × IsSound o pairs after.cache
  unfolding count_pair get_neighbors weight
  count_pair_lem g a b now x y v =
      let key = sorted_pair o a b in
      let count = or_else (lookup pairs key g.counts) 0 + 1 in
      let w = or_else (weight o.dec g.cache.graph_cache key.0 key.1) F.zero in
      (
        lookup-insert pairs key (sorted_pair o x y) count g.counts,
        changed key count w,
        sound key count w,
      )
    where
      changed :
          (key : K × K) (count : ℕ) (w : W)
          → weight o.dec
              (if F.positive w || leb g.config.edge_threshold count
                then set_edge o pairs g.cache key.0 key.1 (F.sum w F.one) true none now
                else g.cache).graph_cache
              x
              y
            ≡ (if F.positive w || leb g.config.edge_threshold count
                then ite
                    (pairs (sorted_pair o key.0 key.1) (sorted_pair o x y))
                    (some (F.sum w F.one))
                    (weight o.dec g.cache.graph_cache x y)
                else weight o.dec g.cache.graph_cache x y)
      changed key count w = elim (Bool-cases (F.positive w || leb g.config.edge_threshold count)) [
        | inl e ↦
            rw e (weight-set_edge o pairs g.cache key.0 key.1 (F.sum w F.one) true none now x y)
        | inr e ↦ rw e refl
      ]

      sound :
          (key : K × K) (count : ℕ) (w : W)
          → IsSound o pairs (
              if F.positive w || leb g.config.edge_threshold count
              then set_edge o pairs g.cache key.0 key.1 (F.sum w F.one) true none now
              else g.cache)
      sound key count w = elim (Bool-cases (F.positive w || leb g.config.edge_threshold count)) [
        | inl e ↦
            rw e (set_edge-IsSound o pairs g.cache key.0 key.1 (F.sum w F.one) true none now v)
        | inr e ↦ rw e v
      ]
