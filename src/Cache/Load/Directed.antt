-- ===== src/Cache/Load/Directed.antt =====
-- The loop of `load_from_store` over the directed edges spares an archived node.
use Prim.Native.String.{String}
use ga_ottt.Base.{
  ◌≡◌, ◌≢◌, ◌||◌, refl, sym, true, List, [], ◌∷◌, ◌++◌, Bool-cases, inl, inr, arith, All, subst,
}
use ga_ottt.Dict.{lookup, has}
use ga_ottt.Dict.Laws.{lookup-insert}
use ga_ottt.Links.{Rows, Links, links}
use ga_ottt.Cache.Load.{append_link, load_directed}
use ga_ottt.Store.{DirectedKey}

module _ {K : Type 0} (dec : Discrete K) where
  -- The node `k` has no row, and no row lists it.
  abbrev pub Spared : Rows K → K → Type 0
  Spared m k = (links dec m k ≡ []) × ((a : K) → All (λ e. e.0 ≢ k) (links dec m a))

  pub empty-Spared : (k : K) → Spared [] k
  unfolding links lookup
  empty-Spared k = (refl, λ a. tt)

  All-append :
      (k : K) (es : List (K × String)) (e : K × String)
      → All (λ e. e.0 ≢ k) es
      → e.0 ≢ k
      → All (λ e. e.0 ≢ k) (es ++ e ∷ [])
  All-append k [] e all ne = (ne, tt)
  All-append k (f ∷ es) e (here, all) ne = (here, All-append k es e all ne)

  append_link-Spared :
      (m : Rows K) (a k : K) (e : K × String)
      → a ≢ k
      → e.0 ≢ k
      → Spared m k
      → Spared (append_link dec m a e) k
  unfolding append_link links
  append_link-Spared m a k e ne ne' (none_of, nowhere) =
      (ground (arith, ne, none_of, lookup-insert dec a k (links dec m a ++ e ∷ []) m), row)
    where
      row : (b : K) → All (λ e. e.0 ≢ k) (links dec (append_link dec m a e) b)
      row b = elim (dec a b) [
        | yes q ↦
            subst (All (λ e. e.0 ≢ k))
              (sym (ground (arith, q, lookup-insert dec a b (links dec m a ++ e ∷ []) m)))
              (All-append k (links dec m a) e (nowhere a) ne')
        | no n ↦
            subst (All (λ e. e.0 ≢ k))
              (sym (ground (arith, n, lookup-insert dec a b (links dec m a ++ e ∷ []) m)))
              (nowhere b)
      ]

  pub load_directed-Spared :
      (archived : List K) (es : List (DirectedKey K)) (l : Links K) (k : K)
      → has dec k archived ≡ true
      → Spared l.out k
      → Spared l.into k
      → Spared (load_directed dec archived es l).out k
        × Spared (load_directed dec archived es l).into k
  unfolding load_directed
  load_directed-Spared archived [] l k old out into = (out, into)
  load_directed-Spared archived ((src, dst, t) ∷ es) l k old out into =
      elim (Bool-cases (has dec src archived || has dec dst archived)) [
        | inl skip ↦ rw (load_directed, skip) (load_directed-Spared archived es l k old out into)
        | inr take ↦
            let l' : Links K = record {
              out = append_link dec l.out src (dst, t);
              into = append_link dec l.into dst (src, t);
            } in
            let src_new : src ≢ k = λ q. absurd (ground (arith, q, old, take)) in
            let dst_new : dst ≢ k = λ q. absurd (ground (arith, q, old, take)) in
            rw (load_directed, take)
              (load_directed-Spared archived es l' k old
                (append_link-Spared l.out src k (dst, t) src_new dst_new out)
                (append_link-Spared l.into dst k (src, t) dst_new src_new into))
      ]
