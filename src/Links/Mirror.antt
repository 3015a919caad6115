-- ===== src/Links/Mirror.antt =====
-- `directed_out` and `directed_in` hold the same edges, whatever is set, removed or evicted.
use Prim.Native.String.{String}
use ga_ottt.Base.{
  ◌≡◌, refl, sym, ◌∙◌, true, false, ◌&&◌, ◌||◌, Option, ite, arith, if◌then◌else◌, Bool-cases, inl,
  inr,
}
use mathlib.Core.Logic.{if_pos, if_neg}
use ga_ottt.Dict.{erase, has}
use ga_ottt.Dict.Laws.{lookup-erase}
use ga_ottt.Links.{
  Rows, Links, links, keep_each, differs, other_type, evict_directed, set_directed_edge,
  remove_directed_edge,
}
use ga_ottt.Links.Rows.{
  holds, holds-add_link, holds-keep_links, holds-keep_each, mentions, mentions_of_has,
}

module _ {K : Type 0} (dec : Discrete K) (typed : Discrete (K × String)) where
  abbrev pub IsMirrored : Links K → Type 0
  IsMirrored l =
      (s d : K) (t : String) → holds dec typed l.out s (d, t) ≡ holds dec typed l.into d (s, t)

  pub set_directed_edge-IsMirrored :
      (same_type : Discrete String) (l : Links K) (src dst : K) (et : String)
      → IsMirrored l
      → IsMirrored (set_directed_edge dec typed same_type l src dst et)
  unfolding set_directed_edge
  set_directed_edge-IsMirrored same_type l src dst et m s d t = ground (
    arith,
    m s d t,
    holds-add_link dec typed same_type l.out src (dst, et) s (d, t),
    holds-add_link dec typed same_type l.into dst (src, et) d (s, t),
  )

  pub remove_directed_edge-IsMirrored :
      (same_type : Discrete String) (l : Links K) (src dst : K) (et : Option String)
      → IsMirrored l
      → IsMirrored (remove_directed_edge dec typed same_type l src dst et)
  unfolding remove_directed_edge
  remove_directed_edge-IsMirrored same_type l src dst et m s d t = ground (
    arith,
    m s d t,
    holds-keep_links dec typed l.out src
        (λ e. differs dec e.0 dst || other_type dec typed same_type et e.1) s (d, t),
    holds-keep_links dec typed l.into dst
        (λ e. differs dec e.0 src || other_type dec typed same_type et e.1) d (s, t),
  )

  holds-erase :
      (m : Rows K) (a b : K) (f : K × String)
      → holds dec typed (erase dec a m) b f ≡ ite (dec a b) false (holds dec typed m b f)
  unfolding holds has
  holds-erase m a b f = ground (arith, lookup-erase dec a b m)

  holds-mentions :
      (m : Rows K) (a b : K) (t : String)
      → holds dec typed m a (b, t) ≡ true
      → mentions dec typed b (links dec m a) ≡ true
  unfolding holds
  holds-mentions m a b t h = mentions_of_has dec typed b t (links dec m a) h

  mentions_in :
      (l : Links K) (id s d : K) (t : String)
      → holds dec typed l.out s (d, t) ≡ true
      → ite (dec s id) (mentions dec typed d (links dec l.out id)) true ≡ true
  mentions_in l id s d t e = elim (dec s id) [
    | yes p ↦ rw (if_pos _ p) (holds-mentions l.out id d t (rw p at e))
    | no n ↦ rw (if_neg _ n) refl
  ]

  -- The rows of the targets lose every entry for the node.
  from_id :
      (l : Links K) (id s d : K) (t : String)
      → IsMirrored l
      → holds dec typed (keep_each dec l.into (links dec l.out id) id) d (s, t)
        ≡ (if differs dec s id then holds dec typed l.out s (d, t) else false)
  unfolding differs
  from_id l id s d t m = elim (Bool-cases (holds dec typed l.out s (d, t))) [
    | inl e ↦ ground (
      arith,
      e,
      m s d t,
      holds-keep_each dec typed l.into (links dec l.out id) id d (s, t),
      mentions_in l id s d t e,
    )
    | inr e ↦
        ground
          (arith, e, m s d t, holds-keep_each dec typed l.into (links dec l.out id) id d (s, t))
  ]

  out_rows :
      (l : Links K) (id s d : K) (t : String)
      → IsMirrored l
      → holds dec typed (evict_directed dec l id).out s (d, t)
        ≡ (if differs dec s id && differs dec d id then holds dec typed l.out s (d, t) else false)
  unfolding evict_directed differs
  out_rows l id s d t m =
      let into' = keep_each dec l.into (links dec l.out id) id in
      elim (Bool-cases (holds dec typed into' id (s, t))) [
        | inl e ↦ ground (
          arith,
          holds-mentions into' id s t e,
          holds-erase l.out id s (d, t),
          holds-keep_each dec typed (erase dec id l.out) (links dec into' id) id s (d, t),
        )
        | inr e ↦ ground (
          arith,
          e,
          from_id l id s id t m,
          holds-erase l.out id s (d, t),
          holds-keep_each dec typed (erase dec id l.out) (links dec into' id) id s (d, t),
        )
      ]

  -- When both maps hold the same directed edges, an eviction removes those that touch the node, in
  -- both directions and both maps, and no other.
  pub holds-evict_directed :
      (l : Links K) (id s d : K) (t : String)
      → IsMirrored l
      → (holds dec typed (evict_directed dec l id).out s (d, t) ≡ (
          if differs dec s id && differs dec d id then holds dec typed l.out s (d, t) else false))
        × (holds dec typed (evict_directed dec l id).into d (s, t) ≡ (
            if differs dec s id && differs dec d id then holds dec typed l.out s (d, t) else false))
  unfolding evict_directed differs
  holds-evict_directed l id s d t m =
      let into' = keep_each dec l.into (links dec l.out id) id in
      (out_rows l id s d t m, ground (arith, holds-erase into' id d (s, t), from_id l id s d t m))

  pub evict_directed-IsMirrored :
      (l : Links K) (id : K) → IsMirrored l → IsMirrored (evict_directed dec l id)
  evict_directed-IsMirrored l id m s d t =
      let (a, b) = holds-evict_directed l id s d t m in a ∙ sym b

  -- When both maps hold the same directed edges, they still do after `set_directed_edge`, after
  -- `remove_directed_edge` with or without a type, and after the directed part of `evict_node`.
  pub operations-IsMirrored :
      (same_type : Discrete String) (l : Links K) (src dst : K) (t : String) (et : Option String)
      → IsMirrored l
      → IsMirrored (set_directed_edge dec typed same_type l src dst t)
        × IsMirrored (remove_directed_edge dec typed same_type l src dst et)
        × IsMirrored (evict_directed dec l src)
  operations-IsMirrored same_type l src dst t et m = (
    set_directed_edge-IsMirrored same_type l src dst t m,
    remove_directed_edge-IsMirrored same_type l src dst et m,
    evict_directed-IsMirrored l src m,
  )
