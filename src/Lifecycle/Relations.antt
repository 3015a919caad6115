-- ===== src/Lifecycle/Relations.antt =====
-- The directed edges of the cache are those of the store, whatever is related and unrelated.
use Prim.Native.String.{String}
use ga_ottt.Base.{
  ◌≡◌, refl, ◌∙◌, ap, Bool, true, false, ◌||◌, Option, none, some, arith, if◌then◌else◌, keep,
  length, ltb, ite, not, is_some, Bool-cases, inl, inr,
}
use ga_ottt.Dict.{Dict, lookup, insert}
use ga_ottt.Dict.Laws.{lookup-insert}
use ga_ottt.Links.{Links, set_directed_edge, remove_directed_edge, differs, other_type}
use ga_ottt.Links.Rows.{holds, holds-add_link, holds-keep_links}
use ga_ottt.Store.{DirectedKey, DirectedData, upsert_directed_edge, delete_directed_edge}
use ga_ottt.Store.Tables.{of_type}
use ga_ottt.Lifecycle.{
  Memory, Change, related, lease_lost, self_relation, relate, unrelate, unrelated,
}
use ga_ottt.Lifecycle.Evictions.{lookup-kept, uncounted}

module _ {K : Type 0} (dec : Discrete K) (typed : Discrete (K × String))
    (same_type : Discrete String) where
  -- The condition of the deletion.
  abbrev chosen : K → K → Option String → DirectedKey K → Bool
  chosen src dst edge_type e =
      ite (dec e.0 src) (ite (dec e.1 dst) (of_type same_type edge_type e.2) false) false

  chosen_kept :
      (src dst : K) (edge_type : Option String) (s d : K) (t : String) (b : Bool)
      → ite
          (dec src s)
          (if differs dec d dst || other_type dec typed same_type edge_type t then b else false)
          b
        ≡ (if not (chosen src dst edge_type (s, d, t)) then b else false)
  unfolding differs other_type of_type
  chosen_kept src dst none s d t b = ground arith
  chosen_kept src dst (some u) s d t b = ground arith

module _ {K W D : Type 0} (dec : Discrete K) (keyed : Discrete (DirectedKey K))
    (typed : Discrete (K × String)) (same_type : Discrete String) where
  -- The links out of a node are its rows.
  abbrev pub Agree : Links K → Dict (DirectedKey K) (DirectedData W D) → Type 0
  Agree l rows =
      (s d : K) (t : String)
      → holds dec typed l.out s (d, t) ≡ is_some (lookup keyed (s, d, t) rows)

  relate-Agree :
      (l : Links K) (rows : Dict (DirectedKey K) (DirectedData W D)) (src dst : K) (et : String)
      (e : DirectedData W D)
      → Agree l rows
      → Agree
          (set_directed_edge dec typed same_type l src dst et)
          (insert keyed (src, dst, et) e rows)
  unfolding set_directed_edge
  relate-Agree l rows src dst et e agree s d t = ground (
    arith,
    agree s d t,
    holds-add_link dec typed same_type l.out src (dst, et) s (d, t),
    lookup-insert keyed (src, dst, et) (s, d, t) e rows,
  )

  -- The rows that a deletion leaves.
  abbrev left_rows :
      K
      → K
      → Option String
      → Dict (DirectedKey K) (DirectedData W D)
      → Dict (DirectedKey K) (DirectedData W D)
  left_rows src dst et rows = keep (λ e. not (chosen dec typed same_type src dst et e.0)) rows

  removed-Agree :
      (l : Links K) (rows : Dict (DirectedKey K) (DirectedData W D)) (src dst : K)
      (et : Option String)
      → Agree l rows
      → Agree (remove_directed_edge dec typed same_type l src dst et) (left_rows src dst et rows)
  unfolding remove_directed_edge
  removed-Agree l rows src dst et agree s d t =
      holds-keep_links dec typed l.out src
        (λ e. differs dec e.0 dst || other_type dec typed same_type et e.1) s (d, t)
      ∙ chosen_kept dec typed same_type src dst et s d t (holds dec typed l.out s (d, t))
      ∙ ground (
        arith,
        agree s d t,
        lookup-kept keyed (λ key. not (chosen dec typed same_type src dst et key)) rows (s, d, t),
      )

  kept-Agree :
      (l : Links K) (rows : Dict (DirectedKey K) (DirectedData W D)) (src dst : K)
      (et : Option String)
      → ltb 0 (length (keep (λ e. chosen dec typed same_type src dst et e.0) rows)) ≡ false
      → Agree l rows
      → Agree l (left_rows src dst et rows)
  kept-Agree l rows src dst et few agree s d t =
      elim (Bool-cases (chosen dec typed same_type src dst et (s, d, t))) [
        | inl hit ↦
            agree s d t
            ∙ ap is_some (
                uncounted keyed (λ key. chosen dec typed same_type src dst et key) rows (s, d, t)
                  hit few)
            ∙ ground (
              arith,
              hit,
              lookup-kept keyed (λ key. not (chosen dec typed same_type src dst et key)) rows
                  (s, d, t),
            )
        | inr miss ↦
            agree s d t
            ∙ ground (
              arith,
              miss,
              lookup-kept keyed (λ key. not (chosen dec typed same_type src dst et key)) rows
                  (s, d, t),
            )
      ]

module _ {K W V D T X Q R : Type 0} (dec : Discrete K) (keyed : Discrete (DirectedKey K))
    (typed : Discrete (K × String)) (same_type : Discrete String) where
  abbrev pub AreRelated : Memory K W V D T X Q R → Type 0
  AreRelated m = Agree dec keyed typed same_type m.cache.directed m.store.directed_edges

  abbrev StayRelated : Memory K W V D T X Q R × Change → Type 0
  StayRelated (m, answer) = AreRelated m

  relate-AreRelated :
      (m : Memory K W V D T X Q R) (src dst : K) (et : String) (e : DirectedData W D)
      → AreRelated m
      → AreRelated (relate dec keyed typed same_type m (src, dst, et) e).0
  unfolding relate upsert_directed_edge
  relate-AreRelated m src dst et e agree = by m.persist_blocked (dec src dst)
    where
      by :
          (blocked : Bool) (self : Dec (src ≡ dst))
          → StayRelated (
              if blocked
              then (m, lease_lost)
              else ite self
                  (m, self_relation)
                  (
                    record m {
                      store = upsert_directed_edge dec keyed m.store (src, dst, et) e;
                      cache = record (m.cache) {
                        directed =
                            set_directed_edge dec typed same_type m.cache.directed src dst et;
                      };
                    },
                    related,
                  ))
      by true self = agree
      by false (yes p) = agree
      by false (no n) =
          relate-Agree dec keyed typed same_type m.cache.directed m.store.directed_edges src dst et
            e agree

  unrelated-AreRelated :
      (m : Memory K W V D T X Q R) (src dst : K) (et : Option String)
      → AreRelated m
      → AreRelated
          (unrelated dec keyed typed same_type m src dst et
            (delete_directed_edge dec same_type m.store src dst et)).0
  unfolding unrelated delete_directed_edge
  unrelated-AreRelated m src dst et agree =
      by
        (ltb 0
          (length (keep (λ e. chosen dec typed same_type src dst et e.0) m.store.directed_edges)))
        refl
    where
      by :
          (some_deleted : Bool)
          → ltb 0 (
              length (keep (λ e. chosen dec typed same_type src dst et e.0) m.store.directed_edges))
            ≡ some_deleted
          → Agree dec keyed typed same_type
              (if some_deleted
                then remove_directed_edge dec typed same_type m.cache.directed src dst et
                else m.cache.directed)
              (left_rows dec keyed typed same_type src dst et m.store.directed_edges)
      by true e =
          removed-Agree dec keyed typed same_type m.cache.directed m.store.directed_edges src dst et
            agree
      by false e =
          kept-Agree dec keyed typed same_type m.cache.directed m.store.directed_edges src dst et e
            agree

  -- If the cache has a link out of a node, with its target and type, exactly when the store has the
  -- row, then this is so after `relate` and after `unrelate`, with or without a type, also when
  -- they are refused.
  pub relations-AreRelated :
      (m : Memory K W V D T X Q R) (src dst : K) (et : String) (e : DirectedData W D)
      (edge_type : Option String)
      → AreRelated m
      → AreRelated (relate dec keyed typed same_type m (src, dst, et) e).0
        × AreRelated (unrelate dec keyed typed same_type m src dst edge_type).0
  unfolding unrelate
  relations-AreRelated m src dst et e edge_type agree =
      (relate-AreRelated m src dst et e agree, by m.persist_blocked)
    where
      by :
          (blocked : Bool)
          → StayRelated (
              if blocked
              then (m, lease_lost)
              else unrelated dec keyed typed same_type m src dst edge_type
                  (delete_directed_edge dec same_type m.store src dst edge_type))
      by true = agree
      by false = unrelated-AreRelated m src dst edge_type agree
