-- ===== src/Links/Rows.antt =====
-- Whether a row holds an entry, after each change of the rows.
use Prim.Native.String.{String}
use ga_ottt.Base.{
  ◌≡◌, refl, ap, ◌∙◌, Bool, true, false, List, [], ◌∷◌, ite, arith, if◌then◌else◌, keep,
  Option-cases, inl, inr,
}
use ga_ottt.Dict.{lookup, insert, erase, has, add}
use ga_ottt.Dict.Laws.{lookup-insert, lookup-erase, has-add}
use ga_ottt.Links.{Rows, links, keep_links, keep_each, add_link, differs}

pub has-keep :
    {A : Type 0} (dec : Discrete A) (p : A → Bool) (a : A) (xs : List A)
    → has dec a (keep p xs) ≡ (if p a then has dec a xs else false)
unfolding has
has-keep dec p a [] = ground arith
has-keep dec p a (x ∷ xs) = elim (dec x a) [
  | yes e ↦ ground (arith, ap p e, has-keep dec p a xs)
  | no n ↦ ground (arith, has-keep dec p a xs)
]

module _ {K : Type 0} (dec : Discrete K) (typed : Discrete (K × String)) where
  -- Does the row of `a` hold `e`?
  unfoldable pub holds : Rows K → K → K × String → Bool
  unfolding links
  holds m a e = has typed e (links dec m a)

  pub holds-add_link :
      (s : Discrete String) (m : Rows K) (a : K) (e : K × String) (b : K) (f : K × String)
      → holds (add_link dec typed s m a e) b f
        ≡ ite (dec a b) (ite (typed e f) true (holds m b f)) (holds m b f)
  unfolding holds add_link
  holds-add_link s m a e b f = ground (
    arith,
    lookup-insert dec a b (add typed e (links dec m a)) m,
    has-add typed e f (links dec m a),
  )

  keep_row :
      (m : Rows K) (a : K) (es : List (K × String)) (b : K) (f : K × String)
      → holds (elim es [ [] ↦ erase dec a m | g ∷ gs ↦ insert dec a (g ∷ gs) m ]) b f
        ≡ ite (dec a b) (has typed f es) (holds m b f)
  unfolding holds has
  keep_row m a [] b f = ground (arith, lookup-erase dec a b m)
  keep_row m a (g ∷ gs) b f = ground (arith, lookup-insert dec a b (g ∷ gs) m)

  pub holds-keep_links :
      (m : Rows K) (a : K) (p : K × String → Bool) (b : K) (f : K × String)
      → holds (keep_links dec m a p) b f
        ≡ ite (dec a b) (if p f then holds m b f else false) (holds m b f)
  unfolding keep_links
  holds-keep_links m a p b f = elim (Option-cases (lookup dec a m)) [
    | inl e ↦ rw (e, keep_links) (unfold holds has in ground arith)
    | inr (es, e) ↦
        rw (e, keep_links)
          (keep_row m a (keep p es) b f ∙ unfold holds in ground (arith, has-keep typed p f es))
  ]

  -- Some entry of the list is for the node.
  pub mentions : K → List (K × String) → Bool
  mentions a [] = false
  mentions a ((b, t) ∷ es) = ite (dec b a) true (mentions a es)

  pub holds-keep_each :
      (m : Rows K) (es : List (K × String)) (id b : K) (f : K × String)
      → holds (keep_each dec m es id) b f ≡ (
          if mentions b es
          then (if differs dec f.0 id then holds m b f else false)
          else holds m b f)
  unfolding keep_each mentions
  holds-keep_each m [] id b f = refl
  holds-keep_each m ((a, t) ∷ es) id b f = ground (
    arith,
    holds-keep_each (keep_links dec m a (λ e. differs dec e.0 id)) es id b f,
    holds-keep_links m a (λ e. differs dec e.0 id) b f,
  )

  pub mentions_of_has :
      (a : K) (t : String) (es : List (K × String))
      → has typed (a, t) es ≡ true
      → mentions a es ≡ true
  unfolding mentions has
  mentions_of_has a t [] h = cc
  mentions_of_has a t ((b, u) ∷ es) h = elim (typed (b, u) (a, t)) [
    | yes e ↦ ground (arith, ap (λ (q : K × String). q.0) e)
    | no n ↦ ground (arith, mentions_of_has a t es)
  ]
