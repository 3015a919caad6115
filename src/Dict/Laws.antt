-- ===== src/Dict/Laws.antt =====
-- What a lookup reads after each change of a dictionary, and a test after each change of a set.
use ga_ottt.Base.{
  ◌+◌, ◌≤◌, ◌<◌, ◌≡◌, refl, true, false, none, some, List, [], ◌∷◌, ◌++◌, ite, arith, length,
  is_some, if◌then◌else◌,
}
use ga_ottt.Dict.{Dict, keys, lookup, insert, erase, has, add, discard}

module _ {K V : Type 0} (dec : Discrete K) where
  pub lookup_nil : (k : K) → lookup {V = V} dec k [] ≡ none
  unfolding lookup
  lookup_nil k = refl

  pub lookup-insert :
      (k j : K) (v : V) (d : Dict K V)
      → lookup dec j (insert dec k v d) ≡ ite (dec k j) (some v) (lookup dec j d)
  unfolding lookup insert
  lookup-insert k j v [] = refl
  lookup-insert k j v ((i, w) ∷ d) = ground (arith, lookup-insert k j v d)

  pub lookup-erase :
      (k j : K) (d : Dict K V) → lookup dec j (erase dec k d) ≡ ite (dec k j) none (lookup dec j d)
  unfolding lookup erase
  lookup-erase k j [] = ground arith
  lookup-erase k j ((i, w) ∷ d) = ground (arith, lookup-erase k j d)

  pub lookup-append :
      (k : K) (d e : Dict K V)
      → lookup dec k (d ++ e)
        ≡ (if is_some (lookup dec k d) then lookup dec k d else lookup dec k e)
  unfolding lookup
  lookup-append k [] e = refl
  lookup-append k ((i, w) ∷ d) e = ground (arith, lookup-append k d e)

  pub has-keys : (k : K) (d : Dict K V) → has dec k (keys d) ≡ is_some (lookup dec k d)
  unfolding lookup has
  has-keys k [] = refl
  has-keys k ((i, w) ∷ d) = ground (arith, has-keys k d)

  pub length-insert :
      (k : K) (v : V) (d : Dict K V)
      → length (insert dec k v d) ≡ (if is_some (lookup dec k d) then length d else length d + 1)
  unfolding lookup insert
  length-insert k v [] = omega arith
  length-insert k v ((i, w) ∷ d) = ground (arith, length-insert k v d)

  pub length-erase-le : (k : K) (d : Dict K V) → length (erase dec k d) ≤ length d
  unfolding erase
  length-erase-le k [] = omega arith
  length-erase-le k ((i, w) ∷ d) = ground (arith, length-erase-le k d)

  pub erase_absent : (k : K) (d : Dict K V) → lookup dec k d ≡ none → erase dec k d ≡ d
  unfolding lookup erase
  erase_absent k [] h = refl
  erase_absent k ((i, w) ∷ d) h = ground (arith, erase_absent k d)

  pub length-erase-lt :
      (k : K) (v : V) (d : Dict K V) → lookup dec k d ≡ some v → length (erase dec k d) < length d
  unfolding lookup erase
  length-erase-lt k v [] h = cc
  length-erase-lt k v ((i, w) ∷ d) h = ground (arith, length-erase-lt k v d, length-erase-le k d)

module _ {K : Type 0} (dec : Discrete K) where
  pub has-add : (k j : K) (s : List K) → has dec j (add dec k s) ≡ ite (dec k j) true (has dec j s)
  unfolding has add
  has-add k j [] = refl
  has-add k j (i ∷ s) = ground (arith, has-add k j s)

  pub has-discard :
      (k j : K) (s : List K) → has dec j (discard dec k s) ≡ ite (dec k j) false (has dec j s)
  unfolding has discard
  has-discard k j [] = ground arith
  has-discard k j (i ∷ s) = ground (arith, has-discard k j s)

  -- No member twice.
  abbrev pub Distinct : List K → Type 0
  Distinct [] = Unit
  Distinct (k ∷ s) = (has dec k s ≡ false) × Distinct s
