-- ===== src/Dict/Unique.antt =====
-- No key twice: what each change of a dictionary does to the distinctness of its keys.
use ga_ottt.Base.{◌≡◌, refl, none, [], ◌∷◌, ◌++◌, arith}
use ga_ottt.Dict.{Dict, keys, lookup, insert, erase, has}
use ga_ottt.Dict.Laws.{Distinct, has-keys, lookup-insert, lookup-erase, lookup-append}

module _ {K V : Type 0} (dec : Discrete K) where
  pub insert-Distinct :
      (k : K) (v : V) (d : Dict K V)
      → Distinct dec (keys d)
      → Distinct dec (keys (insert dec k v d))
  unfolding insert has
  insert-Distinct k v [] h = (refl, tt)
  insert-Distinct k v ((j, w) ∷ d) h = ground (
    arith,
    insert-Distinct k v d h.1,
    has-keys dec j d,
    has-keys dec j (insert dec k v d),
    lookup-insert dec k j v d,
  )

  pub erase-Distinct :
      (k : K) (d : Dict K V) → Distinct dec (keys d) → Distinct dec (keys (erase dec k d))
  unfolding erase
  erase-Distinct k [] h = tt
  erase-Distinct k ((j, w) ∷ d) h = ground (
    arith,
    erase-Distinct k d h.1,
    has-keys dec j d,
    has-keys dec j (erase dec k d),
    lookup-erase dec k j d,
  )

  -- A new entry at the end.
  pub append-Distinct :
      (k : K) (v : V) (d : Dict K V)
      → Distinct dec (keys d)
      → lookup dec k d ≡ none
      → Distinct dec (keys (d ++ (k, v) ∷ []))
  unfolding lookup has
  append-Distinct k v [] h e = (refl, tt)
  append-Distinct k v ((j, w) ∷ d) h e = ground (
    arith,
    append-Distinct k v d h.1,
    has-keys dec j d,
    has-keys dec j (d ++ (k, v) ∷ []),
    lookup-append dec j d ((k, v) ∷ []),
  )
