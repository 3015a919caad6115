-- ===== src/Faiss/Alignment.antt =====
-- The ids and the rows of the index go together: whatever the files hold, also after a load.
use ga_ottt.Base.{
  ◌≡◌, ◌==◌, Bool, none, some, List, if◌then◌else◌, length, length-append, arith, Bool-cases, inl,
  inr, keep, map, not,
}
use ga_ottt.Faiss.{
  Engine, FaissIndex, Files, IndexFile, absent, zero_bytes, complete, fresh, add, load,
}

module _ {X V S K : Type 0} (E : Engine X V S) where
  -- Every row has an id.
  abbrev pub IsAligned : FaissIndex X K → Type 0
  IsAligned ix = length ix.id_map ≡ E.ntotal ix.index

  guarded :
      (x : X) (ids : List K)
      → IsAligned (if length ids == E.ntotal x then record { index = x; id_map = ids } else fresh E)
  unfolding fresh
  guarded x ids = elim (Bool-cases (length ids == E.ntotal x)) [
    | inl e ↦ rw e (ground arith)
    | inr e ↦ rw e (ground (arith, E.ntotal_new))
  ]

  load-IsAligned :
      (strip : K → K) (is_empty : K → Bool) (ix : FaissIndex X K) (files : Files X K)
      → IsAligned ix
      → IsAligned (load E strip is_empty ix files)
  unfolding load
  load-IsAligned strip is_empty ix files h = go files.index_file
    where
      ids : List K
      ids = elim files.ids_file [
        | none ↦ ix.id_map
        | some lines ↦ keep (λ k. not (is_empty k)) (map strip lines)
      ]

      go :
          (f : IndexFile X)
          → IsAligned (elim f [
            | absent ↦ ix
            | zero_bytes ↦ ix
            | complete x ↦
                if length ids == E.ntotal x then record { index = x; id_map = ids } else fresh E
          ])
      go absent = h
      go zero_bytes = h
      go (complete x) = guarded x ids

  -- From an index whose rows all have an id, an `add` that its assertion lets pass and a `load` of
  -- any files, torn, mixed or foreign, give an index whose rows all have an id.
  pub operations-IsAligned :
      (strip : K → K) (is_empty : K → Bool) (ix ix' : FaissIndex X K) (vectors : List V)
      (ids : List K) (files : Files X K)
      → IsAligned ix
      → add E ix vectors ids ≡ some ix'
      → IsAligned ix' × IsAligned (load E strip is_empty ix files)
  unfolding add
  operations-IsAligned strip is_empty ix ix' vectors ids files h e = (
    ground (arith, length-append ix.id_map ids, E.ntotal_extend ix.index vectors),
    load-IsAligned strip is_empty ix files h,
  )
