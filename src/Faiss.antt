-- ===== src/Faiss.antt =====
-- gaottt/index/faiss_index.py, `FaissIndex`: a FAISS index, the ids of its rows, and the two files
-- that `save` replaces one after the other. FAISS itself is an argument, `Engine`, with the two laws
-- that the code relies on. A text file of ids is the list of its lines; `strip` is an argument. The
-- lock makes every method one step, so that it does not appear.
pub mod Alignment
pub mod Crash
use ga_ottt.Base.{
  ℕ, zero, suc, ◌+◌, ◌≡◌, ◌==◌, ltb, Bool, true, false, Option, none, some, List, [], ◌∷◌, ◌++◌,
  if◌then◌else◌, map, keep, not, length, drop,
}
use ga_ottt.Dict.{Dict, insert, lookup, has}

-- `faiss.IndexFlatIP`; an answer of `query` has no row where FAISS gives the row -1.
pub record Engine (X V S : Type 0) : Type 0 where
  pub new : X
  pub ntotal : X → ℕ
  pub extend : X → List V → X
  pub query : X → V → ℕ → List (S × Option ℕ)
  pub ntotal_new : ntotal new ≡ 0
  pub ntotal_extend : (x : X) (vs : List V) → ntotal (extend x vs) ≡ ntotal x + length vs

pub record FaissIndex (X K : Type 0) : Type 0 where
  pub index : X
  pub id_map : List K

pub data IndexFile (X : Type 0) : Type 0 where
  absent zero_bytes : IndexFile X
  complete : X → IndexFile X

-- `path`, `path.ids` and the scratch files of this process.
pub record Files (X K : Type 0) : Type 0 where
  pub index_file : IndexFile X
  pub ids_file : Option (List K)
  pub index_tmp : IndexFile X
  pub ids_tmp : Option (List K)

-- What `save` does to the files, in its order.
pub data SaveStep : Type 0 where
  write_index replace_index write_ids replace_ids : SaveStep

module _ {X V S K : Type 0} (E : Engine X V S) where
  unfoldable pub fresh : FaissIndex X K
  fresh = record { index = E.new; id_map = [] }

  unfoldable pub size : FaissIndex X K → ℕ
  size ix = E.ntotal ix.index

  -- The assertion on the numbers of vectors and ids fails first.
  unfoldable pub add : FaissIndex X K → List V → List K → Option (FaissIndex X K)
  add ix vectors ids =
      if length vectors == length ids
      then some (record { index = E.extend ix.index vectors; id_map = ix.id_map ++ ids })
      else none

  -- The loop of `search` over the rows that FAISS answers.
  unfoldable pub known_rows : List K → List (S × Option ℕ) → List (K × S)
  known_rows ids [] = []
  known_rows ids ((score, none) ∷ rows) = known_rows ids rows
  known_rows ids ((score, some i) ∷ rows) = elim (drop i ids) [
    | [] ↦ known_rows ids rows
    | k ∷ ks ↦ (k, score) ∷ known_rows ids rows
  ]

  unfoldable pub search : FaissIndex X K → V → ℕ → List (K × S)
  unfolding known_rows
  search ix query_vector top_k =
      let total = E.ntotal ix.index in
      if total == 0
      then []
      else known_rows ix.id_map
          (E.query ix.index query_vector (if ltb total top_k then total else top_k))

  unfoldable pub load : (K → K) → (K → Bool) → FaissIndex X K → Files X K → FaissIndex X K
  unfolding fresh
  load strip is_empty ix files = elim files.index_file [
    | absent ↦ ix
    | zero_bytes ↦ ix
    | complete x ↦
        let ids : List K = elim files.ids_file [
          | none ↦ ix.id_map
          | some lines ↦ keep (λ k. not (is_empty k)) (map strip lines)
        ] in
        if length ids == E.ntotal x then record { index = x; id_map = ids } else fresh
  ]

module _ {X K : Type 0} where
  unfoldable pub save_step : FaissIndex X K → SaveStep → Files X K → Files X K
  save_step ix SaveStep.write_index files = record files { index_tmp = complete ix.index }
  save_step ix SaveStep.replace_index files = record files {
    index_file = files.index_tmp;
    index_tmp = absent;
  }
  save_step ix SaveStep.write_ids files = record files { ids_tmp = some ix.id_map }
  save_step ix SaveStep.replace_ids files = record files {
    ids_file = files.ids_tmp;
    ids_tmp = none;
  }

  unfoldable pub save_steps : FaissIndex X K → List SaveStep → Files X K → Files X K
  unfolding save_step
  save_steps ix [] files = files
  save_steps ix (s ∷ ss) files = save_steps ix ss (save_step ix s files)

  unfoldable pub save : FaissIndex X K → Files X K → Files X K
  unfolding save_steps
  save ix files =
      save_steps ix
        (SaveStep.write_index ∷ SaveStep.replace_index ∷ SaveStep.write_ids ∷ SaveStep.replace_ids
          ∷ [])
        files
