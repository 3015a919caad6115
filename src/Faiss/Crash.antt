-- ===== src/Faiss/Crash.antt =====
-- A save that stops after any of its steps, and what the next process loads.
use ga_ottt.Base.{
  ◌≡◌, refl, ◌==◌, Bool, true, false, Option, none, some, List, [], ◌∷◌, if◌then◌else◌, length,
  arith, keep, map, not, All,
}
use ga_ottt.Faiss.{
  Engine, FaissIndex, Files, IndexFile, absent, complete, SaveStep, fresh, load, save_steps,
}
use ga_ottt.Faiss.Alignment.{IsAligned}

-- How far a save has come when the process dies.
pub data Progress : Type 0 where
  nothing index_written index_replaced ids_written finished : Progress

abbrev pub steps_of : Progress → List SaveStep
steps_of nothing = []
steps_of index_written = SaveStep.write_index ∷ []
steps_of index_replaced = SaveStep.write_index ∷ SaveStep.replace_index ∷ []
steps_of ids_written = SaveStep.write_index ∷ SaveStep.replace_index ∷ SaveStep.write_ids ∷ []
steps_of finished =
    SaveStep.write_index ∷ SaveStep.replace_index ∷ SaveStep.write_ids ∷ SaveStep.replace_ids ∷ []

module _ {X V S K : Type 0} (E : Engine X V S) (strip : K → K) (is_empty : K → Bool) where
  -- Ids that survive a line of a text file.
  abbrev pub ArePlain : List K → Type 0
  ArePlain ids = All (λ k. (strip k ≡ k) × (is_empty k ≡ false)) ids

  plain_lines : (ids : List K) → ArePlain ids → keep (λ k. not (is_empty k)) (map strip ids) ≡ ids
  plain_lines [] h = refl
  plain_lines (k ∷ ids) h = ground (arith, h.0, plain_lines ids h.1)

  -- What a new process should find.
  abbrev pub recovered : FaissIndex X K → FaissIndex X K → Progress → FaissIndex X K
  recovered old new nothing = old
  recovered old new index_written = old
  recovered old new index_replaced =
      if length old.id_map == E.ntotal new.index
      then record { index = new.index; id_map = old.id_map }
      else fresh E
  recovered old new ids_written =
      if length old.id_map == E.ntotal new.index
      then record { index = new.index; id_map = old.id_map }
      else fresh E
  recovered old new finished = new

  abbrev pub on_disk : FaissIndex X K → Files X K
  on_disk ix = record {
    index_file = complete ix.index;
    ids_file = some ix.id_map;
    index_tmp = absent;
    ids_tmp = none;
  }

  load_pair :
      (x : X) (ids : List K) (tmp : IndexFile X) (ids_tmp : Option (List K)) (ix : FaissIndex X K)
      → ArePlain ids
      → load E strip is_empty ix (record {
        index_file = complete x;
        ids_file = some ids;
        index_tmp = tmp;
        ids_tmp = ids_tmp;
      })
        ≡ (if length ids == E.ntotal x then record { index = x; id_map = ids } else fresh E)
  unfolding load
  load_pair x ids tmp ids_tmp ix p = rw (plain_lines ids p) refl

  aligned : (ix : FaissIndex X K) → IsAligned E ix → (length ix.id_map == E.ntotal ix.index) ≡ true
  aligned ix h = ground arith

  load_aligned :
      (ix : FaissIndex X K) (tmp : IndexFile X) (ids_tmp : Option (List K)) (at : FaissIndex X K)
      → IsAligned E ix
      → ArePlain ix.id_map
      → load E strip is_empty at (record {
        index_file = complete ix.index;
        ids_file = some ix.id_map;
        index_tmp = tmp;
        ids_tmp = ids_tmp;
      })
        ≡ ix
  load_aligned ix tmp ids_tmp at h p =
      rw (load_pair ix.index ix.id_map tmp ids_tmp at p, aligned ix h) refl

  -- A process with an index whose rows all have an id saves over files that hold such an index, and
  -- may die after any step of the save; the ids are plain lines. What a new process loads is the
  -- old index as long as the index file was not replaced, the new index once the save has finished,
  -- and in between the empty index, unless the new index has as many rows as there are old ids:
  -- then it is the new rows under the old ids.
  pub load-save_steps :
      (old new : FaissIndex X K) (progress : Progress)
      → IsAligned E old
      → IsAligned E new
      → ArePlain old.id_map
      → ArePlain new.id_map
      → load E strip is_empty (fresh E) (save_steps new (steps_of progress) (on_disk old))
        ≡ recovered old new progress
  unfolding save_steps
  load-save_steps old new nothing a b p q = load_aligned old absent none (fresh E) a p
  load-save_steps old new index_written a b p q =
      load_aligned old (complete new.index) none (fresh E) a p
  load-save_steps old new index_replaced a b p q =
      load_pair new.index old.id_map absent none (fresh E) p
  load-save_steps old new ids_written a b p q =
      load_pair new.index old.id_map absent (some new.id_map) (fresh E) p
  load-save_steps old new finished a b p q = load_aligned new absent none (fresh E) b q
