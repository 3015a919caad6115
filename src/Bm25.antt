-- ===== src/Bm25.antt =====
-- gaottt/index/bm25_index.py, `BM25Index`: the documents, their postings and the running statistics.
-- The tokenizer is an argument. The scores of `search` are left out.
pub mod Counted
pub mod Rebuild
pub mod RoundTrip
pub mod Statistics
use Prim.Native.String.{String}
use ga_ottt.Base.{
  ℕ, zero, suc, ◌+◌, ◌-◌, ◌==◌, leb, ltb, Bool, true, false, ◌||◌, Option, none, some, List, [],
  ◌∷◌, ◌++◌, ite, if◌then◌else◌, not, or_else, map, keep, length, take, get_or,
}
use ga_ottt.Dict.{Dict, keys, lookup, insert, has, add, discard}

pub record Index (K T : Type 0) : Type 0 where
  pub doc_ids : List K
  pub doc_lens : List ℕ
  pub id_to_idx : Dict K ℕ
  pub inverted : Dict T (List (ℕ × ℕ))
  pub removed : List K
  pub active_count : ℕ
  pub active_total_dl : ℕ

pub data Answer (A : Type 0) : Type 0 where
  ok : A → Answer A
  value_error : Answer A

unfoldable pub empty_index : {K T : Type 0} → Index K T
empty_index = record {
  doc_ids = [];
  doc_lens = [];
  id_to_idx = [];
  inverted = [];
  removed = [];
  active_count = 0;
  active_total_dl = 0;
}

-- `Counter(tokens)`
unfoldable pub count_tokens : {T : Type 0} → Discrete T → List T → Dict T ℕ → Dict T ℕ
count_tokens dec [] tf = tf
count_tokens dec (t ∷ ts) tf =
    count_tokens dec ts (insert dec t (or_else (lookup dec t tf) 0 + 1) tf)

-- The postings that one document adds.
unfoldable pub add_postings :
    {T : Type 0} → Discrete T → ℕ → Dict T ℕ → Dict T (List (ℕ × ℕ)) → Dict T (List (ℕ × ℕ))
add_postings dec idx [] inv = inv
add_postings dec idx ((t, n) ∷ tf) inv =
    add_postings dec idx tf (insert dec t (or_else (lookup dec t inv) [] ++ (idx, n) ∷ []) inv)

module _ {K T X : Type 0} (dec : Discrete K) (same_term : Discrete T) (tokenize : X → List T) where
  unfoldable pub add_doc : Index K T → K → X → Index K T
  unfolding count_tokens add_postings
  add_doc ix doc_id text =
      let tokens = tokenize text in
      let doc_idx = length ix.doc_ids in
      elim (lookup dec doc_id ix.id_to_idx) [
        | some i ↦ ix
        | none ↦ record {
          doc_ids = ix.doc_ids ++ doc_id ∷ [];
          doc_lens = ix.doc_lens ++ length tokens ∷ [];
          id_to_idx = insert dec doc_id doc_idx ix.id_to_idx;
          inverted = add_postings same_term doc_idx (count_tokens same_term tokens []) ix.inverted;
          removed = ix.removed;
          active_count = ix.active_count + 1;
          active_total_dl = ix.active_total_dl + length tokens;
        }
      ]

  unfoldable pub add_docs : Index K T → List K → List X → Index K T
  add_docs ix [] texts = ix
  add_docs ix (d ∷ ids) [] = ix
  add_docs ix (d ∷ ids) (t ∷ texts) = add_docs (add_doc ix d t) ids texts

  -- `add`
  unfoldable pub add_documents : Index K T → List K → List X → Answer (Index K T)
  add_documents ix ids texts =
      if length ids == length texts then ok (add_docs ix ids texts) else value_error

module _ {K T : Type 0} (dec : Discrete K) where
  -- One pass of the loop of `remove`
  unfoldable pub remove_doc : Index K T → K → Index K T
  remove_doc ix doc_id =
      if has dec doc_id ix.removed then ix else elim (lookup dec doc_id ix.id_to_idx) [
        | none ↦ ix
        | some i ↦ record ix {
          removed = add dec doc_id ix.removed;
          active_count = ix.active_count - 1;
          active_total_dl = ix.active_total_dl - get_or ix.doc_lens i 0;
        }
      ]

  unfoldable pub remove : Index K T → List K → Index K T
  remove ix [] = ix
  remove ix (d ∷ ids) = remove (remove_doc ix d) ids

  unfoldable pub restore_doc : Index K T → K → Index K T
  restore_doc ix doc_id =
      if not (has dec doc_id ix.removed) then ix else elim (lookup dec doc_id ix.id_to_idx) [
        | none ↦ ix
        | some i ↦ record ix {
          removed = discard dec doc_id ix.removed;
          active_count = ix.active_count + 1;
          active_total_dl = ix.active_total_dl + get_or ix.doc_lens i 0;
        }
      ]

  unfoldable pub restore : Index K T → List K → Index K T
  restore ix [] = ix
  restore ix (d ∷ ids) = restore (restore_doc ix d) ids

unfoldable pub reset : {K T : Type 0} → Index K T → Index K T
unfolding empty_index
reset ix = empty_index
