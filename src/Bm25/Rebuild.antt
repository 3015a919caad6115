-- ===== src/Bm25/Rebuild.antt =====
-- `BM25Index.rebuild` of gaottt/index/bm25_index.py.
pub mod Kept
use ga_ottt.Base.{
  ℕ, ◌+◌, ◌==◌, ltb, Bool, true, false, ◌||◌, Option, none, some, List, [], ◌∷◌, if◌then◌else◌, not,
  or_else, keep, length, take, get_or, ℕ_discrete,
}
use ga_ottt.Dict.{Dict, lookup, insert, has}
use ga_ottt.Bm25.{Index}

-- `sum` of the lengths
unfoldable pub sum : List ℕ → ℕ
sum [] = 0
sum (n ∷ ns) = n + sum ns

-- `{old: new for new, old in enumerate(…)}`, and so for the ids
unfoldable pub index_all : {A : Type 0} → Discrete A → List A → ℕ → Dict A ℕ → Dict A ℕ
index_all dec [] at d = d
index_all dec (a ∷ xs) at d = index_all dec xs (at + 1) (insert dec a at d)

-- The postings of one term that stay, under their new positions.
unfoldable pub new_postings : Dict ℕ ℕ → List (ℕ × ℕ) → List (ℕ × ℕ)
new_postings old_to_new [] = []
new_postings old_to_new ((old, tf) ∷ ps) =
    let rest = new_postings old_to_new ps in
    elim (lookup ℕ_discrete old old_to_new) [ none ↦ rest | some i ↦ (i, tf) ∷ rest ]

unfoldable pub new_inverted :
    {T : Type 0} → Dict ℕ ℕ → Dict T (List (ℕ × ℕ)) → Dict T (List (ℕ × ℕ))
unfolding new_postings
new_inverted old_to_new [] = []
new_inverted old_to_new ((t, ps) ∷ inv) =
    let rest = new_inverted old_to_new inv in
    elim (new_postings old_to_new ps) [ [] ↦ rest | q ∷ qs ↦ (t, q ∷ qs) ∷ rest ]

module _ {K : Type 0} (dec : Discrete K) where
  -- The three lists that the loop over the documents builds.
  unfoldable pub kept_ids : List K → List K → List K
  kept_ids removed ids = keep (λ d. not (has dec d removed)) ids

  unfoldable pub kept_lens : List K → List K → List ℕ → List ℕ
  kept_lens removed [] lens = []
  kept_lens removed (d ∷ ids) [] = []
  kept_lens removed (d ∷ ids) (n ∷ lens) =
      let rest = kept_lens removed ids lens in if has dec d removed then rest else n ∷ rest

  unfoldable pub kept_old_idx : List K → List K → ℕ → List ℕ
  kept_old_idx removed [] at = []
  kept_old_idx removed (d ∷ ids) at =
      let rest = kept_old_idx removed ids (at + 1) in if has dec d removed then rest else at ∷ rest

module _ {K T : Type 0} (dec : Discrete K) where
  unfoldable pub rebuilt : Index K T → Index K T
  unfolding kept_ids kept_lens kept_old_idx index_all new_inverted sum
  rebuilt ix =
      let ids = kept_ids dec ix.removed ix.doc_ids in
      let lens = kept_lens dec ix.removed ix.doc_ids ix.doc_lens in
      let old_to_new = index_all ℕ_discrete (kept_old_idx dec ix.removed ix.doc_ids 0) 0 [] in
      record {
        doc_ids = ids;
        doc_lens = lens;
        id_to_idx = index_all dec ids 0 [];
        inverted = new_inverted old_to_new ix.inverted;
        removed = [];
        active_count = length ids;
        active_total_dl = sum lens;
      }

  unfoldable pub rebuild : Index K T → Index K T
  unfolding rebuilt
  rebuild ix = elim ix.removed [ [] ↦ ix | d ∷ ds ↦ rebuilt ix ]
