-- ===== src/Dict.antt =====
-- Python's `dict` and `set` with insertion order, as the components use them: a dictionary is an
-- association list whose keys are compared by a decision, a set is the list of its members.
pub mod Laws
pub mod Order
pub mod Unique
use ga_ottt.Base.{Bool, true, false, Option, none, some, List, [], ◌∷◌, ◌++◌, map, ite}

abbrev pub Dict {ℓ κ} : Type ℓ → Type κ → Type (ℓ ⊔ κ)
Dict K V = List (K × V)

abbrev pub keys {ℓ κ} : {K : Type ℓ} {V : Type κ} → Dict K V → List K
keys d = map (λ e. e.0) d

abbrev pub values {ℓ κ} : {K : Type ℓ} {V : Type κ} → Dict K V → List V
values d = map (λ e. e.1) d

module _ {ℓ κ} {K : Type ℓ} {V : Type κ} (dec : Discrete K) where
  -- `d.get(k)`
  unfoldable pub lookup : K → Dict K V → Option V
  lookup k [] = none
  lookup k ((j, v) ∷ d) = ite (dec j k) (some v) (lookup k d)

  -- `d[k] = v`: a key that is there keeps its place, a new one goes to the end.
  unfoldable pub insert : K → V → Dict K V → Dict K V
  insert k v [] = (k, v) ∷ []
  insert k v ((j, w) ∷ d) = ite (dec j k) ((j, v) ∷ d) ((j, w) ∷ insert k v d)

  -- `d.pop(k, None)`, and `del d[k]` of a key that is there
  unfoldable pub erase : K → Dict K V → Dict K V
  erase k [] = []
  erase k ((j, w) ∷ d) = ite (dec j k) (erase k d) ((j, w) ∷ erase k d)

module _ {ℓ} {K : Type ℓ} (dec : Discrete K) where
  -- `k in s`
  unfoldable pub has : K → List K → Bool
  has k [] = false
  has k (j ∷ s) = ite (dec j k) true (has k s)

  -- `s.add(k)`
  unfoldable pub add : K → List K → List K
  add k [] = k ∷ []
  add k (j ∷ s) = ite (dec j k) (j ∷ s) (j ∷ add k s)

  -- `s.discard(k)`
  unfoldable pub discard : K → List K → List K
  discard k [] = []
  discard k (j ∷ s) = ite (dec j k) (discard k s) (j ∷ discard k s)
