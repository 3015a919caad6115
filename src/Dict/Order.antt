-- ===== src/Dict/Order.antt =====
-- Keys with the order that `min`, `max` and `<` use, and the sorted pair that names an undirected
-- edge.
use ga_ottt.Base.{◌≡◌, ◌⊎◌, Bool, true, false, if◌then◌else◌, arith}

pub record Order (K : Type 0) : Type 0 where
  pub dec : Discrete K
  pub lt : K → K → Bool
  pub lt_asymm : (a b : K) → lt a b ≡ true → lt b a ≡ false
  pub lt_total : (a b : K) → lt a b ≡ false → lt b a ≡ false → a ≡ b

module _ {K : Type 0} (o : Order K) where
  -- `(min(a, b), max(a, b))`: `min` returns its second argument only if that is smaller, `max` only
  -- if that is greater.
  unfoldable pub sorted_pair : K → K → K × K
  sorted_pair a b = (if o.lt b a then b else a, if o.lt a b then b else a)

  pub sorted_pair_comm : (a b : K) → sorted_pair a b ≡ sorted_pair b a
  unfolding sorted_pair
  sorted_pair_comm a b = ground (arith, o.lt_asymm a b, o.lt_asymm b a, o.lt_total a b)

  pub sorted_pair_cases : (a b : K) → (sorted_pair a b ≡ (a, b)) ⊎ (sorted_pair a b ≡ (b, a))
  unfolding sorted_pair
  sorted_pair_cases a b = ground (arith, o.lt_asymm a b, o.lt_asymm b a, o.lt_total a b)

  -- Two edges have one name exactly when they join the same nodes.
  pub sorted_pair_inj :
      (a b c d : K) → sorted_pair a b ≡ sorted_pair c d → ((a ≡ c) × (b ≡ d)) ⊎ ((a ≡ d) × (b ≡ c))
  sorted_pair_inj a b c d h = ground (arith, sorted_pair_cases a b, sorted_pair_cases c d)
