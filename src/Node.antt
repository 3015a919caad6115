-- ===== src/Node.antt =====
-- gaottt/core/types.py, `NodeState`: the dynamic state of a memory, and the float operations that
-- the code uses on its fields and on edge weights.
use ga_ottt.Base.{ℕ, Bool, Option, List}

-- The float operations of the degree maps; `half_pow a t` is `0.5 ** (a / t)`.
pub record Floats (W : Type 0) : Type 0 where
  pub zero : W
  pub one : W
  pub sum : W → W → W
  pub product : W → W → W
  pub half_pow : ℕ → W → W
  pub positive : W → Bool
  pub same : W → W → Bool
  pub less : W → W → Bool

-- gaottt/core/types.py, `NodeState`
pub record NodeState (K W : Type 0) : Type 0 where
  pub id : K
  pub mass : W
  pub temperature : W
  pub last_access : ℕ
  pub sim_history : List W
  pub return_count : W
  pub expires_at : Option ℕ
  pub is_archived : Bool
  pub merged_into : Option K
  pub merge_count : ℕ
  pub merged_at : Option ℕ
  pub emotion_weight : W
  pub certainty : W
  pub last_verified_at : Option ℕ
  pub rev : ℕ
