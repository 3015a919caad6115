-- ===== src/Tests/Fixtures.antt =====
-- Node ids and weights as numbers, for the concrete inputs.
use Prim.Native.String.{String}
use text.Mathlib.Text.{◌==◌ as ◌text_eq◌}
use text.Mathlib.TextEquality.{eq_iff}
use mathlib.Core.HLevel.{×_discrete}
use ga_ottt.Base.{
  ℕ, ◌+◌, ◌*◌, true, false, none, [], arith, ltb, ◌==◌, ℕ_discrete, ◌≡◌, Bool-cases, inl, inr,
}
use ga_ottt.Dict.Order.{Order}
use ga_ottt.Node.{Floats, NodeState}
use ga_ottt.Cache.{Cache}
use ga_ottt.Store.{Store}

pub ltb_asymm : (a b : ℕ) → ltb a b ≡ true → ltb b a ≡ false
ltb_asymm a b h = ground arith

pub ltb_total : (a b : ℕ) → ltb a b ≡ false → ltb b a ≡ false → a ≡ b
ltb_total a b h k = ground arith

abbrev pub order : Order ℕ
order = record { dec = ℕ_discrete; lt = ltb; lt_asymm = ltb_asymm; lt_total = ltb_total }

abbrev pub pairs : Discrete (ℕ × ℕ)
pairs = ×_discrete ℕ_discrete ℕ_discrete

abbrev pub floats : Floats ℕ
floats = record {
  zero = 0;
  one = 1;
  sum = ◌+◌;
  product = ◌*◌;
  half_pow = λ a t. 1;
  positive = λ a. ltb 0 a;
  same = ◌==◌;
  less = ltb;
}

abbrev pub node : ℕ → ℕ → NodeState ℕ ℕ
node id rev = record {
  id = id;
  mass = 1;
  temperature = 0;
  last_access = 0;
  sim_history = [];
  return_count = 0;
  expires_at = none;
  is_archived = false;
  merged_into = none;
  merge_count = 0;
  merged_at = none;
  emotion_weight = 0;
  certainty = 1;
  last_verified_at = none;
  rev = rev;
}

abbrev pub no_nodes : Cache ℕ ℕ ℕ
no_nodes = record {
  node_cache = [];
  graph_cache = [];
  degree_cache = none;
  total_weight = 0;
  edge_last_update = [];
  decayed_degree_cache = none;
  decayed_total = 0;
  decayed_degree_half_life = none;
  displacement_cache = [];
  velocity_cache = [];
  source_by_id = [];
  directed = record { out = []; into = [] };
  tags_by_id = [];
  original_id_by_id = [];
  cohort_id_by_id = [];
  dirty_nodes = [];
  dirty_edges = [];
  dirty_displacements = [];
  dirty_velocities = [];
  virtual_faiss_dirty = false;
  persist_blocked = false;
}

abbrev pub no_rows : Store ℕ ℕ ℕ String
no_rows = record { nodes = []; edges = []; directed_edges = [] }

pub same_text : Discrete String
same_text s t = elim (Bool-cases (s text_eq t)) [
  | inl e ↦ yes ((eq_iff s t).0 e)
  | inr e ↦ no (λ p. absurd (grind (arith, e, (eq_iff s t).1 p)))
]

pub typed : Discrete (ℕ × String)
typed = ×_discrete ℕ_discrete same_text
