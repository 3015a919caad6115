-- ===== src/Registry/Ports.antt =====
-- Which port `allocate_port` hands out.
use ga_ottt.Base.{
  ℕ, zero, suc, ◌+◌, ◌-◌, ◌≤◌, ◌<◌, ◌≡◌, Bool, true, false, List, arith, if◌then◌else◌, inl, inr,
  Bool-cases, ℕ_discrete,
}
use ga_ottt.Registry.{
  Registry, Universe, Answer, ok, no_free_port, port_used, first_free, allocate_port,
}

-- A port that a fresh backend can have: no live universe holds it and the system lets it be bound.
abbrev pub is_free : {U : Type 0} → (ℕ → Bool) → List (Universe U) → ℕ → Bool
is_free is_port_free us port = if port_used port us then false else is_port_free port

-- The answer of a search among the ports from `first` up to below `limit`.
pub data Allocated {U : Type 0} (is_port_free : ℕ → Bool) (us : List (Universe U)) (first limit : ℕ)
    : Answer ℕ → Type 0 where
  lowest :
      (port : ℕ)
      → first ≤ port
      → port < limit
      → is_free is_port_free us port ≡ true
      → ((q : ℕ) → first ≤ q → q < port → is_free is_port_free us q ≡ false)
      → Allocated is_port_free us first limit (ok port)
  exhausted :
      ((q : ℕ) → first ≤ q → q < limit → is_free is_port_free us q ≡ false)
      → Allocated is_port_free us first limit no_free_port

module _ {U : Type 0} (is_port_free : ℕ → Bool) (us : List (Universe U)) where
  extend :
      (port limit : ℕ) (a : Answer ℕ)
      → is_free is_port_free us port ≡ false
      → Allocated is_port_free us (port + 1) limit a
      → Allocated is_port_free us port limit a
  extend port limit a taken (lowest p h l free below) =
      lowest p (omega arith) l free λ q from to. elim (ℕ_discrete q port) [
        | yes e ↦ rw e taken
        | no n ↦ below q (omega arith) to
      ]
  extend port limit a taken (exhausted none_free) = exhausted λ q from to.
      elim (ℕ_discrete q port) [ yes e ↦ rw e taken | no n ↦ none_free q (omega arith) to ]

  first_free-Allocated :
      (count port limit : ℕ)
      → limit ≡ port + count
      → Allocated is_port_free us port limit (first_free is_port_free us port count)
  unfolding first_free
  first_free-Allocated zero port limit e = exhausted λ q from to. absurd (omega arith)
  first_free-Allocated (suc count) port limit e =
      let later = first_free is_port_free us (port + 1) count in
      let rest : Allocated is_port_free us (port + 1) limit later =
        first_free-Allocated count (port + 1) limit (omega arith) in
      elim (Bool-cases (port_used port us)) [
        | inl used ↦ rw used (extend port limit later (rw used) rest)
        | inr unused ↦ elim (Bool-cases (is_port_free port)) [
          | inl bindable ↦
              rw (unused, bindable)
                (lowest port (omega arith) (omega arith) (rw (unused, bindable))
                  λ q from to. absurd (omega arith))
          | inr busy ↦ rw (unused, busy) (extend port limit later (rw (unused, busy)) rest)
        ]
      ]

-- On a range that does not end more than one before its start, `allocate_port` returns the lowest
-- port of the range that no live universe holds and that the system lets be bound, and raises
-- exactly when there is none.
pub allocate_port-Allocated :
    {U H : Type 0} (r : Registry U H) (is_port_free : ℕ → Bool) (range_start range_end : ℕ)
    → range_start ≤ range_end + 1
    → Allocated is_port_free r.universes range_start
        (range_end + 1)
        (allocate_port r is_port_free range_start range_end)
unfolding allocate_port
allocate_port-Allocated r is_port_free range_start range_end h =
    first_free-Allocated is_port_free r.universes (range_end + 1 - range_start) range_start
      (range_end + 1) (omega arith)
