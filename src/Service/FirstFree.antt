-- ===== src/Service/FirstFree.antt =====
-- allocatePort in service_controller.go: which port is found, and when none is.
use pod_proxier.Base.{
  ℕ, zero, suc, ◌+◌, ◌-◌, ◌≤◌, ◌<◌, ◌≡◌, refl, subst, Bool, true, false, Option, none, some, List,
  arith, inl, inr, Bool-cases, Option-cases,
}
use pod_proxier.Service.State.{ServiceController, is_allocated, set_allocated}
use pod_proxier.Service.Ports.{
  Allocation, allocated, exhausted, allocate_port, first_free, no_ports,
}

-- The port that is found: free, in the rounds, with none free below it.
abbrev pub Finds : ℕ → ℕ → List (ℕ × Bool) → Option ℕ → Type 0
Finds rounds start a none = (q : ℕ) → start ≤ q → q < start + rounds → is_allocated q a ≡ true
Finds rounds start a (some p) =
    (start ≤ p)
    × (p < start + rounds)
    × (is_allocated p a ≡ false)
    × ((q : ℕ) → start ≤ q → q < p → is_allocated q a ≡ true)

from_next :
    (port q : ℕ) (a : List (ℕ × Bool))
    → is_allocated port a ≡ true
    → port ≤ q
    → (port + 1 ≤ q → is_allocated q a ≡ true)
    → is_allocated q a ≡ true
from_next port q a here le later = ground arith

Finds-suc :
    (rounds port : ℕ) (a : List (ℕ × Bool)) (r : Option ℕ)
    → is_allocated port a ≡ true
    → Finds rounds (port + 1) a r
    → Finds (suc rounds) port a r
Finds-suc rounds port a none here h =
    λ q le lt. from_next port q a here le (λ more. h q more (omega arith))
Finds-suc rounds port a (some p) here (low, high, free, below) = (
  omega arith,
  omega arith,
  free,
  λ q le lt. from_next port q a here le (λ more. below q more lt),
)

first_free-Finds :
    (rounds start : ℕ) (a : List (ℕ × Bool)) → Finds rounds start a (first_free rounds start a)
unfolding first_free
first_free-Finds zero start a = λ q le lt. absurd (omega arith)
first_free-Finds (suc rounds) start a = elim (Bool-cases (is_allocated start a)) [
  | inl taken ↦ rw taken (Finds-suc rounds start a _ taken (first_free-Finds rounds (start + 1) a))
  | inr free ↦ rw free (omega arith, omega arith, free, λ q le lt. absurd (omega arith))
]

-- The lowest free port of the range is taken and marked, and nothing else changes; the error comes
-- only when the whole range is taken, and then nothing changes.
abbrev pub Allocates : ServiceController → Allocation × ServiceController → Type 0
Allocates c (exhausted e, c') =
    (c' ≡ c)
    × (e ≡ no_ports c)
    × ((q : ℕ)
        → c.port_range_start ≤ q
        → q ≤ c.port_range_end
        → is_allocated q c.port_allocations ≡ true)
Allocates c (allocated p, c') =
    (c' ≡ record c { port_allocations = set_allocated p true c.port_allocations })
    × (c.port_range_start ≤ p)
    × (p ≤ c.port_range_end)
    × (is_allocated p c.port_allocations ≡ false)
    × ((q : ℕ) → c.port_range_start ≤ q → q < p → is_allocated q c.port_allocations ≡ true)

abbrev rounds_of : ServiceController → ℕ
rounds_of c = c.port_range_end + 1 - c.port_range_start

abbrev search : ServiceController → Option ℕ
search c = first_free (rounds_of c) c.port_range_start c.port_allocations

allocate_port-none :
    (c : ServiceController) → search c ≡ none → allocate_port c ≡ (exhausted (no_ports c), c)
unfolding allocate_port
allocate_port-none c e = rw (e, allocate_port)

allocate_port-some :
    (c : ServiceController) (p : ℕ)
    → search c ≡ some p
    → allocate_port c
      ≡ (allocated p, record c { port_allocations = set_allocated p true c.port_allocations })
unfolding allocate_port
allocate_port-some c p e = rw (e, allocate_port)

-- allocatePort takes the lowest free port of the range, or reports that the whole range is taken.
pub allocate_port-Allocates : (c : ServiceController) → Allocates c (allocate_port c)
allocate_port-Allocates c = elim (Option-cases (search c)) [
  | inl e ↦
      rw (allocate_port-none c e)
        (refl, refl, λ q le lt. (subst (Finds _ _ _) e (first_free-Finds _ _ _)) q le (omega arith))
  | inr (p, e) ↦
      let (low, high, free, below) = subst (Finds _ _ _) e (first_free-Finds _ _ _) in
      rw (allocate_port-some c p e) (refl, low, omega arith, free, below)
]
