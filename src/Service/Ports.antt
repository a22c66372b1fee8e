-- ===== src/Service/Ports.antt =====
-- controller/service_controller.go, allocatePort and releasePort, with the two filters.
use pod_proxier.Base.{
  ℕ, zero, suc, ◌+◌, ◌-◌, Bool, true, false, Option, none, some, List, [], ◌∷◌, if◌then◌else◌,
}
use pod_proxier.Base.Int.{pos}
use pod_proxier.GoString.{GoString, str}
use pod_proxier.GoString.Number.{format_int}
use pod_proxier.Haproxy.Handle.{cat}
use pod_proxier.Service.State.{ServiceController, member, is_allocated, set_allocated}

-- `for port := start; port <= end; port++`, with the number of rounds that are left.
unfoldable pub first_free : ℕ → ℕ → List (ℕ × Bool) → Option ℕ
first_free zero port a = none
first_free (suc rounds) port a =
    let rest = first_free rounds (port + 1) a in if is_allocated port a then rest else some port

-- A port, or the error that none is left.
pub data Allocation : Type 0 where
  allocated : ℕ → Allocation
  exhausted : GoString → Allocation

abbrev pub no_ports : ServiceController → GoString
no_ports c = cat (
    str "no available ports in range "
    ∷ format_int (pos c.port_range_start)
    ∷ str "-"
    ∷ format_int (pos c.port_range_end)
    ∷ [])

unfoldable pub allocate_port : ServiceController → Allocation × ServiceController
allocate_port c =
    elim (first_free (c.port_range_end + 1 - c.port_range_start) c.port_range_start
      c.port_allocations) [
        | none ↦ (exhausted (no_ports c), c)
        | some p ↦
            (allocated p, record c { port_allocations = set_allocated p true c.port_allocations })
      ]

unfoldable pub release_port : ℕ → ServiceController → ServiceController
release_port port c = record c { port_allocations = set_allocated port false c.port_allocations }

unfoldable pub is_namespace_allowed : ServiceController → GoString → Bool
is_namespace_allowed c namespace = member c.allowed_namespaces namespace

unfoldable pub is_target_port_name : ServiceController → GoString → Bool
is_target_port_name c port_name = elim c.target_port_names [
  | [] ↦ true
  | _ ↦ member c.target_port_names port_name
]
