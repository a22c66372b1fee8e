-- ===== src/Server/Validation.antt =====
-- What Validate accepts.
use pod_proxier.Base.{◌≡◌, ◌≢◌, ◌↔◌, ◌⊎◌, inl, inr, true, false, none, [], arith, Bool-cases}
use pod_proxier.Base.Int.{pos, ◌<ℤ◌, ◌≤ℤ◌}
use pod_proxier.Server.Options.{PodProxier, validate, validate_v2}

-- The options of a V2 controller: a range of two ports or more between 1024 and 65535, and a
-- namespace.
abbrev pub IsServiceReady : PodProxier → Type 0
IsServiceReady o =
    (o.port_range_start <ℤ o.port_range_end)
    × (pos 1024 ≤ℤ o.port_range_start)
    × (o.port_range_end ≤ℤ pos 65535)
    × (o.allowed_namespaces ≢ [])

validate_v2-ready : (o : PodProxier) → validate_v2 o ≡ none → IsServiceReady o
unfolding validate_v2
validate_v2-ready o h = ground arith

ready-validate_v2 : (o : PodProxier) → IsServiceReady o → validate_v2 o ≡ none
unfolding validate_v2
ready-validate_v2 o h = ground arith

-- V1 alone, or V2 with the options it needs.
abbrev pub IsUsable : PodProxier → Type 0
IsUsable o =
    ((o.enable_v1 ≡ true) × (o.enable_v2 ≡ false)) ⊎ ((o.enable_v2 ≡ true) × IsServiceReady o)

-- Validate accepts exactly the options that enable V1 alone, and those that enable V2 with a range
-- of two ports or more within 1024..65535 and at least one namespace.
pub validate_iff : (o : PodProxier) → (validate o ≡ none) ↔ IsUsable o
unfolding validate
validate_iff o = (accepted, accepts)
  where
    accepted : validate o ≡ none → IsUsable o
    accepted h = elim (Bool-cases o.enable_v2) [
      | inl v2 ↦ inr (v2, validate_v2-ready o (ground arith))
      | inr v1 ↦ inl (ground arith, v1)
    ]

    accepts : IsUsable o → validate o ≡ none
    accepts (inl (v1, v2)) = ground arith
    accepts (inr (v2, ready)) = ground (arith, ready-validate_v2 o ready)
