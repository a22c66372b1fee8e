-- ===== src/Service/Step.antt =====
-- The V2 controller as a state machine: what one port or one mapping does to its state.
use pod_proxier.Base.{ℕ, ◌≤◌, ◌<◌, ◌≡◌, refl, ◌∙◌, true, false, none, some}
use pod_proxier.GoString.{GoString}
use pod_proxier.Service.State.{
  ServiceController, KubeService, ServicePort, ServiceMapping, lookup, is_allocated,
}
use pod_proxier.Service.Ports.{is_namespace_allowed, is_target_port_name}
use pod_proxier.Service.Mapping.{mapping_key, new_mapping}
use pod_proxier.Service.Consistency.{with_attempt, with_mapping, without_mapping}

pub data Step (c : ServiceController) : ServiceController → Type 0 where
  -- A free port is taken and given back, since a write failed.
  attempt : (p : ℕ) → is_allocated p c.port_allocations ≡ false → Step c (with_attempt p c)
  -- A selected port of an allowed Service gets the lowest free port of the range.
  add :
      (service : KubeService) (port : ServicePort) (p t : ℕ)
      → is_namespace_allowed c service.namespace ≡ true
      → is_target_port_name c port.name ≡ true
      → lookup (mapping_key service port) c.service_mappings ≡ none
      → c.port_range_start ≤ p
      → p ≤ c.port_range_end
      → is_allocated p c.port_allocations ≡ false
      → ((q : ℕ) → c.port_range_start ≤ q → q < p → is_allocated q c.port_allocations ≡ true)
      → Step c (with_mapping (mapping_key service port) (new_mapping service port p t) c)
  -- A mapping goes, and its port is free.
  remove :
      (key : GoString) (m : ServiceMapping)
      → lookup key c.service_mappings ≡ some m
      → Step c (without_mapping key m c)

pub data Reach (c : ServiceController) : ServiceController → Type 0 where
  here : Reach c c
  next : {d e : ServiceController} → Reach c d → Step d e → Reach c e

pub Reach-trans : {b c d : ServiceController} → Reach b c → Reach c d → Reach b d
Reach-trans r here = r
Reach-trans r (next s st) = next (Reach-trans r s) st

Step-handler : {c d : ServiceController} → Step c d → d.handler ≡ c.handler
Step-handler (attempt p _) = refl
Step-handler (add service port p t _ _ _ _ _ _ _) = refl
Step-handler (remove key m _) = refl

-- The client's handle stays.
pub Reach-handler : {c d : ServiceController} → Reach c d → d.handler ≡ c.handler
Reach-handler here = refl
Reach-handler (next r st) = Step-handler st ∙ Reach-handler r
