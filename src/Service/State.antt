-- ===== src/Service/State.antt =====
-- controller/service_controller.go and event.go: the state of the controller and the objects it
-- works on. Ports of the range are naturals: Options.Validate lets no other through.
use pod_proxier.Base.{ℕ, Bool, true, false, Option, none, some, List, [], ◌∷◌, if◌then◌else◌}
use pod_proxier.Base.{◌==◌ as nat_eq}
use pod_proxier.Base.Int.{ℤ}
use pod_proxier.GoString.{GoString, ◌==◌}
use pod_proxier.Haproxy.Handle.{HaproxyHandle, new_haproxy_handle}

-- corev1.ServicePort
pub record ServicePort : Type 0 where
  pub name : GoString
  pub port : ℤ

-- corev1.Service
pub record KubeService : Type 0 where
  pub name : GoString
  pub namespace : GoString
  pub resource_version : GoString
  pub cluster_ip : GoString
  pub ports : List ServicePort

pub record ServiceMapping : Type 0 where
  pub service_name : GoString
  pub namespace : GoString
  pub service_port : ℤ
  pub port_name : GoString
  pub mapped_port : ℕ
  pub backend_name : GoString
  pub frontend_name : GoString
  pub bind_name : GoString
  pub cluster_ip : GoString
  pub created_at : ℕ

abbrev pub Mappings : Type 0
Mappings = List (GoString × ServiceMapping)

pub record ServiceController : Type 0 where
  pub handler : HaproxyHandle
  pub controller_addr : GoString
  pub controller_port : ℤ
  pub port_range_start : ℕ
  pub port_range_end : ℕ
  pub allowed_namespaces : List GoString
  pub target_port_names : List GoString
  pub service_mappings : Mappings
  pub port_allocations : List (ℕ × Bool)
  pub check_timeout : ℤ
  pub check_interval : ℤ
  pub hide_backend : Bool
  pub max_batch_size : ℤ
  pub is_off_check : Bool

-- A map whose values are all `true`, as the list of its keys.
unfoldable pub member : List GoString → GoString → Bool
member [] s = false
member (t ∷ ts) s = if t == s then true else member ts s

-- `m[key]`, where the keys are distinct.
unfoldable pub lookup : GoString → Mappings → Option ServiceMapping
lookup k [] = none
lookup k ((j, v) ∷ m) = if j == k then some v else lookup k m

-- `m[key] = v`
unfoldable pub insert : GoString → ServiceMapping → Mappings → Mappings
insert k v [] = (k, v) ∷ []
insert k v ((j, w) ∷ m) = if j == k then (j, v) ∷ m else (j, w) ∷ insert k v m

-- `delete(m, key)`; a map has at most one entry of a key.
unfoldable pub erase : GoString → Mappings → Mappings
erase k [] = []
erase k ((j, w) ∷ m) = let rest = erase k m in if j == k then rest else (j, w) ∷ rest

-- `c.portAllocations[port]`
unfoldable pub is_allocated : ℕ → List (ℕ × Bool) → Bool
is_allocated p [] = false
is_allocated p ((q, b) ∷ a) = if nat_eq q p then b else is_allocated p a

-- `c.portAllocations[port] = b`
unfoldable pub set_allocated : ℕ → Bool → List (ℕ × Bool) → List (ℕ × Bool)
set_allocated p b [] = (p, b) ∷ []
set_allocated p b ((q, old) ∷ a) = if nat_eq q p then (q, b) ∷ a else (q, old) ∷ set_allocated p b a

-- newServiceController. The two maps of flags are the lists that they are filled from.
unfoldable pub new_service_controller :
    ℤ
    → GoString
    → GoString
    → GoString
    → GoString
    → Bool
    → ℕ
    → ℕ
    → List GoString
    → List GoString
    → ℤ
    → ℤ
    → Bool
    → ℤ
    → ServiceController
unfolding new_haproxy_handle
new_service_controller listen_port listen_addr dataplan_host dataplan_user dataplan_password
      hide_backend port_range_start port_range_end allowed_namespaces target_port_names
      check_timeout check_interval is_off_check max_batch_size =
    record {
      handler = new_haproxy_handle dataplan_user dataplan_password dataplan_host;
      controller_addr = listen_addr;
      controller_port = listen_port;
      port_range_start = port_range_start;
      port_range_end = port_range_end;
      allowed_namespaces = allowed_namespaces;
      target_port_names = target_port_names;
      service_mappings = [];
      port_allocations = [];
      check_timeout = check_timeout;
      check_interval = check_interval;
      hide_backend = hide_backend;
      max_batch_size = max_batch_size;
      is_off_check = is_off_check;
    }
