-- ===== src/Service/Lockstep/Ports.antt =====
-- processServiceWithTx in service_controller.go: a mapping is recorded together with its route.
use pod_proxier.Base.{
  ℕ, ◌≡◌, ◌≢◌, refl, ◌∙◌, sym, subst, inl, inr, Option, none, some, false, List, [], ◌∷◌, ◌++◌,
  Bool-cases, is_some,
}
use pod_proxier.GoString.{GoString}
use pod_proxier.Haproxy.Response.{GoError}
use pod_proxier.Haproxy.Api.{Request}
use pod_proxier.Haproxy.Plane.{DataPlane, IsPlain}
use pod_proxier.Service.State.{ServiceController, KubeService, ServicePort, lookup, is_allocated}
use pod_proxier.Service.Ports.{
  Allocation, allocated, exhausted, allocate_port, release_port, is_target_port_name,
}
use pod_proxier.Service.FirstFree.{Allocates, allocate_port-Allocates}
use pod_proxier.Service.Cluster.{Cluster}
use pod_proxier.Service.Proxy.{backend_object, server_object}
use pod_proxier.Service.Route.{IsRoute, Made}
use pod_proxier.Service.Route.Chain.{create_service_proxy-IsRoute}
use pod_proxier.Service.Atomic.{IsApart}
use pod_proxier.Service.Reach.{marked}
use pod_proxier.Service.Mapping.{
  State, mapping_key, backend_name, frontend_name, bind_name, settle, map_with, map_port,
  process_port, process_ports, is_headless, process_service_with_tx,
}
use pod_proxier.Service.Lockstep.{routed, given_up, IsInStep, longer}

-- What is not there.
not_there : {A : Type 0} (o : Option A) → is_some o ≡ false → o ≡ none
not_there none h = refl
not_there (some a) h = cc

module _ (k : Cluster) (plane : DataPlane k.api) (plain : IsPlain k.api) (apart : IsApart k plane)
    (tx_id : GoString) (open_tx : tx_id ≢ []) (s0 : State k) where
  -- The route that the port's writes are, once the port has been marked.
  abbrev Written : KubeService → ServicePort → ℕ → ServiceController → List Request → Type 0
  Written service port p c =
      IsRoute k.api c tx_id service port p (backend_name service port) (frontend_name service p)
        (bind_name service port) c.hide_backend

  unmarked :
      (service : KubeService) (port : ServicePort) (p : ℕ) (c : ServiceController)
      (rs : List Request)
      → Written service port p (marked p c) rs
      → Written service port p c rs
  unfolding backend_object server_object
  unmarked service port p c rs route = route

  settle-IsInStep :
      (service : KubeService) (port : ServicePort) (p : ℕ) (c : ServiceController)
      (w : (k.api).World) (r : GoError × (k.api).World)
      → lookup (mapping_key service port) c.service_mappings ≡ none
      → is_allocated p c.port_allocations ≡ false
      → IsInStep k plane tx_id s0 (c, w)
      → Made k.api plane tx_id (Written service port p (marked p c)) 3 w r
      → IsInStep k plane tx_id s0 (settle k service port p (marked p c) r)
  unfolding settle release_port
  settle-IsInStep service port p c w (some e, v) fresh free (l, steps, grown)
        (rs, few, additions, more) =
      (rs ++ l, given_up p rs steps free few additions, longer k plane tx_id s0 rs l _ _ more grown)
  settle-IsInStep service port p c w (none, v) fresh free (l, steps, grown) (rs, route, more) = (
    rs ++ l,
    routed service port p (k.now v).0 rs steps fresh free (unmarked service port p c rs route),
    longer k plane tx_id s0 rs l _ _ ((apart.clock v).1 tx_id ∙ more) grown,
  )

  map_with-IsInStep :
      (service : KubeService) (port : ServicePort) (c : ServiceController) (w : (k.api).World)
      (r : Allocation × ServiceController)
      → lookup (mapping_key service port) c.service_mappings ≡ none
      → Allocates c r
      → IsInStep k plane tx_id s0 (c, w)
      → IsInStep k plane tx_id s0 (map_with k service tx_id port w r)
  unfolding map_with
  map_with-IsInStep service port c w (exhausted e, d) fresh (same, _, _) before =
      subst (λ c. IsInStep k plane tx_id s0 (c, w)) (sym same) before
  map_with-IsInStep service port c w (allocated p, d) fresh (same, _, _, free, _) before =
      subst (λ d. IsInStep k plane tx_id s0 (map_with k service tx_id port w (allocated p, d)))
        (sym same)
        (settle-IsInStep service port p c w _ fresh free before (
          create_service_proxy-IsRoute k.api plane plain (marked p c) tx_id open_tx service port p _
            _ _ _ w))

  process_port-IsInStep :
      (service : KubeService) (port : ServicePort) (s : State k)
      → IsInStep k plane tx_id s0 s
      → IsInStep k plane tx_id s0 (process_port k service tx_id port s)
  unfolding process_port map_port
  process_port-IsInStep service port (c, w) before =
      elim (Bool-cases (is_target_port_name c port.name)) [
        | inr e ↦ rw e before
        | inl e ↦
            elim (Bool-cases (is_some (lookup (mapping_key service port) c.service_mappings))) [
              | inl old ↦ rw (e, old) before
              | inr fresh ↦
                  rw (e, fresh)
                    (map_with-IsInStep service port c w (allocate_port c) (not_there _ fresh)
                      (allocate_port-Allocates c) before)
            ]
      ]

  process_ports-IsInStep :
      (service : KubeService) (ports : List ServicePort) (s : State k)
      → IsInStep k plane tx_id s0 s
      → IsInStep k plane tx_id s0 (process_ports k service tx_id ports s)
  unfolding process_ports
  process_ports-IsInStep service [] s before = before
  process_ports-IsInStep service (port ∷ ports) s before =
      process_ports-IsInStep service ports _ (process_port-IsInStep service port s before)

  pub process_service_with_tx-IsInStep :
      (service : KubeService) (s : State k)
      → IsInStep k plane tx_id s0 s
      → IsInStep k plane tx_id s0 (process_service_with_tx k service tx_id s)
  unfolding process_service_with_tx
  process_service_with_tx-IsInStep service s before = elim (Bool-cases (is_headless service)) [
    | inl e ↦ rw e before
    | inr e ↦ rw e (process_ports-IsInStep service service.ports s before)
  ]
