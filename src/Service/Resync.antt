-- ===== src/Service/Resync.antt =====
-- What a further synchronisation of a Service does to the mappings that are there.
use pod_proxier.Base.{
  ℕ, ◌≡◌, refl, ◌⊎◌, inl, inr, true, false, none, some, List, [], ◌∷◌, All, arith, is_some,
  Bool-cases, Option-cases,
}
use pod_proxier.GoString.{GoString}
use pod_proxier.Haproxy.Response.{GoError}
use pod_proxier.Service.State.{ServiceController, KubeService, ServicePort, ServiceMapping, lookup}
use pod_proxier.Service.Ports.{
  Allocation, allocated, exhausted, allocate_port, release_port, is_target_port_name,
}
use pod_proxier.Service.FirstFree.{Allocates, allocate_port-Allocates}
use pod_proxier.Service.Consistency.{lookup_old}
use pod_proxier.Service.Cluster.{Cluster}
use pod_proxier.Service.Mapping.{
  State, mapping_key, new_mapping, settle, map_with, map_port, process_port, process_ports,
  is_headless, process_service_with_tx,
}

-- The port is none that the controller selects, or it has a mapping.
abbrev pub IsSettled : KubeService → ServiceController → ServicePort → Type 0
IsSettled service c port =
    (is_target_port_name c port.name ≡ false)
    ⊎ (is_some (lookup (mapping_key service port) c.service_mappings) ≡ true)

module _ (k : Cluster) (service : KubeService) (tx_id : GoString) where
  process_port-IsSettled :
      (port : ServicePort) (s : State k)
      → IsSettled service s.0 port
      → process_port k service tx_id port s ≡ s
  unfolding process_port
  process_port-IsSettled port (c, w) (inl other) = rw other refl
  process_port-IsSettled port (c, w) (inr there) = ground arith

  process_ports-IsSettled :
      (ports : List ServicePort) (s : State k)
      → All (IsSettled service s.0) ports
      → process_ports k service tx_id ports s ≡ s
  unfolding process_ports
  process_ports-IsSettled [] s h = refl
  process_ports-IsSettled (port ∷ ports) s (here, there) =
      rw (process_port-IsSettled port s here) (process_ports-IsSettled ports s there)

  -- Where every port of a Service that the controller selects has a mapping, synchronising the
  -- Service again changes nothing and sends nothing.
  pub process_service_with_tx-IsSettled :
      (s : State k)
      → All (IsSettled service s.0) service.ports
      → process_service_with_tx k service tx_id s ≡ s
  unfolding process_service_with_tx
  process_service_with_tx-IsSettled s h = ground (arith, process_ports-IsSettled service.ports s h)

  module _ (key : GoString) (m : ServiceMapping) where
    lookup-settle :
        (port : ServicePort) (p : ℕ) (c : ServiceController) (r : GoError × (k.api).World)
        → lookup (mapping_key service port) c.service_mappings ≡ none
        → lookup key c.service_mappings ≡ some m
        → lookup key (settle k service port p c r).0.service_mappings ≡ some m
    unfolding settle release_port
    lookup-settle port p c (some e, w) fresh there = there
    lookup-settle port p c (none, w) fresh there =
        lookup_old c (mapping_key service port) (new_mapping service port p (k.now w).0) key m fresh
          there

    lookup-map_with :
        (port : ServicePort) (c : ServiceController) (w : (k.api).World)
        (r : Allocation × ServiceController)
        → Allocates c r
        → lookup (mapping_key service port) c.service_mappings ≡ none
        → lookup key c.service_mappings ≡ some m
        → lookup key (map_with k service tx_id port w r).0.service_mappings ≡ some m
    unfolding map_with
    lookup-map_with port c w (exhausted _, c') (same, _, _) fresh there = rw same there
    lookup-map_with port c w (allocated p, c') (same, _, _, _, _) fresh there =
        rw same (lookup-settle port p _ _ fresh there)

    lookup-process_port :
        (port : ServicePort) (s : State k)
        → lookup key s.0.service_mappings ≡ some m
        → lookup key (process_port k service tx_id port s).0.service_mappings ≡ some m
    unfolding process_port map_port
    lookup-process_port port (c, w) there = elim (Bool-cases (is_target_port_name c port.name)) [
      | inr other ↦ rw other there
      | inl target ↦ elim (Option-cases (lookup (mapping_key service port) c.service_mappings)) [
        | inr (n, e) ↦ rw (target, e) there
        | inl fresh ↦
            rw (target, fresh)
              (lookup-map_with port c w (allocate_port c) (allocate_port-Allocates c) fresh there)
      ]
    ]

    lookup-process_ports :
        (ports : List ServicePort) (s : State k)
        → lookup key s.0.service_mappings ≡ some m
        → lookup key (process_ports k service tx_id ports s).0.service_mappings ≡ some m
    unfolding process_ports
    lookup-process_ports [] s there = there
    lookup-process_ports (port ∷ ports) s there =
        lookup-process_ports ports _ (lookup-process_port port s there)

    -- A mapping that is there stays as it is while a Service is synchronised, its own or another.
    pub lookup-process_service_with_tx :
        (s : State k)
        → lookup key s.0.service_mappings ≡ some m
        → lookup key (process_service_with_tx k service tx_id s).0.service_mappings ≡ some m
    unfolding process_service_with_tx
    lookup-process_service_with_tx s there = elim (Bool-cases (is_headless service)) [
      | inl e ↦ rw e there
      | inr e ↦ rw e (lookup-process_ports service.ports s there)
    ]
