-- ===== src/Service/Outcome.antt =====
-- What becomes of one port of a Service that is to be mapped.
use pod_proxier.Base.{
  ℕ, ◌≤◌, ◌≡◌, refl, sym, ap, ◌∙◌, ◌⊎◌, inl, inr, true, false, none, some, arith, is_some,
}
use pod_proxier.GoString.{GoString}
use pod_proxier.Haproxy.Response.{GoError}
use pod_proxier.Service.State.{
  ServiceController, KubeService, ServicePort, lookup, is_allocated, set_allocated,
}
use pod_proxier.Service.Ports.{
  Allocation, allocated, exhausted, allocate_port, release_port, is_target_port_name,
}
use pod_proxier.Service.FirstFree.{Allocates, allocate_port-Allocates}
use pod_proxier.Service.Maps.{is_allocated-set_allocated}
use pod_proxier.Service.Consistency.{lookup_new}
use pod_proxier.Service.Proxy.{create_service_proxy}
use pod_proxier.Service.Cluster.{Cluster}
use pod_proxier.Service.Reach.{marked}
use pod_proxier.Service.Mapping.{
  State, mapping_key, new_mapping, backend_name, frontend_name, bind_name, settle, map_with,
  map_port, process_port,
}

module _ (k : Cluster) (service : KubeService) (tx_id : GoString) (port : ServicePort)
    (c : ServiceController) (w : (k.api).World) where
  -- createServiceProxy with the port that has been allocated.
  abbrev pub write : ℕ → GoError × (k.api).World
  write p =
      create_service_proxy k.api (marked p c) tx_id service port p (backend_name service port)
        (frontend_name service p) (bind_name service port) c.hide_backend w

  -- Every port of the range is taken, and nothing happens.
  abbrev pub IsRefused : State k → Type 0
  IsRefused after =
      ((q : ℕ)
        → c.port_range_start ≤ q
        → q ≤ c.port_range_end
        → is_allocated q c.port_allocations ≡ true)
      × (after ≡ (c, w))

  -- The writes for a free port fail: there is no mapping, and the same ports are taken as before.
  abbrev pub IsUndone : State k → Type 0
  IsUndone after =
      (p : ℕ) × (is_some (write p).0 ≡ true)
      × (after.1 ≡ (write p).1)
      × (lookup (mapping_key service port) after.0.service_mappings ≡ none)
      × ((q : ℕ) → is_allocated q after.0.port_allocations ≡ is_allocated q c.port_allocations)

  -- The writes for a free port succeed: the mapping is there, and its port is taken.
  abbrev pub IsDone : State k → Type 0
  IsDone after =
      (p : ℕ) × ((write p).0 ≡ none)
      × (is_allocated p c.port_allocations ≡ false)
      × (lookup (mapping_key service port) after.0.service_mappings
          ≡ some (new_mapping service port p (k.now (write p).1).0))
      × (is_allocated p after.0.port_allocations ≡ true)
      × (after.1 ≡ (k.now (write p).1).1)

  module _ (p : ℕ) (fresh : lookup (mapping_key service port) c.service_mappings ≡ none)
      (free : is_allocated p c.port_allocations ≡ false) where
    given_back :
        (q : ℕ)
        → is_allocated q (set_allocated p false (set_allocated p true c.port_allocations))
          ≡ is_allocated q c.port_allocations
    given_back q = ground (
      arith,
      is_allocated-set_allocated p q false (set_allocated p true c.port_allocations),
      is_allocated-set_allocated p q true c.port_allocations,
    )

    settled :
        (r : GoError × (k.api).World)
        → write p ≡ r
        → IsUndone (settle k service port p (marked p c) r)
          ⊎ IsDone (settle k service port p (marked p c) r)
    unfolding settle release_port
    settled (some e, w1) written =
        inl (p, ap (λ r. is_some r.0) written, ap (λ r. r.1) (sym written), fresh, given_back)
    settled (none, w1) written = inr (
      p,
      ap (λ r. r.0) written,
      free,
      lookup_new c (mapping_key service port) (new_mapping service port p (k.now w1).0)
          ∙ ap (λ r. some (new_mapping service port p (k.now r.1).0)) (sym written),
      ground (arith, is_allocated-set_allocated p p true c.port_allocations),
      ap (λ r. (k.now r.1).1) (sym written),
    )

  mapped_with :
      lookup (mapping_key service port) c.service_mappings ≡ none
      → (r : Allocation × ServiceController) → Allocates c r
      → IsRefused (map_with k service tx_id port w r)
        ⊎ IsUndone (map_with k service tx_id port w r)
        ⊎ IsDone (map_with k service tx_id port w r)
  unfolding map_with
  mapped_with fresh (exhausted _, c') (same, _, taken) = inl (taken, ap (λ d. (d, w)) same)
  mapped_with fresh (allocated p, c') (same, _, _, free, _) =
      rw same (inr (settled p fresh free _ refl))

  -- A selected port without a mapping either finds the whole range taken, and nothing happens; or
  -- its writes fail, and it has no mapping and the same ports are taken as before; or its writes
  -- succeed, and it has its mapping on a port that was free and is taken now.
  pub process_port_outcome :
      is_target_port_name c port.name ≡ true
      → lookup (mapping_key service port) c.service_mappings ≡ none
      → IsRefused (process_port k service tx_id port (c, w))
        ⊎ IsUndone (process_port k service tx_id port (c, w))
        ⊎ IsDone (process_port k service tx_id port (c, w))
  unfolding process_port map_port
  process_port_outcome target fresh =
      rw (target, fresh) (mapped_with fresh (allocate_port c) (allocate_port-Allocates c))
