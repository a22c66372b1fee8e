-- ===== src/Service/Removal.antt =====
-- What the removal of a Service's mappings leaves.
use pod_proxier.Base.{
  ◌≡◌, refl, ap, ◌∙◌, true, ◌&&◌, Option, none, some, List, [], ◌∷◌, if◌then◌else◌, arith,
}
use pod_proxier.GoString.{GoString, ◌==◌, eq_iff, has_prefix}
use pod_proxier.GoString.Prefix.{Lacks, has_prefix-append}
use pod_proxier.Service.State.{KubeService, ServicePort, ServiceMapping, Mappings, lookup, member}
use pod_proxier.Service.Ports.{release_port}
use pod_proxier.Service.Maps.{lookup-erase}
use pod_proxier.Service.Cluster.{Cluster}
use pod_proxier.Service.Mapping.{
  State, mapping_key, service_prefix, with_prefix, remove_found, remove_mapping, remove_mappings,
  remove_service_mappings_with_tx,
}

member-with_prefix :
    (prefix j : GoString) (m : Mappings)
    → member (with_prefix prefix m) j ≡ true
    → has_prefix j prefix ≡ true
unfolding member with_prefix
member-with_prefix prefix j [] h = cc
member-with_prefix prefix j ((i, w) ∷ m) h =
    ground (arith, eq_iff i j, member-with_prefix prefix j m)

lookup-with_prefix :
    (prefix j : GoString) (m : Mappings)
    → (if member (with_prefix prefix m) j then none else lookup j m)
      ≡ (if has_prefix j prefix then none else lookup j m)
unfolding member with_prefix lookup
lookup-with_prefix prefix j [] = ground arith
lookup-with_prefix prefix j ((i, w) ∷ m) =
    ground (arith, eq_iff i j, lookup-with_prefix prefix j m, member-with_prefix prefix j m)

module _ (k : Cluster) where
  lookup-remove_found :
      (tx_id key j : GoString) (found : Option ServiceMapping) (s : State k)
      → lookup key s.0.service_mappings ≡ found
      → lookup j (remove_found k tx_id key found s).0.service_mappings
        ≡ (if key == j then none else lookup j s.0.service_mappings)
  unfolding remove_found release_port
  lookup-remove_found tx_id key j none s e = ground (arith, eq_iff key j)
  lookup-remove_found tx_id key j (some m) (c, w) e = lookup-erase key j c.service_mappings

  lookup-remove_mapping :
      (tx_id key j : GoString) (s : State k)
      → lookup j (remove_mapping k tx_id key s).0.service_mappings
        ≡ (if key == j then none else lookup j s.0.service_mappings)
  unfolding remove_mapping
  lookup-remove_mapping tx_id key j (c, w) = lookup-remove_found tx_id key j _ (c, w) refl

  lookup-remove_mappings :
      (tx_id : GoString) (keys : List GoString) (j : GoString) (s : State k)
      → lookup j (remove_mappings k tx_id keys s).0.service_mappings
        ≡ (if member keys j then none else lookup j s.0.service_mappings)
  unfolding remove_mappings member
  lookup-remove_mappings tx_id [] j s = refl
  lookup-remove_mappings tx_id (key ∷ keys) j s = ground (
    arith,
    lookup-remove_mappings tx_id keys j (remove_mapping k tx_id key s),
    lookup-remove_mapping tx_id key j s,
  )

  -- Exactly the keys with the Service's prefix are gone.
  pub lookup-remove_service_mappings_with_tx :
      (service : KubeService) (tx_id j : GoString) (s : State k)
      → lookup j (remove_service_mappings_with_tx k service tx_id s).0.service_mappings
        ≡ (if has_prefix j (service_prefix service) then none else lookup j s.0.service_mappings)
  unfolding remove_service_mappings_with_tx
  lookup-remove_service_mappings_with_tx service tx_id j (c, w) =
      lookup-remove_mappings tx_id _ j (c, w) ∙ lookup-with_prefix _ j c.service_mappings

has_prefix-mapping_key :
    (service other : KubeService) (port : ServicePort)
    → Lacks 47 service.namespace
    → Lacks 47 service.name
    → Lacks 47 other.namespace
    → Lacks 47 other.name
    → has_prefix (mapping_key other port) (service_prefix service)
      ≡ ((other.namespace == service.namespace) && (other.name == service.name))
unfolding has_prefix
has_prefix-mapping_key service other port ns n ns' n' =
    has_prefix-append 47 other.namespace service.namespace _ _ ns' ns
    ∙ ap (λ b. (other.namespace == service.namespace) && b)
        (has_prefix-append 47 other.name service.name _ _ n' n ∙ ground arith)

module _ (k : Cluster) where
  -- Where no namespace or name holds a slash, the removal of a Service's mappings takes out every
  -- mapping of that Service and leaves every mapping of another Service as it was.
  pub remove_service_mappings_with_tx_own :
      (service other : KubeService) (port : ServicePort) (tx_id : GoString) (s : State k)
      → Lacks 47 service.namespace
      → Lacks 47 service.name
      → Lacks 47 other.namespace
      → Lacks 47 other.name
      → lookup
          (mapping_key other port)
          (remove_service_mappings_with_tx k service tx_id s).0.service_mappings
        ≡ (if (other.namespace == service.namespace) && (other.name == service.name)
            then none
            else lookup (mapping_key other port) s.0.service_mappings)
  remove_service_mappings_with_tx_own service other port tx_id s ns n ns' n' =
      lookup-remove_service_mappings_with_tx k service tx_id (mapping_key other port) s
      ∙ ap (λ b. if b then none else lookup (mapping_key other port) s.0.service_mappings)
          (has_prefix-mapping_key service other port ns n ns' n')
