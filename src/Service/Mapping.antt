-- ===== src/Service/Mapping.antt =====
-- controller/service_controller.go, processServiceWithTx, removeServiceMappingsWithTx, syncService
-- and ListServiceMappings. `listenersLock` is held through each of the first two, so each is one
-- action on the controller's state and the world.
use pod_proxier.Base.{
  ℕ, Bool, ◌||◌, not, Option, none, some, List, [], ◌∷◌, if◌then◌else◌, ltb, is_some,
}
use pod_proxier.Base.Int.{pos}
use pod_proxier.GoString.{GoString, str, ◌==◌, has_prefix}
use pod_proxier.GoString.Number.{format_int}
use pod_proxier.Haproxy.Response.{GoError}
use pod_proxier.Haproxy.Handle.{cat}
use pod_proxier.Haproxy.Backends.{delete_frontend, delete_backend}
use pod_proxier.Service.State.{
  ServiceController, KubeService, ServicePort, ServiceMapping, Mappings, lookup, insert, erase,
}
use pod_proxier.Service.Ports.{
  Allocation, allocated, exhausted, allocate_port, release_port, is_namespace_allowed,
  is_target_port_name,
}
use pod_proxier.Service.Cluster.{Cluster, Found, parts, malformed, found, absent, broken}
use pod_proxier.Service.Proxy.{create_service_proxy}

abbrev pub mapping_key : KubeService → ServicePort → GoString
mapping_key service port =
    cat (service.namespace ∷ str "/" ∷ service.name ∷ str "/" ∷ port.name ∷ [])

abbrev pub service_prefix : KubeService → GoString
service_prefix service = cat (service.namespace ∷ str "/" ∷ service.name ∷ str "/" ∷ [])

abbrev pub backend_name : KubeService → ServicePort → GoString
backend_name service port = cat (
    str "SVC_BACKEND_"
    ∷ service.namespace
    ∷ str "."
    ∷ service.name
    ∷ str ":"
    ∷ format_int port.port
    ∷ [])

abbrev pub frontend_name : KubeService → ℕ → GoString
frontend_name service mapped_port = cat (
    str "SVC_FRONTEND_"
    ∷ service.namespace
    ∷ str "."
    ∷ service.name
    ∷ str ":"
    ∷ format_int (pos mapped_port)
    ∷ [])

abbrev pub bind_name : KubeService → ServicePort → GoString
bind_name service port =
    cat (str "SVC_BIND_" ∷ service.namespace ∷ str "_" ∷ service.name ∷ str "_" ∷ port.name ∷ [])

abbrev pub new_mapping : KubeService → ServicePort → ℕ → ℕ → ServiceMapping
new_mapping service port mapped_port created_at = record {
  service_name = service.name;
  namespace = service.namespace;
  service_port = port.port;
  port_name = port.name;
  mapped_port = mapped_port;
  backend_name = backend_name service port;
  frontend_name = frontend_name service mapped_port;
  bind_name = bind_name service port;
  cluster_ip = service.cluster_ip;
  created_at = created_at;
}

unfoldable pub is_headless : KubeService → Bool
is_headless service = service.cluster_ip == str "" || service.cluster_ip == str "None"

unfoldable pub with_prefix : GoString → Mappings → List GoString
with_prefix prefix [] = []
with_prefix prefix ((k, _) ∷ m) =
    let rest = with_prefix prefix m in if has_prefix k prefix then k ∷ rest else rest

module _ (k : Cluster) where
  abbrev World : Type 0
  World = (k.api).World

  -- The controller and everything outside it.
  abbrev pub State : Type 0
  State = ServiceController × World

  -- After createServiceProxy: release the port, or record the mapping.
  unfoldable pub settle :
      KubeService → ServicePort → ℕ → ServiceController → GoError × World → State
  settle service port mapped_port c (some _, w) = (release_port mapped_port c, w)
  settle service port mapped_port c (none, w) =
      let (t, w') = k.now w in
      (
        record c {
          service_mappings =
              insert (mapping_key service port) (new_mapping service port mapped_port t)
                c.service_mappings;
        },
        w',
      )

  -- After allocatePort.
  unfoldable pub map_with :
      KubeService → GoString → ServicePort → World → Allocation × ServiceController → State
  map_with service tx_id port w (exhausted _, c) = (c, w)
  map_with service tx_id port w (allocated p, c) = settle service port p c (
      create_service_proxy k.api c tx_id service port p (backend_name service port)
        (frontend_name service p) (bind_name service port) c.hide_backend w)

  -- From allocatePort on.
  unfoldable pub map_port : KubeService → GoString → ServicePort → State → State
  map_port service tx_id port (c, w) = map_with service tx_id port w (allocate_port c)

  -- One round of the loop over the Service's ports.
  unfoldable pub process_port : KubeService → GoString → ServicePort → State → State
  process_port service tx_id port (c, w) =
      if not (is_target_port_name c port.name)
      then (c, w)
      else if is_some (lookup (mapping_key service port) c.service_mappings)
      then (c, w)
      else map_port service tx_id port (c, w)

  unfoldable pub process_ports : KubeService → GoString → List ServicePort → State → State
  process_ports service tx_id [] s = s
  process_ports service tx_id (port ∷ ports) s =
      process_ports service tx_id ports (process_port service tx_id port s)

  unfoldable pub process_service_with_tx : KubeService → GoString → State → State
  process_service_with_tx service tx_id s =
      if is_headless service then s else process_ports service tx_id service.ports s

  -- One round of the deletion loop, at what the map holds under the key. The results of the two
  -- requests are dropped.
  unfoldable pub remove_found : GoString → GoString → Option ServiceMapping → State → State
  remove_found tx_id key none s = s
  remove_found tx_id key (some m) (c, w) =
      let (_, w') = delete_frontend k.api c.handler m.frontend_name tx_id w in
      let (_, w'') = delete_backend k.api c.handler m.backend_name tx_id w' in
      let c' = release_port m.mapped_port c in
      (record c' { service_mappings = erase key c.service_mappings }, w'')

  unfoldable pub remove_mapping : GoString → GoString → State → State
  remove_mapping tx_id key (c, w) = remove_found tx_id key (lookup key c.service_mappings) (c, w)

  unfoldable pub remove_mappings : GoString → List GoString → State → State
  remove_mappings tx_id [] s = s
  remove_mappings tx_id (key ∷ keys) s = remove_mappings tx_id keys (remove_mapping tx_id key s)

  -- Only the name and the namespace of the Service are read. The order of Go's range over a map is
  -- that of the list, which is any.
  unfoldable pub remove_service_mappings_with_tx : KubeService → GoString → State → State
  remove_service_mappings_with_tx service tx_id (c, w) =
      remove_mappings tx_id (with_prefix (service_prefix service) c.service_mappings) (c, w)

  -- The stand-in for a Service that is gone.
  abbrev pub deleted_service : GoString → GoString → KubeService
  deleted_service namespace name = record {
    name = name;
    namespace = namespace;
    resource_version = str "";
    cluster_ip = str "";
    ports = [];
  }

  -- After GetByKey: the rest of syncService, for a key of the given namespace and name.
  unfoldable pub sync_found :
      GoString → GoString → GoString → ServiceController → Found × World → GoError × State
  sync_found namespace name tx_id c (broken e, w) = (some e, (c, w))
  sync_found namespace name tx_id c (absent, w) =
      (none, remove_service_mappings_with_tx (deleted_service namespace name) tx_id (c, w))
  sync_found namespace name tx_id c (found service, w) = (
    none,
    (if not (is_namespace_allowed c service.namespace)
        then (c, w)
        else process_service_with_tx service tx_id (c, w)),
  )

  unfoldable pub sync_service : GoString → GoString → State → GoError × State
  sync_service key tx_id (c, w) = elim (k.split_key key) [
    | malformed e ↦ (some e, (c, w))
    | parts namespace name ↦ sync_found namespace name tx_id c (k.get_by_key key w)
  ]

-- The copy that ListServiceMappings makes: it leaves BindName out.
abbrev pub listed : ServiceMapping → ServiceMapping
listed m = record m { bind_name = str "" }

-- sort.Slice by CreatedAt, the latest first; entries of one time may come in any order.
unfoldable pub insert_by_time : ServiceMapping → List ServiceMapping → List ServiceMapping
insert_by_time m [] = m ∷ []
insert_by_time m (n ∷ ns) =
    if ltb m.created_at n.created_at then n ∷ insert_by_time m ns else m ∷ n ∷ ns

unfoldable pub sort_mappings : Mappings → List ServiceMapping
unfolding insert_by_time
sort_mappings [] = []
sort_mappings ((_, m) ∷ ms) = insert_by_time (listed m) (sort_mappings ms)

unfoldable pub list_service_mappings : ServiceController → List ServiceMapping
unfolding sort_mappings
list_service_mappings c = sort_mappings c.service_mappings
