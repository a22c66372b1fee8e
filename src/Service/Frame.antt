-- ===== src/Service/Frame.antt =====
-- syncService in service_controller.go, and properties of the outside world that scoped requests,
-- the clock and the cache keep.
use pod_proxier.Base.{
  ℕ, ◌≡◌, refl, inl, inr, Bool, Option, none, some, List, [], ◌∷◌, Bool-cases, is_some,
}
use pod_proxier.GoString.{GoString}
use pod_proxier.Haproxy.Types.{Server}
use pod_proxier.Haproxy.Response.{GoError, already_exists}
use pod_proxier.Haproxy.Api.{Api, Request}
use pod_proxier.Haproxy.Scope.{
  IsScoped, ensure_backend-keeps, ensure_frontend-keeps, add_backend-keeps, replace_backend-keeps,
  delete_backend-keeps, add_frontend-keeps, replace_frontend-keeps, delete_frontend-keeps,
  add_server_to_backend-keeps, replace_server_from_backend-keeps, add_bind-keeps,
}
use pod_proxier.Haproxy.Backends.{ensure_backend, ensure_frontend}
use pod_proxier.Service.State.{ServiceController, KubeService, ServicePort, ServiceMapping, lookup}
use pod_proxier.Service.Ports.{
  Allocation, allocated, exhausted, allocate_port, is_namespace_allowed, is_target_port_name,
}
use pod_proxier.Service.Cluster.{Cluster, Split, parts, malformed, Found, found, absent, broken}
use pod_proxier.Service.Proxy.{
  write_backend, write_server, after_add, write_frontend, write_bind, create_service_proxy,
  then_if_nil,
}
use pod_proxier.Service.Mapping.{
  State, mapping_key, settle, map_with, map_port, process_port, process_ports, is_headless,
  process_service_with_tx, remove_found, remove_mapping, remove_mappings,
  remove_service_mappings_with_tx, sync_found, sync_service,
}

module _ (api : Api) (c : ServiceController) (tx_id : GoString) (P : api.World → Type 0)
    (sends : (r : Request) (w : api.World) → IsScoped tx_id r → P w → P (api.send r w).1) where
  write_backend-keeps :
      (name : GoString) (hide : Bool) (w : api.World)
      → P w
      → P (write_backend api c tx_id name hide w).1
  unfolding write_backend
  write_backend-keeps name hide w p =
      let p' = ensure_backend-keeps api c.handler tx_id P sends name w p in
      elim (Bool-cases (ensure_backend api c.handler name w).0) [
        | inl e ↦ rw e (replace_backend-keeps api c.handler tx_id P sends name _ _ p')
        | inr e ↦ rw e (add_backend-keeps api c.handler tx_id P sends _ _ p')
      ]

  after_add-keeps :
      (server : Server) (name : GoString) (e : GoError) (w : api.World)
      → P w
      → P (after_add api c tx_id server name e w).1
  after_add-keeps server name none w p = p
  after_add-keeps server name (some e) w p = elim (Bool-cases (already_exists e)) [
    | inl old ↦
        rw old (replace_server_from_backend-keeps api c.handler tx_id P sends _ server name w p)
    | inr other ↦ rw other p
  ]

  write_server-keeps :
      (server : Server) (name : GoString) (w : api.World)
      → P w
      → P (write_server api c tx_id server name w).1
  unfolding write_server
  write_server-keeps server name w p =
      after_add-keeps server name _ _
        (add_server_to_backend-keeps api c.handler tx_id P sends server name w p)

  write_frontend-keeps :
      (name backend_name : GoString) (w : api.World)
      → P w
      → P (write_frontend api c tx_id name backend_name w).1
  unfolding write_frontend
  write_frontend-keeps name backend_name w p =
      let p' = ensure_frontend-keeps api c.handler tx_id P sends name w p in
      elim (Bool-cases (ensure_frontend api c.handler name w).0) [
        | inl e ↦ rw e (replace_frontend-keeps api c.handler tx_id P sends name _ _ p')
        | inr e ↦ rw e (add_frontend-keeps api c.handler tx_id P sends _ _ p')
      ]

  write_bind-keeps :
      (name : GoString) (port : ℕ) (frontend_name : GoString) (w : api.World)
      → P w
      → P (write_bind api c tx_id name port frontend_name w).1
  unfolding write_bind
  write_bind-keeps name port frontend_name w p =
      add_bind-keeps api c.handler tx_id P sends _ frontend_name w p

  then_if_nil-keeps :
      (e : GoError) (m : api.World → GoError × api.World) (w : api.World)
      → P w
      → ((v : api.World) → P v → P (m v).1)
      → P (then_if_nil api c tx_id e m w).1
  unfolding then_if_nil
  then_if_nil-keeps none m w p keeps = keeps w p
  then_if_nil-keeps (some e) m w p keeps = p

  pub create_service_proxy-keeps :
      (service : KubeService) (port : ServicePort) (mapped_port : ℕ)
      (backend_name frontend_name bind_name : GoString) (hide : Bool) (w : api.World)
      → P w
      → P
          (create_service_proxy api c tx_id service port mapped_port backend_name frontend_name
            bind_name hide w).1
  unfolding create_service_proxy
  create_service_proxy-keeps service port mapped_port backend_name frontend_name bind_name hide w
        p =
      then_if_nil-keeps _ _ _ (write_backend-keeps backend_name hide w p) λ w1 p1.
        then_if_nil-keeps _ _ _ (write_server-keeps _ backend_name w1 p1) λ w2 p2.
          then_if_nil-keeps _ _ _ (write_frontend-keeps frontend_name backend_name w2 p2)
            (write_bind-keeps bind_name mapped_port frontend_name)

module _ (k : Cluster) (tx_id : GoString) (P : (k.api).World → Type 0)
    (sends : (r : Request) (w : (k.api).World) → IsScoped tx_id r → P w → P ((k.api).send r w).1)
    (clock : (w : (k.api).World) → P w → P (k.now w).1)
    (cache : (key : GoString) (w : (k.api).World) → P w → P (k.get_by_key key w).1) where
  settle-keeps :
      (service : KubeService) (port : ServicePort) (mapped_port : ℕ) (c : ServiceController)
      (r : GoError × (k.api).World)
      → P r.1
      → P (settle k service port mapped_port c r).1
  unfolding settle
  settle-keeps service port mapped_port c (some e, w) p = p
  settle-keeps service port mapped_port c (none, w) p = clock w p

  map_with-keeps :
      (service : KubeService) (port : ServicePort) (w : (k.api).World)
      (r : Allocation × ServiceController)
      → P w
      → P (map_with k service tx_id port w r).1
  unfolding map_with
  map_with-keeps service port w (exhausted e, c) p = p
  map_with-keeps service port w (allocated n, c) p =
      settle-keeps service port n c _
        (create_service_proxy-keeps k.api c tx_id P sends service port n _ _ _ _ w p)

  process_port-keeps :
      (service : KubeService) (port : ServicePort) (s : State k)
      → P s.1
      → P (process_port k service tx_id port s).1
  unfolding process_port map_port
  process_port-keeps service port (c, w) p = elim (Bool-cases (is_target_port_name c port.name)) [
    | inr e ↦ rw e p
    | inl e ↦ elim (Bool-cases (is_some (lookup (mapping_key service port) c.service_mappings))) [
      | inl old ↦ rw (e, old) p
      | inr fresh ↦ rw (e, fresh) (map_with-keeps service port w (allocate_port c) p)
    ]
  ]

  process_ports-keeps :
      (service : KubeService) (ports : List ServicePort) (s : State k)
      → P s.1
      → P (process_ports k service tx_id ports s).1
  unfolding process_ports
  process_ports-keeps service [] s p = p
  process_ports-keeps service (port ∷ ports) s p =
      process_ports-keeps service ports _ (process_port-keeps service port s p)

  process_service_with_tx-keeps :
      (service : KubeService) (s : State k)
      → P s.1
      → P (process_service_with_tx k service tx_id s).1
  unfolding process_service_with_tx
  process_service_with_tx-keeps service s p = elim (Bool-cases (is_headless service)) [
    | inl e ↦ rw e p
    | inr e ↦ rw e (process_ports-keeps service service.ports s p)
  ]

  remove_found-keeps :
      (key : GoString) (m : Option ServiceMapping) (s : State k)
      → P s.1
      → P (remove_found k tx_id key m s).1
  unfolding remove_found
  remove_found-keeps key none s p = p
  remove_found-keeps key (some m) (c, w) p =
      delete_backend-keeps k.api c.handler tx_id P sends m.backend_name _
        (delete_frontend-keeps k.api c.handler tx_id P sends m.frontend_name w p)

  remove_mappings-keeps :
      (keys : List GoString) (s : State k) → P s.1 → P (remove_mappings k tx_id keys s).1
  unfolding remove_mappings remove_mapping
  remove_mappings-keeps [] s p = p
  remove_mappings-keeps (key ∷ keys) s p =
      remove_mappings-keeps keys _ (remove_found-keeps key _ s p)

  sync_found-keeps :
      (namespace name : GoString) (c : ServiceController) (r : Found × (k.api).World)
      → P r.1
      → P ((sync_found k namespace name tx_id c r).1).1
  unfolding sync_found remove_service_mappings_with_tx
  sync_found-keeps namespace name c (broken e, w) p = p
  sync_found-keeps namespace name c (absent, w) p = remove_mappings-keeps _ (c, w) p
  sync_found-keeps namespace name c (found service, w) p =
      elim (Bool-cases (is_namespace_allowed c service.namespace)) [
        | inr e ↦ rw e p
        | inl e ↦ rw e (process_service_with_tx-keeps service (c, w) p)
      ]

  sync_split-keeps :
      (key : GoString) (s : State k) (split : Split)
      → k.split_key key ≡ split
      → P s.1
      → P ((sync_service k key tx_id s).1).1
  unfolding sync_service
  sync_split-keeps key (c, w) (malformed e) q p = rw (q, sync_service) p
  sync_split-keeps key (c, w) (parts namespace name) q p =
      rw (q, sync_service) (sync_found-keeps namespace name c _ (cache key w p))

  pub sync_service-keeps :
      (key : GoString) (s : State k) → P s.1 → P ((sync_service k key tx_id s).1).1
  sync_service-keeps key s p = sync_split-keeps key s (k.split_key key) refl p
