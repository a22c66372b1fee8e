-- ===== src/Tests/Services.antt =====
-- Runs of the V2 controller's operations on a Service, and its theorems at a concrete input.
use mathlib.Core.List.{Perm}
use pod_proxier.Service.Resync.{process_service_with_tx-IsSettled, lookup-process_service_with_tx}
use pod_proxier.Service.Release.{remove_service_mappings_with_tx_frees}
use pod_proxier.Service.Consistency.{IsConsistent}
use pod_proxier.Service.Listing.{IsLatestFirst, list_service_mappings-IsLatestFirst}
use pod_proxier.Service.Mapping.{listed, list_service_mappings}
use pod_proxier.GoString.{eq_iff}
use pod_proxier.Service.State.{ServiceMapping}
use pod_proxier.Tests.Fixtures.{mapped}
use pod_proxier.Base.{◌⊎◌}
use pod_proxier.Service.Outcome.{IsRefused, IsUndone, IsDone, process_port_outcome}
use pod_proxier.Base.{inl, inr, map}
use pod_proxier.Base.{◌≡◌, refl, false, ◌&&◌, none, some, [], ◌∷◌, if◌then◌else◌, arith}
use pod_proxier.Base.Int.{◌*ℤ◌, wrap64}
use pod_proxier.GoString.{str, ◌==◌, has_prefix, contains}
use pod_proxier.GoString.Format.{errorf}
use pod_proxier.Haproxy.Types.{Server}
use pod_proxier.Haproxy.Response.{handle_error}
use pod_proxier.Haproxy.Handle.{get_version_or_tx_id, do_request, send_body}
use pod_proxier.Haproxy.Backends.{
  ensure_backend, replace_backend, add_backend, ensure_frontend, replace_frontend, add_frontend,
  delete_backend, delete_frontend,
}
use pod_proxier.Haproxy.Servers.{add_server_to_backend, add_bind}
use pod_proxier.Service.State.{lookup, insert, member, is_allocated, set_allocated, erase}
use pod_proxier.Service.Ports.{allocate_port, first_free, release_port, is_target_port_name}
use pod_proxier.Service.FirstFree.{Allocates, allocate_port-Allocates}
use pod_proxier.Service.Proxy.{
  create_service_proxy, write_backend, write_server, write_frontend, write_bind, then_if_nil,
  unless_exists, backend_object, server_object, server_address, milliseconds,
}
use pod_proxier.Service.Mapping.{
  mapping_key, new_mapping, is_headless, with_prefix, settle, map_with, map_port, process_port,
  process_ports, process_service_with_tx, remove_found, remove_mapping, remove_mappings,
  remove_service_mappings_with_tx, sync_service,
}
use pod_proxier.Service.Removal.{remove_service_mappings_with_tx_own}
use pod_proxier.Service.Conflict.{write_server_conflict}
use pod_proxier.Service.Trace.{IsInTransaction, Since, traced, sync_service-IsInTransaction}
use pod_proxier.Tests.Fixtures.{
  api_with, cluster_with, fresh, idle, busy, web, web2, debug_port, status,
}

-- Of the two ports of `web` the selected one is mapped to the first port of the range.
process_service_with_tx-web :
    process_service_with_tx (cluster_with 201) web (str "t1") (fresh, idle)
    ≡ (mapped, record idle { time = 101 })
unfolding process_service_with_tx is_headless process_ports process_port is_target_port_name member
    lookup map_port allocate_port first_free is_allocated set_allocated map_with settle insert
    create_service_proxy write_backend write_server write_frontend write_bind then_if_nil
    unless_exists backend_object server_object server_address milliseconds ensure_backend
    replace_backend add_backend ensure_frontend replace_frontend add_frontend add_server_to_backend
    add_bind do_request get_version_or_tx_id send_body handle_error ◌==◌ contains errorf
process_service_with_tx-web = refl

-- A write that fails gives the port back.
process_service_with_tx-failed :
    process_service_with_tx (cluster_with 500) web (str "t1") (fresh, idle)
    ≡ (record fresh { port_allocations = (9000, false) ∷ [] }, idle)
unfolding process_service_with_tx is_headless process_ports process_port is_target_port_name member
    lookup map_port allocate_port first_free is_allocated set_allocated map_with settle insert
    create_service_proxy write_backend write_server write_frontend write_bind then_if_nil
    unless_exists backend_object server_object server_address milliseconds ensure_backend
    replace_backend add_backend ensure_frontend replace_frontend add_frontend add_server_to_backend
    add_bind do_request get_version_or_tx_id send_body handle_error ◌==◌ contains errorf
    release_port
process_service_with_tx-failed = refl

-- Without a cluster address nothing is done.
process_service_with_tx-headless :
    process_service_with_tx
      (cluster_with 201)
      (record web { cluster_ip = str "None" })
      (str "t1")
      (fresh, idle)
    ≡ (fresh, idle)
unfolding process_service_with_tx is_headless ◌==◌
process_service_with_tx-headless = refl

-- A name that continues that of a Service has other mappings.
remove_service_mappings_with_tx-web :
    (remove_service_mappings_with_tx (cluster_with 201) web (str "t1") (mapped, idle)).0
    ≡ record fresh { port_allocations = (9000, false) ∷ [] }
unfolding remove_service_mappings_with_tx with_prefix has_prefix remove_mappings remove_mapping
    lookup ◌==◌ remove_found delete_frontend delete_backend release_port set_allocated erase
remove_service_mappings_with_tx-web = refl

remove_service_mappings_with_tx_own_example :
    lookup
      (mapping_key web2 debug_port)
      (remove_service_mappings_with_tx
        (cluster_with 201)
        web
        (str "t1")
        (mapped, idle)).0.service_mappings
    ≡ (if (str "default" == str "default") && (str "web2" == str "web")
        then none
        else lookup (mapping_key web2 debug_port) mapped.service_mappings)
remove_service_mappings_with_tx_own_example =
    remove_service_mappings_with_tx_own (cluster_with 201) web web2 debug_port (str "t1")
      (mapped, idle) (ground arith) (ground arith) (ground arith) (ground arith)

allocate_port-Allocates_example : Allocates mapped (allocate_port mapped)
allocate_port-Allocates_example = allocate_port-Allocates mapped

abbrev server : Server
unfolding server_object milliseconds wrap64 ◌*ℤ◌
server = server_object fresh (str "10.0.0.7:8849")

write_server_conflict_example :
    write_server (api_with 409) fresh (str "t1") server (str "SVC_BACKEND_default.web:8849") idle
    ≡ (some (str "failed to add server to backend: "), idle)
unfolding add_server_to_backend get_version_or_tx_id send_body do_request handle_error ◌==◌
write_server_conflict_example =
    write_server_conflict (api_with 409) fresh (str "t1") server
      (str "SVC_BACKEND_default.web:8849") idle idle (status 409) refl refl refl

sync_service-IsInTransaction_example :
    Since
      (IsInTransaction (str "t1"))
      []
      (((sync_service
          (traced (cluster_with 201))
          (str "default/web")
          (str "t1")
          (fresh, (busy, []))).1
        ).1).1
sync_service-IsInTransaction_example =
    sync_service-IsInTransaction (cluster_with 201) (str "default/web") (str "t1") fresh busy []
      (λ e. cc)

abbrev mapping : ServiceMapping
mapping = new_mapping web debug_port 9000 100

-- The Service is mapped already; its port `http` is not selected.
process_service_with_tx-IsSettled_example :
    process_service_with_tx (cluster_with 201) web (str "t2") (mapped, idle) ≡ (mapped, idle)
unfolding is_target_port_name member lookup ◌==◌
process_service_with_tx-IsSettled_example =
    process_service_with_tx-IsSettled (cluster_with 201) web (str "t2") (mapped, idle)
      (inr refl, (inl refl, tt))

lookup-process_service_with_tx_example :
    lookup
      (mapping_key web debug_port)
      (process_service_with_tx (cluster_with 201) web2 (str "t2") (mapped, idle)).0.service_mappings
    ≡ some mapping
unfolding lookup ◌==◌
lookup-process_service_with_tx_example =
    lookup-process_service_with_tx (cluster_with 201) web2 (str "t2") (mapping_key web debug_port)
      mapping (mapped, idle) refl

mapped-IsConsistent : IsConsistent mapped
unfolding lookup is_allocated ◌==◌
mapped-IsConsistent = record {
  marked = λ key m e. ground arith;
  distinct = λ key key' m m' e e' ports.
      ground
        (arith, eq_iff (mapping_key web debug_port) key, eq_iff (mapping_key web debug_port) key');
  owned = λ p used. (mapping_key web debug_port, mapping, refl, ground arith);
}

remove_service_mappings_with_tx_frees_example :
    is_allocated 9000
      (remove_service_mappings_with_tx
        (cluster_with 201)
        web
        (str "t2")
        (mapped, idle)).0.port_allocations
    ≡ false
unfolding lookup ◌==◌ has_prefix
remove_service_mappings_with_tx_frees_example =
    remove_service_mappings_with_tx_frees (cluster_with 201) web (str "t2")
      (mapping_key web debug_port) mapping (mapped, idle) mapped-IsConsistent refl refl

list_service_mappings-IsLatestFirst_example :
    IsLatestFirst (list_service_mappings mapped)
    × Perm (list_service_mappings mapped) (map (λ (_, m). listed m) mapped.service_mappings)
list_service_mappings-IsLatestFirst_example = list_service_mappings-IsLatestFirst mapped

process_port_outcome_example :
    let after = process_port (cluster_with 201) web (str "t1") debug_port (fresh, idle) in
    IsRefused (cluster_with 201) web (str "t1") debug_port fresh idle after
    ⊎ IsUndone (cluster_with 201) web (str "t1") debug_port fresh idle after
    ⊎ IsDone (cluster_with 201) web (str "t1") debug_port fresh idle after
unfolding is_target_port_name member lookup ◌==◌
process_port_outcome_example =
    process_port_outcome (cluster_with 201) web (str "t1") debug_port fresh idle refl refl
