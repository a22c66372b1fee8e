-- ===== src/Tests/Runs.antt =====
-- The V2 controller from its start through the turns of its worker.
use pod_proxier.Server.Deployed.{main_ports}
use pod_proxier.Tests.Processes.{machine, taken_address, parse}
use pod_proxier.Base.{Bool, true, [], ◌∷◌, ◌≤◌, some, ◌≡◌, refl, ap, arith}
use pod_proxier.Service.State.{ServiceMapping}
use pod_proxier.GoString.{GoString, str, ◌==◌, contains, has_prefix}
use pod_proxier.GoString.Format.{errorf}
use pod_proxier.Haproxy.Api.{get_field}
use pod_proxier.Haproxy.Response.{handle_error}
use pod_proxier.Haproxy.Handle.{
  new_haproxy_handle, get_version_or_tx_id, get_version, do_request, send_body, start_transaction,
  commit_transaction,
}
use pod_proxier.Haproxy.Backends.{
  ensure_backend, replace_backend, add_backend, ensure_frontend, replace_frontend, add_frontend,
}
use pod_proxier.Haproxy.Servers.{add_server_to_backend, add_bind}
use pod_proxier.Service.State.{
  lookup, insert, member, is_allocated, set_allocated, new_service_controller,
}
use pod_proxier.Service.Ports.{allocate_port, first_free, is_target_port_name, is_namespace_allowed}
use pod_proxier.Service.Proxy.{
  create_service_proxy, write_backend, write_server, write_frontend, write_bind, then_if_nil,
  unless_exists, backend_object, server_object, server_address, milliseconds,
}
use pod_proxier.Service.Mapping.{
  mapping_key, new_mapping, is_headless, with_prefix, settle, map_with, map_port, process_port,
  process_ports, process_service_with_tx, remove_mappings, remove_service_mappings_with_tx,
  sync_found, sync_service,
}
use pod_proxier.Service.Worker.{
  run_worker, process_next_work_item, process_first, process_collected, process_started, collect,
  done_all, sync_all, close_transaction,
}
use pod_proxier.Server.Options.{validate, validate_v2}
use pod_proxier.Server.Process.{
  main, run_command, run, run_controllers, continue_v2, serve, start_v2, accepts_args, complete,
}
use pod_proxier.Service.Launch.{run_service_controller, service_run, until}
use pod_proxier.Base.Action.{Action}
use pod_proxier.Kube.{with_config, with_clientset, rest_config}
use pod_proxier.Service.Frontends.{run_worker_frontends}
use pod_proxier.Tests.Fixtures.{
  cluster_with, fresh, mapped, busy, web, debug_port, default_controller, Outside,
}

-- One turn takes both keys of the queue: it maps `web`, and removes nothing of a Service that is
-- unknown. The next turn finds that the queue has shut down.
run_worker-busy :
    ((run_worker (cluster_with 201) 3 (fresh, busy)).0 ≡ mapped)
    × ((run_worker (cluster_with 201) 3 (default_controller, busy)).0
        ≡ record mapped { handler = default_controller.handler; port_range_end = 9100 })
unfolding run_worker process_next_work_item process_first process_collected process_started collect
    done_all sync_all close_transaction start_transaction commit_transaction get_version get_field
    sync_service sync_found is_namespace_allowed remove_service_mappings_with_tx with_prefix
    remove_mappings has_prefix process_service_with_tx is_headless process_ports process_port
    is_target_port_name member lookup map_port allocate_port first_free is_allocated set_allocated
    map_with settle insert create_service_proxy write_backend write_server write_frontend write_bind
    then_if_nil unless_exists backend_object server_object server_address milliseconds
    ensure_backend replace_backend add_backend ensure_frontend replace_frontend add_frontend
    add_server_to_backend add_bind do_request get_version_or_tx_id send_body handle_error ◌==◌
    contains errorf
run_worker-busy = (refl, refl)

run_worker_frontends_example : mapping_key web debug_port ≡ mapping_key web debug_port
unfolding lookup ◌==◌
run_worker_frontends_example =
    run_worker_frontends (cluster_with 201) 3 (fresh, busy) (mapping_key web debug_port)
      (mapping_key web debug_port) (new_mapping web debug_port 9000 100)
      (new_mapping web debug_port 9000 100) (refl, refl) (omega arith)
      (ap (λ c. lookup (mapping_key web debug_port) c.service_mappings) run_worker-busy.0)
      (ap (λ c. lookup (mapping_key web debug_port) c.service_mappings) run_worker-busy.0) refl

-- The cache fills.
abbrev filled : Action Outside Bool
filled w = (true, w)

abbrev ended : Action Outside (Unit {0})
ended w = (tt, w)

main_ports_example :
    (1024 ≤ 9000)
    × (9000 ≤ 65535)
    × ((key : GoString) (m : ServiceMapping)
        → lookup key
            (service_run
              (cluster_with 201)
              filled
              ended
              1
              3
              (default_controller, busy)).0.service_mappings
          ≡ some m
        → 9000 ≡ m.mapped_port
        → mapping_key web debug_port ≡ key)
unfolding lookup ◌==◌ service_run until main run_command run run_controllers continue_v2 serve
    start_v2 run_service_controller new_service_controller new_haproxy_handle with_config
    with_clientset rest_config validate validate_v2 accepts_args complete
main_ports_example =
    main_ports machine taken_address parse (str "--enable-v2" ∷ []) [] default_controller refl
      (cluster_with 201) filled ended 1 3 busy (mapping_key web debug_port)
      (new_mapping web debug_port 9000 100)
      (ap (λ c. lookup (mapping_key web debug_port) c.service_mappings) run_worker-busy.1)
