-- ===== src/Tests/Pods.antt =====
-- The V1 controller on a Pod, and its theorems at a concrete input.
use pod_proxier.Server.V1.{ProxyMapping, bound, create}
use pod_proxier.Server.Answer.{answer, err_not_fount, text}
use pod_proxier.Server.Created.{create_succeeded}
use pod_proxier.Pod.Scheduling.{IsMapped}
use pod_proxier.Pod.Mapping.{schedule}
use pod_proxier.Base.{◌↔◌, ◌≢◌}
use pod_proxier.Server.V1.{query}
use pod_proxier.Server.Created.{query_iff}
use pod_proxier.Base.{
  ℕ, ◌*◌, ◌-◌, ◌^◌, ◌≡◌, refl, true, none, some, List, [], ◌∷◌, arith, if◌then◌else◌,
}
use pod_proxier.Base.Int.{pos, negsuc}
use pod_proxier.GoString.{str, ◌==◌}
use pod_proxier.Haproxy.Types.{Server, empty_server}
use pod_proxier.Haproxy.Response.{handle_error}
use pod_proxier.Haproxy.Handle.{get_version, get_version_or_tx_id, do_request, send_body}
use pod_proxier.Haproxy.Backends.{add_backend, add_frontend}
use pod_proxier.Haproxy.Servers.{add_bind, get_servers, add_server_to_backend}
use pod_proxier.Pod.State.{
  Controller, PodCluster, Pod, ContainerPort, found, absent, frontend_prefix,
}
use pod_proxier.Pod.Proxy.{
  create_proxy, after_backend, after_frontend, after_bind, start_up, running, panicked,
  default_mapping, change_proxy, change_to, tcp_backend, tcp_frontend, tcp_bind,
}
use pod_proxier.Pod.Mapping.{create_mapping, map_found, port_in_containers, seconds}
use pod_proxier.Pod.Startup.{start_up_conflict, create_proxy_nil}
use pod_proxier.Pod.Ports.{port_in_containers-last_or, last_or, named, all_ports}
use pod_proxier.Server.V1.{limit_time}
use pod_proxier.Server.Limits.{seconds-limit_time, seconds-limit_time_wraps}
use pod_proxier.Tests.Fixtures.{api_with, handle, idle, status}

abbrev containers : List (List ContainerPort)
containers =
    (record { name = str "jprofiler_tcp"; container_port = pos 8849 } ∷ [])
    ∷ (record { name = str "http"; container_port = pos 80 }
        ∷ record { name = str "jprofiler_tcp"; container_port = pos 8850 }
        ∷ [])
    ∷ []

abbrev pub pod : Pod
pod = record { name = str "app-0"; pod_ip = str "10.1.0.4"; containers = containers }

-- The cache holds one Pod, and no event is ever due.
abbrev pods_with : ℕ → PodCluster
pods_with code = record {
  api = api_with code;
  get_by_key = λ key w. ((if key == str "default/app-0" then found pod else absent), w);
  add_after = λ event delay w. (tt, w);
  async_get = λ w. (true, w);
}

abbrev pub controller : Controller
controller = record {
  handler = handle;
  controller_addr = str "0.0.0.0";
  controller_port = pos 3343;
  default_mapping_port = pos 8849;
  jprofiler_port_name = str "jprofiler_tcp";
  max_mapping_time = pos 10800;
}

start_up-created : start_up (pods_with 201) controller idle ≡ (running, idle)
unfolding start_up create_proxy after_backend after_frontend after_bind add_backend add_frontend
    add_bind get_version_or_tx_id get_version do_request send_body handle_error default_mapping
    change_proxy get_servers change_to add_server_to_backend ◌==◌
start_up-created = refl

start_up_conflict_example : start_up (pods_with 409) controller idle ≡ (panicked [], idle)
unfolding add_backend get_version_or_tx_id get_version do_request send_body ◌==◌
start_up_conflict_example =
    start_up_conflict (pods_with 409) controller (status 409) idle idle refl refl refl

create_proxy_nil_example :
    let k = pods_with 201 in
    let (backend_result, w1) = add_backend k.api controller.handler tcp_backend [] idle in
    let (_, w2) = add_frontend k.api controller.handler tcp_frontend [] w1 in
    let (bind_result, w3) =
      add_bind k.api controller.handler (tcp_bind controller) frontend_prefix [] w2 in
    (backend_result.1 ≡ none)
    × (bind_result.1 ≡ none)
    × ((default_mapping k controller w3).0 ≡ none)
    × ((create_proxy k controller idle).1 ≡ (default_mapping k controller w3).1)
unfolding create_proxy after_backend after_frontend after_bind add_backend add_frontend add_bind
    get_version_or_tx_id get_version do_request send_body handle_error default_mapping change_proxy
    get_servers change_to add_server_to_backend ◌==◌
create_proxy_nil_example = create_proxy_nil (pods_with 201) controller idle refl

abbrev old_server : Server
old_server = record empty_server { name = str "POD.app-0.10.1.0.4" }

port_in_containers-last_or_example :
    port_in_containers (str "jprofiler_tcp") (pos 0) containers
    ≡ last_or (pos 0) (named (str "jprofiler_tcp") (all_ports containers))
port_in_containers-last_or_example =
    port_in_containers-last_or (str "jprofiler_tcp") (pos 0) containers

create_mapping-absent :
    create_mapping (pods_with 201) controller (str "default/x") (pos 60) idle
    ≡ (some (str "default/x not fount."), idle)
unfolding create_mapping map_found ◌==◌
create_mapping-absent = refl

seconds-limit_time_example : seconds (limit_time (pos 86400)) ≡ pos (86400 * 1000000000)
seconds-limit_time_example = seconds-limit_time 86400 (omega arith)

seconds-limit_time_wraps_example :
    seconds (limit_time (pos 10000000000)) ≡ negsuc (2 ^ 64 - 10000000000 * 1000000000 - 1)
seconds-limit_time_wraps_example = seconds-limit_time_wraps 10000000000 (omega arith) (omega arith)

abbrev wanted : ProxyMapping
wanted = record { pod_name = str "default/app-0"; time = pos 60 }

create_succeeded_example :
    IsMapped
      (pods_with 201)
      controller
      (str "default/app-0")
      (limit_time (pos 60))
      idle
      (create (pods_with 201) controller (bound wanted) idle).1
unfolding create create_mapping map_found schedule change_proxy get_servers change_to
    add_server_to_backend get_version_or_tx_id get_version do_request send_body handle_error answer
    ◌==◌
create_succeeded_example = create_succeeded (pods_with 201) controller wanted idle refl

query_iff_example :
    (((query (pods_with 201) controller (bound (str "default/x")) idle).0.code ≡ 10000)
      ↔ ((p : Pod) × (((pods_with 201).get_by_key (str "default/x") idle).0 ≡ found p)))
    × (((p : Pod) → ((pods_with 201).get_by_key (str "default/x") idle).0 ≢ found p)
        → (query (pods_with 201) controller (bound (str "default/x")) idle).0
          ≡ answer err_not_fount (text (str "default/x")))
query_iff_example = query_iff (pods_with 201) controller (str "default/x") idle
