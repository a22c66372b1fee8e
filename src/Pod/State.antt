-- ===== src/Pod/State.antt =====
-- controller/pod_controller.go, constant.go and event.go: the V1 controller's configuration, the
-- Pods that it reads and what it takes from outside the repository.
use pod_proxier.Base.{Bool, List}
use pod_proxier.Base.Int.{ℤ}
use pod_proxier.Base.Action.{Action}
use pod_proxier.GoString.{GoString, str}
use pod_proxier.Haproxy.Api.{Api}
use pod_proxier.Haproxy.Handle.{HaproxyHandle, new_haproxy_handle}

abbrev pub backend_prefix : GoString
backend_prefix = str "BACKEND"

abbrev pub frontend_prefix : GoString
frontend_prefix = str "FRONTEND"

abbrev pub bind_prefix : GoString
bind_prefix = str "BIND"

abbrev pub server_prefix : GoString
server_prefix = str "POD."

abbrev pub app_name_prefix : GoString
app_name_prefix = str "DEFAULT_APP."

pub record Event : Type 0 where
  pub event_name : GoString
  pub host : GoString
  pub port : ℤ

-- The fields of `server` that changeProxy reads.
pub record ServerInfo : Type 0 where
  pub server_name : GoString
  pub pod_addr : GoString

-- v1.ContainerPort
pub record ContainerPort : Type 0 where
  pub name : GoString
  pub container_port : ℤ

-- v1.Pod, with the ports of each container.
pub record Pod : Type 0 where
  pub name : GoString
  pub pod_ip : GoString
  pub containers : List (List ContainerPort)

pub record Controller : Type 0 where
  pub handler : HaproxyHandle
  pub controller_addr : GoString
  pub controller_port : ℤ
  pub default_mapping_port : ℤ
  pub jprofiler_port_name : GoString
  pub max_mapping_time : ℤ

-- newController
unfoldable pub new_controller :
    ℤ → GoString → GoString → GoString → GoString → ℤ → GoString → ℤ → Controller
unfolding new_haproxy_handle
new_controller listen_port listen_addr dataplan_host dataplan_user dataplan_password
      default_mapp_port jprofiler_port_name max_map_time =
    record {
      handler = new_haproxy_handle dataplan_user dataplan_password dataplan_host;
      controller_addr = listen_addr;
      controller_port = listen_port;
      default_mapping_port = default_mapp_port;
      jprofiler_port_name = jprofiler_port_name;
      max_mapping_time = max_map_time;
    }

-- lister.GetByKey
pub data Found : Type 0 where
  found : Pod → Found
  absent : Found
  broken : GoString → Found

-- The informer's cache and the delaying queue. A duration is a number of nanoseconds; async_get
-- blocks until an event is due, and answers true when the queue has shut down.
pub record PodCluster : Type 1 where
  pub api : Api
  pub get_by_key : GoString → Action api.World Found
  pub add_after : Event → ℤ → Action api.World (Unit {0})
  pub async_get : Action api.World Bool
