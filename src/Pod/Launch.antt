-- ===== src/Pod/Launch.antt =====
-- controller/pod_controller.go, RunController, Run and RunAsyncProcess: the V1 controller's client,
-- informer and two goroutines.
use pod_proxier.Base.{ℕ, Bool, if◌then◌else◌}
use pod_proxier.Base.Int.{ℤ}
use pod_proxier.Base.Action.{Action}
use pod_proxier.GoString.{GoString, str}
use pod_proxier.Kube.{KubeClient, Launch, rest_config, with_config}
use pod_proxier.Pod.State.{Controller, PodCluster, new_controller}
use pod_proxier.Pod.Mapping.{seconds, pop}
use pod_proxier.Pod.Proxy.{Startup, start_up}

-- The error of NewForConfig is not read: the client is nil, and its use panics.
abbrev pub nil_dereference : GoString
nil_dereference = str "runtime error: invalid memory address or nil pointer dereference"

unfoldable pub run_controller :
    (k : KubeClient)
    → GoString
    → GoString
    → ℤ
    → GoString
    → GoString
    → GoString
    → ℤ
    → GoString
    → ℤ
    → ℤ
    → Action k.World (Launch Controller)
run_controller k kubeconfig listen_addr listen_port dataplan_host dataplan_user dataplan_password
      default_mapp_port jprofiler_port_name max_map_time resync_time w =
    with_config k
      (new_controller listen_port listen_addr dataplan_host dataplan_user dataplan_password
        default_mapp_port jprofiler_port_name max_map_time)
      (λ e. nil_dereference) (str "pods") (seconds resync_time) (rest_config k kubeconfig w)

-- How Run ends: without a filled cache, or with its start done.
pub data Run : Type 0 where
  unsynced : Run
  begun : Startup → Run

module _ (k : PodCluster) (c : Controller) where
  -- Run, up to the wait for its end. `wait_for_cache_sync` waits until the cache is filled or the
  -- controller is stopped.
  unfoldable pub pod_run : Action (k.api).World Bool → Action (k.api).World Run
  pod_run wait_for_cache_sync w =
      let (synced, w') = wait_for_cache_sync w in
      if synced then (let (s, v) = start_up k c w' in (begun s, v)) else (unsynced, w')

  -- RunAsyncProcess. `shut_down` is that of the delaying queue.
  unfoldable pub run_async_process :
      Action (k.api).World (Unit {0}) → ℕ → (k.api).World → (k.api).World
  run_async_process shut_down events w = (shut_down (pop k c events w)).1
