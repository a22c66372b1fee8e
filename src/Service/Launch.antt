-- ===== src/Service/Launch.antt =====
-- controller/service_controller.go, RunServiceController and Run: the V2 controller's client,
-- informer and worker.
-- The handlers of the informer's events are those of Worker.
use pod_proxier.Base.{ℕ, zero, suc, Bool, List, if◌then◌else◌}
use pod_proxier.Base.Int.{ℤ, ◌*ℤ◌, wrap64, pos}
use pod_proxier.Base.Action.{Action}
use pod_proxier.GoString.{GoString, str}
use pod_proxier.Kube.{KubeClient, Launch, rest_config, with_config}
use pod_proxier.Service.State.{ServiceController, new_service_controller}
use pod_proxier.Service.Cluster.{Cluster}
use pod_proxier.Service.Mapping.{State}
use pod_proxier.Service.Worker.{run_worker}

unfoldable pub run_service_controller :
    (k : KubeClient)
    → GoString
    → GoString
    → ℤ
    → GoString
    → GoString
    → GoString
    → Bool
    → ℕ
    → ℕ
    → List GoString
    → List GoString
    → ℤ
    → ℤ
    → ℤ
    → Bool
    → ℤ
    → Action k.World (Launch ServiceController)
run_service_controller k kubeconfig listen_addr listen_port dataplan_host dataplan_user
      dataplan_password hide_backend port_range_start port_range_end allowed_namespaces
      target_port_names resync_time check_timeout check_interval is_off_check max_batch_size w =
    with_config k
      (new_service_controller listen_port listen_addr dataplan_host dataplan_user dataplan_password
        hide_backend port_range_start port_range_end allowed_namespaces target_port_names
        check_timeout check_interval is_off_check max_batch_size)
      (λ e. e) (str "services") (wrap64 (resync_time *ℤ pos 1000000000))
      (rest_config k kubeconfig w)

-- `wait_for_cache_sync` waits until the cache is filled or the controller is stopped, and `shut_down`
-- is that of the queue.
module _ (k : Cluster) (wait_for_cache_sync : Action (k.api).World Bool)
    (shut_down : Action (k.api).World (Unit {0})) where
  -- wait.Until, which starts runWorker again each time it has ended, until the controller is stopped.
  unfoldable pub until : ℕ → ℕ → State k → State k
  until zero turns s = s
  until (suc starts) turns s = until starts turns (run_worker k turns s)

  -- Run. The queue is shut down whether the cache has been filled or not.
  unfoldable pub service_run : ℕ → ℕ → State k → State k
  service_run starts turns (c, w) =
      let (synced, w') = wait_for_cache_sync w in
      let (d, v) = (if synced then until starts turns (c, w') else (c, w')) in (d, (shut_down v).1)
