-- ===== src/Service/Reach.antt =====
-- The operations of the V2 controller as sequences of steps of its state machine.
use pod_proxier.Base.{
  ℕ, zero, suc, ◌≡◌, refl, ◌∙◌, true, Option, none, some, List, [], ◌∷◌, inl, inr, arith,
  Bool-cases, Option-cases,
}
use pod_proxier.GoString.{GoString}
use pod_proxier.Haproxy.Response.{GoError}
use pod_proxier.Haproxy.Handle.{Started, started, failed, panicked}
use pod_proxier.Service.State.{
  ServiceController, KubeService, ServicePort, ServiceMapping, lookup, set_allocated,
}
use pod_proxier.Service.Ports.{
  Allocation, allocated, exhausted, allocate_port, is_namespace_allowed, is_target_port_name,
  release_port,
}
use pod_proxier.Service.FirstFree.{Allocates, allocate_port-Allocates}
use pod_proxier.Service.Cluster.{Cluster, Split, parts, malformed, Found, found, absent, broken}
use pod_proxier.Service.Mapping.{
  State, mapping_key, settle, map_with, map_port, process_port, process_ports, is_headless,
  process_service_with_tx, remove_found, remove_mapping, remove_mappings,
  remove_service_mappings_with_tx, sync_found, sync_service,
}
use pod_proxier.Service.Worker.{
  sync_all, close_transaction, process_started, process_collected, process_first,
  process_next_work_item, run_worker, Turn, more, quit, crashed,
}
use pod_proxier.Service.Step.{Step, attempt, add, remove, Reach, here, next, Reach-trans}

-- No step changes the configuration that selects Services.
Step-allowed :
    {c d : ServiceController} (namespace : GoString)
    → Step c d
    → is_namespace_allowed d namespace ≡ is_namespace_allowed c namespace
unfolding is_namespace_allowed
Step-allowed namespace (attempt p _) = refl
Step-allowed namespace (add service port p t _ _ _ _ _ _ _) = refl
Step-allowed namespace (remove key m _) = refl

pub Reach-allowed :
    {c d : ServiceController} (namespace : GoString)
    → Reach c d
    → is_namespace_allowed d namespace ≡ is_namespace_allowed c namespace
Reach-allowed namespace here = refl
Reach-allowed namespace (next r st) = Step-allowed namespace st ∙ Reach-allowed namespace r

abbrev pub marked : ℕ → ServiceController → ServiceController
marked p c = record c { port_allocations = set_allocated p true c.port_allocations }

module _ (k : Cluster) where
  settle-Reach :
      (service : KubeService) (port : ServicePort) (p : ℕ) (c : ServiceController)
      (r : GoError × (k.api).World)
      → is_namespace_allowed c service.namespace ≡ true
      → is_target_port_name c port.name ≡ true
      → lookup (mapping_key service port) c.service_mappings ≡ none
      → Allocates c (allocated p, marked p c)
      → Reach c (settle k service port p (marked p c) r).0
  unfolding settle release_port
  settle-Reach service port p c (some e, w) namespace target fresh (_, _, _, free, _) =
      next here (attempt p free)
  settle-Reach service port p c (none, w) namespace target fresh (_, low, high, free, below) =
      next here (add service port p (k.now w).0 namespace target fresh low high free below)

  map_with-Reach :
      (service : KubeService) (tx_id : GoString) (port : ServicePort) (c : ServiceController)
      (w : (k.api).World)
      → is_namespace_allowed c service.namespace ≡ true
      → is_target_port_name c port.name ≡ true
      → lookup (mapping_key service port) c.service_mappings ≡ none
      → (r : Allocation × ServiceController) → Allocates c r
      → Reach c (map_with k service tx_id port w r).0
  unfolding map_with
  map_with-Reach service tx_id port c w namespace target fresh (exhausted _, c') (same, _, _) =
      rw same here
  map_with-Reach service tx_id port c w namespace target fresh (allocated p, c')
        (same, low, high, free, below) =
      rw same
        (settle-Reach service port p c _ namespace target fresh (refl, low, high, free, below))

  process_port-Reach :
      (service : KubeService) (tx_id : GoString) (port : ServicePort) (s : State k)
      → is_namespace_allowed s.0 service.namespace ≡ true
      → Reach s.0 (process_port k service tx_id port s).0
  unfolding process_port map_port
  process_port-Reach service tx_id port (c, w) namespace =
      elim (Bool-cases (is_target_port_name c port.name)) [
        | inr e ↦ rw e here
        | inl target ↦ elim (Option-cases (lookup (mapping_key service port) c.service_mappings)) [
          | inr (m, e) ↦ rw (target, e) here
          | inl fresh ↦
              rw (target, fresh)
                (map_with-Reach service tx_id port c w namespace target fresh (allocate_port c)
                  (allocate_port-Allocates c))
        ]
      ]

  process_ports-Reach :
      (service : KubeService) (tx_id : GoString) (ports : List ServicePort) (s : State k)
      → is_namespace_allowed s.0 service.namespace ≡ true
      → Reach s.0 (process_ports k service tx_id ports s).0
  unfolding process_ports
  process_ports-Reach service tx_id [] s namespace = here
  process_ports-Reach service tx_id (port ∷ ports) s namespace =
      let r = process_port-Reach service tx_id port s namespace in
      Reach-trans r (
        process_ports-Reach service tx_id ports (process_port k service tx_id port s)
          (Reach-allowed service.namespace r ∙ namespace))

  pub process_service_with_tx-Reach :
      (service : KubeService) (tx_id : GoString) (s : State k)
      → is_namespace_allowed s.0 service.namespace ≡ true
      → Reach s.0 (process_service_with_tx k service tx_id s).0
  unfolding process_service_with_tx
  process_service_with_tx-Reach service tx_id s namespace =
      elim (Bool-cases (is_headless service)) [
        | inl e ↦ rw e here
        | inr e ↦ rw e (process_ports-Reach service tx_id service.ports s namespace)
      ]

  remove_found-Reach :
      (tx_id key : GoString) (found : Option ServiceMapping) (s : State k)
      → lookup key (s.0).service_mappings ≡ found
      → Reach s.0 (remove_found k tx_id key found s).0
  unfolding remove_found release_port
  remove_found-Reach tx_id key none s e = here
  remove_found-Reach tx_id key (some m) (c, w) e = next here (remove key m e)

  remove_mappings-Reach :
      (tx_id : GoString) (keys : List GoString) (s : State k)
      → Reach s.0 (remove_mappings k tx_id keys s).0
  unfolding remove_mappings remove_mapping
  remove_mappings-Reach tx_id [] s = here
  remove_mappings-Reach tx_id (key ∷ keys) s =
      Reach-trans (remove_found-Reach tx_id key _ s refl) (remove_mappings-Reach tx_id keys _)

  pub remove_service_mappings_with_tx-Reach :
      (service : KubeService) (tx_id : GoString) (s : State k)
      → Reach s.0 (remove_service_mappings_with_tx k service tx_id s).0
  unfolding remove_service_mappings_with_tx
  remove_service_mappings_with_tx-Reach service tx_id (c, w) = remove_mappings-Reach tx_id _ (c, w)

  sync_found-Reach :
      (namespace name tx_id : GoString) (c : ServiceController) (r : Found × (k.api).World)
      → Reach c ((sync_found k namespace name tx_id c r).1).0
  unfolding sync_found
  sync_found-Reach namespace name tx_id c (broken e, w) = here
  sync_found-Reach namespace name tx_id c (absent, w) =
      remove_service_mappings_with_tx-Reach _ tx_id (c, w)
  sync_found-Reach namespace name tx_id c (found service, w) =
      elim (Bool-cases (is_namespace_allowed c service.namespace)) [
        | inr e ↦ rw e here
        | inl e ↦ rw e (process_service_with_tx-Reach service tx_id (c, w) e)
      ]

  pub sync_service-Reach :
      (key tx_id : GoString) (s : State k) → Reach s.0 ((sync_service k key tx_id s).1).0
  unfolding sync_service
  sync_service-Reach key tx_id (c, w) = go (k.split_key key) refl
    where
      go : (p : Split) → k.split_key key ≡ p → Reach c ((sync_service k key tx_id (c, w)).1).0
      go (malformed e) q = rw (q, sync_service) here
      go (parts namespace name) q =
          rw (q, sync_service) (sync_found-Reach namespace name tx_id c (k.get_by_key key w))

  pub sync_all-Reach :
      (keys : List GoString) (tx_id : GoString) (n : ℕ) (s : State k)
      → Reach s.0 ((sync_all k keys tx_id n s).1).0
  unfolding sync_all
  sync_all-Reach [] tx_id n s = here
  sync_all-Reach (key ∷ keys) tx_id n s =
      Reach-trans (sync_service-Reach key tx_id s) (sync_all-Reach keys tx_id _ _)

  close_transaction-same :
      (tx_id : GoString) (n : ℕ) (s : State k) → (close_transaction k tx_id n s).0 ≡ s.0
  unfolding close_transaction
  close_transaction-same tx_id n s = ground arith

  process_started-Reach :
      (key : GoString) (rest : List GoString) (c : ServiceController) (r : Started × (k.api).World)
      → Reach c ((process_started k key rest c r).1).0
  unfolding process_started
  process_started-Reach key rest c (failed _, w) = here
  process_started-Reach key rest c (panicked, w) = here
  process_started-Reach key rest c (started tx_id, w) =
      rw close_transaction-same (sync_all-Reach (key ∷ rest) tx_id 0 (c, w))

  process_first-Reach :
      (c : ServiceController) (r : Option GoString × (k.api).World)
      → Reach c ((process_first k c r).1).0
  unfolding process_first process_collected
  process_first-Reach c (none, w) = here
  process_first-Reach c (some key, w) = process_started-Reach key _ c _

  pub process_next_work_item-Reach : (s : State k) → Reach s.0 ((process_next_work_item k s).1).0
  unfolding process_next_work_item
  process_next_work_item-Reach (c, w) = process_first-Reach c (k.queue_get w)

  -- Whatever happens outside, each turn of the worker is a sequence of steps of the state machine.
  pub run_worker-Reach : (turns : ℕ) (s : State k) → Reach s.0 (run_worker k turns s).0
  unfolding run_worker
  run_worker-Reach zero s = here
  run_worker-Reach (suc turns) s =
      go (run_worker-Reach turns (process_next_work_item k s).1) (process_next_work_item k s).0 refl
    where
      step : Reach s.0 ((process_next_work_item k s).1).0
      step = process_next_work_item-Reach s

      go :
          Reach
            ((process_next_work_item k s).1).0
            (run_worker k turns (process_next_work_item k s).1).0
          → (t : Turn) → (process_next_work_item k s).0 ≡ t
          → Reach s.0 (run_worker k (suc turns) s).0
      go later more e = rw (e, run_worker) (Reach-trans step later)
      go later quit e = rw (e, run_worker) step
      go later crashed e = rw (e, run_worker) step
