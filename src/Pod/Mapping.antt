-- ===== src/Pod/Mapping.antt =====
-- controller/pod_controller.go, CreateMapping, QueryPodExists and the loop that takes mappings back.
use pod_proxier.Base.{
  ℕ, zero, suc, Bool, true, false, none, some, List, [], ◌∷◌, ◌++◌, if◌then◌else◌,
}
use pod_proxier.Base.Int.{ℤ, pos, ◌*ℤ◌, wrap64}
use pod_proxier.Base.Action.{Action}
use pod_proxier.GoString.{GoString, str, ◌==◌}
use pod_proxier.GoString.Number.{format_int}
use pod_proxier.Haproxy.Response.{GoError}
use pod_proxier.Haproxy.Handle.{cat}
use pod_proxier.Pod.State.{
  Controller, PodCluster, Pod, ContainerPort, Event, ServerInfo, Found, found, absent, broken,
  server_prefix,
}
use pod_proxier.Pod.Proxy.{change_proxy, default_mapping}

-- The two nested loops: each match overwrites the port.
unfoldable pub port_in_container : GoString → ℤ → List ContainerPort → ℤ
port_in_container name port [] = port
port_in_container name port (p ∷ ps) =
    port_in_container name (if p.name == name then p.container_port else port) ps

unfoldable pub port_in_containers : GoString → ℤ → List (List ContainerPort) → ℤ
port_in_containers name port [] = port
port_in_containers name port (c ∷ cs) = port_in_containers name (port_in_container name port c) cs

abbrev is_zero : ℤ → Bool
is_zero (pos zero) = true
is_zero _ = false

unfoldable pub mapped_port : Controller → Pod → ℤ
mapped_port c pod =
    let port = port_in_containers c.jprofiler_port_name (pos 0) pod.containers in
    if is_zero port then c.default_mapping_port else port

-- delayTime * time.Second, on the int64 of a Duration.
unfoldable pub seconds : ℤ → ℤ
seconds t = wrap64 (t *ℤ pos 1000000000)

unfoldable pub pod_server : Controller → Pod → ServerInfo
pod_server c pod = record {
  server_name = server_prefix ++ (pod.name ++ (str "." ++ pod.pod_ip));
  pod_addr = cat (pod.pod_ip ∷ str ":" ∷ format_int (mapped_port c pod) ∷ []);
}

module _ (k : PodCluster) (c : Controller) where
  abbrev World : Type 0
  World = (k.api).World

  unfoldable pub query_pod_exists : GoString → Action World Bool
  query_pod_exists name w =
      let (r, w') = k.get_by_key name w in
      ((elim r [ found _ ↦ true | absent ↦ false | broken _ ↦ false ]), w')

  abbrev pub mapping_event : GoString → Pod → Event
  mapping_event name pod = record { event_name = str ""; host = name; port = mapped_port c pod }

  -- AddAfter, unless changeProxy has failed.
  unfoldable pub schedule : GoString → ℤ → Pod → (GoError × Bool) × World → GoError × World
  schedule name delay_time pod ((some e, _), w) = (some e, w)
  schedule name delay_time pod ((none, _), w) =
      (none, (k.add_after (mapping_event name pod) (seconds delay_time) w).1)

  unfoldable pub map_found : GoString → ℤ → Found × World → GoError × World
  map_found name delay_time (broken e, w) = (some e, w)
  map_found name delay_time (absent, w) = (some (name ++ str " not fount."), w)
  map_found name delay_time (found pod, w) =
      schedule name delay_time pod (change_proxy k c (pod_server c pod) w)

  unfoldable pub create_mapping : GoString → ℤ → Action World GoError
  create_mapping name delay_time w = map_found name delay_time (k.get_by_key name w)

  -- The loop of pop, for at most the given number of events: each due event resets the mapping.
  unfoldable pub pop : ℕ → World → World
  pop zero w = w
  pop (suc events) w =
      let (quit, w') = k.async_get w in
      let rest = pop events (default_mapping k c w').1 in if quit then w' else rest
