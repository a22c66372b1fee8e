-- ===== src/Pod/Scheduling.antt =====
-- What a CreateMapping that ends without an error has done.
use pod_proxier.Base.{◌≡◌, refl, Bool, none, some}
use pod_proxier.Base.Int.{ℤ}
use pod_proxier.GoString.{GoString}
use pod_proxier.Haproxy.Response.{GoError}
use pod_proxier.Pod.State.{Controller, PodCluster, Pod, Found, found, absent, broken}
use pod_proxier.Pod.Proxy.{change_proxy}
use pod_proxier.Pod.Mapping.{
  seconds, pod_server, mapping_event, schedule, map_found, create_mapping,
}

module _ (k : PodCluster) (c : Controller) (name : GoString) (delay_time : ℤ) where
  -- The Pod is in the cache, the proxy has been changed to it, and the event is in the queue.
  abbrev pub IsMapped : (k.api).World → (k.api).World → Type 0
  IsMapped w after =
      (pod : Pod) × (b : Bool) × (w1 : (k.api).World) × (w2 : (k.api).World) × (k.get_by_key name w
        ≡ (found pod, w1))
      × (change_proxy k c (pod_server c pod) w1 ≡ ((none, b), w2))
      × (after ≡ (k.add_after (mapping_event k c name pod) (seconds delay_time) w2).1)

  scheduled :
      (pod : Pod) (w w1 : (k.api).World) (r : (GoError × Bool) × (k.api).World)
      → k.get_by_key name w ≡ (found pod, w1)
      → change_proxy k c (pod_server c pod) w1 ≡ r
      → (schedule k c name delay_time pod r).0 ≡ none
      → IsMapped w (schedule k c name delay_time pod r).1
  unfolding schedule
  scheduled pod w w1 ((none, b), w2) there changed h = (pod, b, w1, w2, there, changed, refl)
  scheduled pod w w1 ((some e, b), w2) there changed h = cc

  map_found_nil :
      (w : (k.api).World) (r : Found × (k.api).World)
      → k.get_by_key name w ≡ r
      → (map_found k c name delay_time r).0 ≡ none
      → IsMapped w (map_found k c name delay_time r).1
  unfolding map_found
  map_found_nil w (broken e, w1) there h = cc
  map_found_nil w (absent, w1) there h = cc
  map_found_nil w (found pod, w1) there h = scheduled pod w w1 _ there refl h

  -- A CreateMapping without an error has found the Pod, changed the proxy to it without an error,
  -- and then, last of all, put the event that takes the mapping back into the delaying queue.
  pub create_mapping_nil :
      (w : (k.api).World)
      → (create_mapping k c name delay_time w).0 ≡ none
      → IsMapped w (create_mapping k c name delay_time w).1
  unfolding create_mapping
  create_mapping_nil w h = map_found_nil w _ refl h
