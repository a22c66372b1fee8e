-- ===== src/Server/Created.antt =====
-- What the answers of /api/v1/mapping tell.
use pod_proxier.Base.{◌≢◌, ◌≡◌, refl, ◌↔◌, true, false, none, some, arith}
use pod_proxier.GoString.{GoString}
use pod_proxier.Haproxy.Response.{GoError}
use pod_proxier.Pod.State.{Controller, PodCluster, Pod, Found, found, absent, broken}
use pod_proxier.Pod.Mapping.{create_mapping, query_pod_exists}
use pod_proxier.Pod.Scheduling.{IsMapped, create_mapping_nil}
use pod_proxier.Server.Answer.{answer, err_not_fount, text}
use pod_proxier.Server.V1.{
  bound, ProxyMapping, limit_time, create, create_answer, query, found_answer,
}

module _ (k : PodCluster) (c : Controller) where
  succeeded : (e : GoError) → (create_answer e).code ≡ 10000 → e ≡ none
  unfolding answer
  succeeded none h = refl
  succeeded (some e) h = absurd (omega arith)

  -- If the answer to a request for a mapping has the code of success, the Pod has been found in the
  -- cache, the proxy has been changed to it without an error, and the event that takes the mapping
  -- back after the limited time has been put into the delaying queue.
  pub create_succeeded :
      (m : ProxyMapping) (w : (k.api).World)
      → (create k c (bound m) w).0.code ≡ 10000
      → IsMapped k c m.pod_name (limit_time m.time) w (create k c (bound m) w).1
  unfolding create
  create_succeeded m w h =
      create_mapping_nil k c m.pod_name (limit_time m.time) w
        (succeeded (create_mapping k c m.pod_name (limit_time m.time) w).0 h)

  exists_code :
      (name : GoString) (r : Found)
      → ((found_answer name (elim r [ found _ ↦ true | absent ↦ false | broken _ ↦ false ])).code
          ≡ 10000)
        ↔ ((pod : Pod) × (r ≡ found pod))
  unfolding answer
  exists_code name (found pod) = (λ h. (pod, refl), λ h. refl)
  exists_code name absent = (λ h. absurd (omega arith), λ (pod, e). absurd (not_found pod e))
    where
      not_found : (pod : Pod) → absent ≡ found pod → ⊥
      not_found pod e = cc
  exists_code name (broken e) = (λ h. absurd (omega arith), λ (pod, q). absurd (not_found pod q))
    where
      not_found : (pod : Pod) → broken e ≡ found pod → ⊥
      not_found pod q = cc

  missing_answer :
      (name : GoString) (r : Found)
      → ((pod : Pod) → r ≢ found pod)
      → found_answer name (elim r [ found _ ↦ true | absent ↦ false | broken _ ↦ false ])
        ≡ answer err_not_fount (text name)
  missing_answer name (found pod) other = absurd (other pod refl)
  missing_answer name absent other = refl
  missing_answer name (broken e) other = refl

  -- The answer to a query has the code of success exactly if the Pod is in the cache; otherwise, also
  -- where the cache fails, the answer is that there is no Pod of this name.
  pub query_iff :
      (name : GoString) (w : (k.api).World)
      → (((query k c (bound name) w).0.code ≡ 10000)
          ↔ ((pod : Pod) × ((k.get_by_key name w).0 ≡ found pod)))
        × (((pod : Pod) → (k.get_by_key name w).0 ≢ found pod)
            → (query k c (bound name) w).0 ≡ answer err_not_fount (text name))
  unfolding query query_pod_exists
  query_iff name w =
      (exists_code name (k.get_by_key name w).0, missing_answer name (k.get_by_key name w).0)
