-- ===== src/Pod/Single.antt =====
-- CreateMapping, the expiry of a mapping and DefaultMapping in pod_controller.go: the backend of V1
-- never holds two servers, and what it holds after a mapping.
use pod_proxier.Base.{◌≤◌, ◌≡◌, ap, ◌∙◌, sym, subst, Bool, false, none, some, List, [], ◌∷◌, length}
use pod_proxier.GoString.{GoString}
use pod_proxier.Haproxy.Types.{Server}
use pod_proxier.Haproxy.Response.{GoError}
use pod_proxier.Base.Int.{ℤ}
use pod_proxier.Pod.Mapping.{
  pod_server, mapping_event, seconds, schedule, map_found, create_mapping,
}
use pod_proxier.Pod.Scheduling.{IsMapped}
use pod_proxier.Pod.State.{
  Pod, Event, found, absent, broken, Found, Controller, PodCluster, ServerInfo, backend_prefix,
}
use pod_proxier.Pod.Proxy.{new_server, replace_each, change_to, change_proxy, default_mapping}
use pod_proxier.Pod.Target.{
  ServerStore, listing, targets, add_server-few, replace_server-few, get_servers-servers,
  change_proxy-servers,
}

module _ (k : PodCluster) (c : Controller) (store : ServerStore k.api c.handler) where
  -- The cache and the delaying queue have nothing to do with HAProxy, and the API answers the list.
  pub record IsAnswering : Type 0 where
    pub caches :
        (key : GoString) (w : (k.api).World)
        → store.servers backend_prefix (k.get_by_key key w).1 ≡ store.servers backend_prefix w
    pub schedules :
        (event : Event) (t : ℤ) (w : (k.api).World)
        → store.servers backend_prefix (k.add_after event t w).1 ≡ store.servers backend_prefix w
    pub answers :
        (w : (k.api).World) → ((k.api).send (listing k.api c.handler backend_prefix) w).0.err ≡ none

  -- A mapping that has been made leaves the Pod's server alone in the backend.
  pub IsMapped-servers :
      IsAnswering
      → (name : GoString) (t : ℤ) (w after : (k.api).World)
      → length (store.servers backend_prefix w) ≤ 1
      → IsMapped k c name t w after
      → (pod : Pod) × ((k.get_by_key name w).0 ≡ found pod)
        × (store.servers backend_prefix after
            ≡ ((pod_server c pod).server_name, (pod_server c pod).pod_addr) ∷ [])
  IsMapped-servers outside name t w after few (pod, b, w1, w2, there, changed, scheduled) =
      let before = sym (ap (λ r. store.servers backend_prefix r.1) there) ∙ outside.caches name w in
      (
        pod,
        ap (λ r. r.0) there,
        ap (store.servers backend_prefix) scheduled
            ∙ outside.schedules (mapping_event k c name pod) (seconds t) w2
            ∙ ap (λ r. store.servers backend_prefix r.1) (sym changed)
            ∙ change_proxy-servers k c store (pod_server c pod) w1
                (subst (λ l. length l ≤ 1) (sym before) few) (outside.answers w1)
                (ap (λ r. r.0.0) changed),
      )

  -- One server at most.
  abbrev pub IsSingle : (k.api).World → Type 0
  IsSingle w = length (store.servers backend_prefix w) ≤ 1

  replace_each-IsSingle :
      (new : Server) (vs : List Server) (last : GoError × Bool) (w : (k.api).World)
      → IsSingle w
      → IsSingle (replace_each k c new vs last w).1
  unfolding replace_each
  replace_each-IsSingle new [] last w few = few
  replace_each-IsSingle new (v ∷ vs) last w few = replace_each-IsSingle new vs _ _ (
      subst (λ n. n ≤ 1)
        (sym (replace_server-few k.api c.handler store v.name new backend_prefix w)) few)

  change_to-IsSingle :
      (new : Server) (vs : List Server) (w : (k.api).World)
      → IsSingle w
      → targets vs ≡ store.servers backend_prefix w
      → IsSingle (change_to k c new vs w).1
  unfolding change_to
  change_to-IsSingle new [] w few held =
      add_server-few k.api c.handler store new backend_prefix w (sym held)
  change_to-IsSingle new (v ∷ vs) w few held =
      replace_each-IsSingle new (v ∷ vs) (none, false) w few

  module _ (outside : IsAnswering) where
    change_proxy-IsSingle :
        (srv : ServerInfo) (w : (k.api).World) → IsSingle w → IsSingle (change_proxy k c srv w).1
    unfolding change_proxy
    change_proxy-IsSingle srv w few =
        let (listed, kept) =
          get_servers-servers k.api c.handler store backend_prefix w (outside.answers w) in
        change_to-IsSingle (new_server srv) _ _ (subst (λ l. length l ≤ 1) (sym kept) few)
          (listed ∙ sym kept)

    -- The expiry of a mapping.
    pub default_mapping-IsSingle :
        (w : (k.api).World) → IsSingle w → IsSingle (default_mapping k c w).1
    unfolding default_mapping
    default_mapping-IsSingle w few = change_proxy-IsSingle _ w few

    schedule-IsSingle :
        (name : GoString) (t : ℤ) (pod : Pod) (r : (GoError × Bool) × (k.api).World)
        → IsSingle r.1
        → IsSingle (schedule k c name t pod r).1
    unfolding schedule
    schedule-IsSingle name t pod ((some e, b), w) few = few
    schedule-IsSingle name t pod ((none, b), w) few =
        subst (λ l. length l ≤ 1) (sym (outside.schedules _ _ w)) few

    map_found-IsSingle :
        (name : GoString) (t : ℤ) (r : Found × (k.api).World)
        → IsSingle r.1
        → IsSingle (map_found k c name t r).1
    unfolding map_found
    map_found-IsSingle name t (broken e, w) few = few
    map_found-IsSingle name t (absent, w) few = few
    map_found-IsSingle name t (found pod, w) few =
        schedule-IsSingle name t pod _ (change_proxy-IsSingle _ w few)

    pub create_mapping-IsSingle :
        (name : GoString) (t : ℤ) (w : (k.api).World)
        → IsSingle w
        → IsSingle (create_mapping k c name t w).1
    unfolding create_mapping
    create_mapping-IsSingle name t w few =
        map_found-IsSingle name t _ (subst (λ l. length l ≤ 1) (sym (outside.caches name w)) few)
