-- ===== src/Server/Mapped.antt =====
-- The mappings of V1, from the HTTP API to the servers of HAProxy.
use pod_proxier.Base.{◌≤◌, ◌≡◌, List, [], ◌∷◌, length}
use pod_proxier.Pod.State.{Controller, PodCluster, Pod, found, backend_prefix}
use pod_proxier.Pod.Proxy.{default_mapping}
use pod_proxier.Pod.Mapping.{pod_server}
use pod_proxier.Pod.Target.{ServerStore}
use pod_proxier.Pod.Single.{
  IsAnswering, IsSingle, IsMapped-servers, default_mapping-IsSingle, create_mapping-IsSingle,
}
use pod_proxier.Server.V1.{Bound, bound, unbound, ProxyMapping, create, limit_time}
use pod_proxier.Server.Created.{create_succeeded}

-- What changes the proxy: a request for a mapping, or the expiry of one.
pub data Change : Type 0 where
  requested : Bound ProxyMapping → Change
  expired : Change

module _ (k : PodCluster) (c : Controller) where
  abbrev pub changed : Change → (k.api).World → (k.api).World
  changed (requested b) w = (create k c b w).1
  changed expired w = (default_mapping k c w).1

  -- The changes one after the other.
  abbrev pub changed_all : List Change → (k.api).World → (k.api).World
  changed_all [] w = w
  changed_all (x ∷ xs) w = changed_all xs (changed x w)

module _ (k : PodCluster) (c : Controller) (store : ServerStore k.api c.handler)
    (outside : IsAnswering k c store) where
  changed-IsSingle :
      (x : Change) (w : (k.api).World) → IsSingle k c store w → IsSingle k c store (changed k c x w)
  unfolding create
  changed-IsSingle (requested (unbound e)) w few = few
  changed-IsSingle (requested (bound m)) w few =
      create_mapping-IsSingle k c store outside m.pod_name (limit_time m.time) w few
  changed-IsSingle expired w few = default_mapping-IsSingle k c store outside w few

  changed_all-IsSingle :
      (xs : List Change) (w : (k.api).World)
      → IsSingle k c store w
      → IsSingle k c store (changed_all k c xs w)
  changed_all-IsSingle [] w few = few
  changed_all-IsSingle (x ∷ xs) w few = changed_all-IsSingle xs _ (changed-IsSingle x w few)

  -- Where the API keeps the servers of its backends and answers their lists, and the cache and the
  -- delaying queue do not change them: from one server at most in the backend of V1, after any
  -- sequence of requests and expiries, a request for a mapping that is answered with success leaves
  -- exactly one server there, with the name and the address of the Pod that has been asked for.
  pub create-servers :
      (xs : List Change) (m : ProxyMapping) (w : (k.api).World)
      → length (store.servers backend_prefix w) ≤ 1
      → let before = changed_all k c xs w in
        (create k c (bound m) before).0.code ≡ 10000
        → (pod : Pod) × ((k.get_by_key m.pod_name before).0 ≡ found pod)
          × (store.servers backend_prefix (create k c (bound m) before).1
              ≡ ((pod_server c pod).server_name, (pod_server c pod).pod_addr) ∷ [])
  create-servers xs m w few success =
      IsMapped-servers k c store outside m.pod_name (limit_time m.time) _ _
        (changed_all-IsSingle xs w few) (create_succeeded k c m _ success)
