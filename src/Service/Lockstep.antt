-- ===== src/Service/Lockstep.antt =====
-- syncService in service_controller.go, as the transaction of the API sees it: the steps in which the
-- controller's mappings and the writes that wait in the transaction change together.
pub mod Ports
pub mod Batch
pub mod Turn
use mathlib.Core.List.{append_assoc}
use pod_proxier.Base.{
  ℕ, ◌≤◌, ◌≡◌, refl, ap, ◌∙◌, sym, Bool, true, false, none, some, List, [], ◌∷◌, ◌++◌, All, length,
  if◌then◌else◌,
}
use pod_proxier.GoString.{GoString}
use pod_proxier.Haproxy.Api.{Request, delete}
use pod_proxier.Haproxy.Plane.{DataPlane, accepts}
use pod_proxier.Haproxy.Requests.{delete_frontend_request, delete_backend_request}
use pod_proxier.Service.State.{
  ServiceController, KubeService, ServicePort, ServiceMapping, lookup, is_allocated,
}
use pod_proxier.Service.Cluster.{Cluster}
use pod_proxier.Service.Consistency.{with_mapping, without_mapping, with_attempt}
use pod_proxier.Service.Route.{IsRoute, IsAddition}
use pod_proxier.Service.Mapping.{
  State, mapping_key, new_mapping, backend_name, frontend_name, bind_name,
}

module _ (k : Cluster) (tx_id : GoString) where
  -- The deletion has been sent in some world, and is in the list if it has been accepted.
  abbrev pub IsDeletion : Request → List Request → Type 0
  IsDeletion r l =
      (v : (k.api).World) × (l ≡ (if accepts delete ((k.api).send r v).0 then r ∷ [] else []))

-- A controller and the writes that have come into the transaction since the given controller, the
-- latest first. A mapping is recorded together with the four writes of its route and nothing else. A
-- port is given back when its writes have failed: three at most are left, and none is a deletion. A
-- mapping is dropped together with the deletions of its frontend and its backend.
pub data Lockstep (k : Cluster) (tx_id : GoString) (c0 : ServiceController)
    : ServiceController → List Request → Type 0 where
  begun : Lockstep k tx_id c0 c0 []
  routed :
      {c : ServiceController} {l : List Request} (service : KubeService) (port : ServicePort)
      (p t : ℕ) (rs : List Request)
      → Lockstep k tx_id c0 c l
      → lookup (mapping_key service port) c.service_mappings ≡ none
      → is_allocated p c.port_allocations ≡ false
      → IsRoute k.api c tx_id service port p
          (backend_name service port)
          (frontend_name service p)
          (bind_name service port)
          c.hide_backend
          rs
      → Lockstep k tx_id c0
          (with_mapping (mapping_key service port) (new_mapping service port p t) c)
          (rs ++ l)
  given_up :
      {c : ServiceController} {l : List Request} (p : ℕ) (rs : List Request)
      → Lockstep k tx_id c0 c l
      → is_allocated p c.port_allocations ≡ false
      → length rs ≤ 3
      → All IsAddition rs
      → Lockstep k tx_id c0 (with_attempt p c) (rs ++ l)
  removed :
      {c : ServiceController} {l : List Request} (key : GoString) (m : ServiceMapping)
      (fs bs : List Request)
      → Lockstep k tx_id c0 c l
      → lookup key c.service_mappings ≡ some m
      → IsDeletion k tx_id (delete_frontend_request k.api c.handler tx_id m.frontend_name) fs
      → IsDeletion k tx_id (delete_backend_request k.api c.handler tx_id m.backend_name) bs
      → Lockstep k tx_id c0 (without_mapping key m c) (bs ++ (fs ++ l))

module _ (k : Cluster) (plane : DataPlane k.api) (tx_id : GoString) (s0 : State k) where
  -- The controller and the transaction have come from those of s0 in lockstep.
  abbrev pub IsInStep : State k → Type 0
  IsInStep (c, w) =
      (l : List Request) × Lockstep k tx_id s0.0 c l
      × (plane.pending tx_id w ≡ l ++ plane.pending tx_id s0.1)

  pub start-IsInStep : IsInStep s0
  start-IsInStep = ([], begun, refl)

  pub IsInStep-untouched :
      (c : ServiceController) (w v : (k.api).World)
      → plane.pending tx_id v ≡ plane.pending tx_id w
      → IsInStep (c, w)
      → IsInStep (c, v)
  IsInStep-untouched c w v same (l, steps, grown) = (l, steps, same ∙ grown)

  -- More writes in front of those of before.
  pub longer :
      (rs l q q' : List Request)
      → q' ≡ rs ++ q
      → q ≡ l ++ plane.pending tx_id s0.1
      → q' ≡ (rs ++ l) ++ plane.pending tx_id s0.1
  longer rs l q q' more grown =
      more ∙ ap (λ t. rs ++ t) grown ∙ sym (append_assoc rs l (plane.pending tx_id s0.1))

  -- A write that is in the transaction if it is accepted.
  pub as_list :
      (b : Bool) (r : Request) (l : List Request)
      → (if b then r ∷ l else l) ≡ (if b then r ∷ [] else []) ++ l
  as_list true r l = refl
  as_list false r l = refl
