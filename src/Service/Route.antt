-- ===== src/Service/Route.antt =====
-- createServiceProxy in service_controller.go, as the transaction of the API sees it: the four
-- writes that route a port of HAProxy to a Service, and what each of them leaves there.
pub mod Chain
use mathlib.Core.List.{append_assoc}
use pod_proxier.Base.{
  ℕ, suc, ◌≤◌, ◌≡◌, ◌≢◌, refl, ap, ap₂, ◌∙◌, sym, ◌⊎◌, inl, inr, Bool, none, some, List, [], ◌∷◌,
  ◌++◌, All, length, length-append, arith, Bool-cases,
}
use pod_proxier.Base.Action.{Action}
use pod_proxier.GoString.{GoString}
use pod_proxier.Haproxy.Types.{Server}
use pod_proxier.Haproxy.Response.{GoError}
use pod_proxier.Haproxy.Api.{Api, Request, delete}
use pod_proxier.Haproxy.Handle.{do_request}
use pod_proxier.Haproxy.Backends.{
  ensure_backend, ensure_frontend, add_backend, replace_backend, add_frontend, replace_frontend,
}
use pod_proxier.Haproxy.Servers.{add_server_to_backend, add_bind}
use pod_proxier.Haproxy.Plane.{DataPlane, IsPlain}
use pod_proxier.Haproxy.Writes.{IsWritten}
use pod_proxier.Haproxy.Requests.{
  add_backend_request, replace_backend_request, add_server_request, add_frontend_request,
  replace_frontend_request, add_bind_request, add_backend-IsWritten, replace_backend-IsWritten,
  add_server_to_backend-IsWritten, add_frontend-IsWritten, replace_frontend-IsWritten,
  add_bind-IsWritten,
}
use pod_proxier.Service.State.{ServiceController, KubeService, ServicePort}
use pod_proxier.Service.Proxy.{
  backend_object, server_object, server_address, frontend_object, bind_object, unless_exists,
  then_if_nil, write_backend, write_server, after_add, write_frontend, write_bind,
  create_service_proxy,
}

-- The request deletes nothing.
abbrev pub IsAddition : Request → Type 0
IsAddition r = r.method ≢ delete

module _ (api : Api) (c : ServiceController) (tx_id : GoString) where
  abbrev pub IsBackendWrite : GoString → Bool → Request → Type 0
  IsBackendWrite name hide r =
      (r ≡ add_backend_request api c.handler tx_id (backend_object c name hide))
      ⊎ (r ≡ replace_backend_request api c.handler tx_id name (backend_object c name hide))

  abbrev pub IsFrontendWrite : GoString → GoString → Request → Type 0
  IsFrontendWrite name backend_name r =
      (r ≡ add_frontend_request api c.handler tx_id (frontend_object name backend_name))
      ⊎ (r ≡ replace_frontend_request api c.handler tx_id name (frontend_object name backend_name))

  -- The writes of a route, the latest first: a bind on the port, in a frontend whose default backend
  -- holds the server of the Service.
  abbrev pub IsRoute :
      KubeService → ServicePort → ℕ → GoString → GoString → GoString → Bool → List Request → Type 0
  IsRoute service port mapped_port backend_name frontend_name bind_name hide rs =
      (b : Request) × (f : Request) × IsBackendWrite backend_name hide b
      × IsFrontendWrite frontend_name backend_name f
      × (rs
          ≡ add_bind_request api c.handler tx_id (bind_object c bind_name mapped_port) frontend_name
            ∷ f
            ∷ add_server_request api c.handler tx_id (server_object c (server_address service port))
                backend_name
            ∷ b
            ∷ [])

module _ (api : Api) (plane : DataPlane api) (tx_id : GoString) where
  -- One write of the given kind waits in the transaction, or there is an error and none does.
  abbrev pub IsMade : (Request → Type 0) → api.World → GoError × api.World → Type 0
  IsMade R w (none, w') = (r : Request) × R r × (plane.pending tx_id w' ≡ r ∷ plane.pending tx_id w)
  IsMade R w (some e, w') = plane.pending tx_id w' ≡ plane.pending tx_id w

  -- What a chain of writes has done: without an error, the writes of a kind of list; with an error,
  -- at most the given number, none of them a deletion.
  abbrev pub Made : (List Request → Type 0) → ℕ → api.World → GoError × api.World → Type 0
  Made R n w (none, w') =
      (rs : List Request) × R rs × (plane.pending tx_id w' ≡ rs ++ plane.pending tx_id w)
  Made R n w (some e, w') =
      (rs : List Request) × (length rs ≤ n)
      × All IsAddition rs
      × (plane.pending tx_id w' ≡ rs ++ plane.pending tx_id w)

module _ (api : Api) (plane : DataPlane api) (plain : IsPlain api) (c : ServiceController)
    (tx_id : GoString) (open_tx : tx_id ≢ []) where
  -- A write whose error is checked with unless_exists.
  checked :
      (R : Request → Type 0) (prefix : GoString) (r : Request) (w v : api.World)
      (p : (Bool × GoError) × api.World)
      → R r
      → plane.pending tx_id v ≡ plane.pending tx_id w
      → IsWritten api plane tx_id r v p
      → IsMade api plane tx_id R w (unless_exists prefix p.0.1, p.1)
  unfolding unless_exists
  checked R prefix r w v ((b, none), w') kind read written =
      (r, kind, written ∙ ap (λ l. r ∷ l) read)
  checked R prefix r w v ((b, some e), w') kind read (kept, other) = rw other (kept ∙ read)

  ensure_backend_reads :
      (name : GoString) (w : api.World)
      → plane.pending tx_id (ensure_backend api c.handler name w).1 ≡ plane.pending tx_id w
  unfolding ensure_backend do_request
  ensure_backend_reads name w = (plane.reads _ w refl).1 tx_id

  ensure_frontend_reads :
      (name : GoString) (w : api.World)
      → plane.pending tx_id (ensure_frontend api c.handler name w).1 ≡ plane.pending tx_id w
  unfolding ensure_frontend do_request
  ensure_frontend_reads name w = (plane.reads _ w refl).1 tx_id

  pub write_backend-IsMade :
      (name : GoString) (hide : Bool) (w : api.World)
      → IsMade api plane tx_id
          (IsBackendWrite api c tx_id name hide)
          w
          (write_backend api c tx_id name hide w)
  unfolding write_backend
  write_backend-IsMade name hide w =
      let v = (ensure_backend api c.handler name w).1 in
      elim (Bool-cases (ensure_backend api c.handler name w).0) [
        | inl e ↦ rw e (
            checked _ _ _ w v
              (replace_backend api c.handler name (backend_object c name hide) tx_id v) (inr refl)
              (ensure_backend_reads name w)
              (replace_backend-IsWritten api plane plain c.handler tx_id open_tx name _ v))
        | inr e ↦ rw e (
            checked _ _ _ w v (add_backend api c.handler (backend_object c name hide) tx_id v)
              (inl refl) (ensure_backend_reads name w)
              (add_backend-IsWritten api plane plain c.handler tx_id open_tx _ v))
      ]

  pub write_frontend-IsMade :
      (name backend_name : GoString) (w : api.World)
      → IsMade api plane tx_id
          (IsFrontendWrite api c tx_id name backend_name)
          w
          (write_frontend api c tx_id name backend_name w)
  unfolding write_frontend
  write_frontend-IsMade name backend_name w =
      let v = (ensure_frontend api c.handler name w).1 in
      elim (Bool-cases (ensure_frontend api c.handler name w).0) [
        | inl e ↦ rw e (
            checked _ _ _ w v
              (replace_frontend api c.handler name (frontend_object name backend_name) tx_id v)
              (inr refl) (ensure_frontend_reads name w)
              (replace_frontend-IsWritten api plane plain c.handler tx_id open_tx name _ v))
        | inr e ↦ rw e (
            checked _ _ _ w v
              (add_frontend api c.handler (frontend_object name backend_name) tx_id v) (inl refl)
              (ensure_frontend_reads name w)
              (add_frontend-IsWritten api plane plain c.handler tx_id open_tx _ v))
      ]

  added :
      (server : Server) (backend_name : GoString) (r : Request) (w : api.World)
      (p : (Bool × GoError) × api.World)
      → IsWritten api plane tx_id r w p
      → IsMade api plane tx_id (λ q. q ≡ r) w (after_add api c tx_id server backend_name p.0.1 p.1)
  added server backend_name r w ((b, none), w') written = (r, refl, written)
  added server backend_name r w ((b, some e), w') (kept, other) = rw other kept

  pub write_server-IsMade :
      (server : Server) (backend_name : GoString) (w : api.World)
      → IsMade api plane tx_id
          (λ r. r ≡ add_server_request api c.handler tx_id server backend_name)
          w
          (write_server api c tx_id server backend_name w)
  unfolding write_server
  write_server-IsMade server backend_name w =
      added server backend_name _ w
        (add_server_to_backend api c.handler server backend_name tx_id w)
        (add_server_to_backend-IsWritten api plane plain c.handler tx_id open_tx server backend_name
          w)

  pub write_bind-IsMade :
      (bind_name : GoString) (mapped_port : ℕ) (frontend_name : GoString) (w : api.World)
      → IsMade api plane tx_id
          (λ r.
            r
            ≡ add_bind_request api c.handler tx_id
                (bind_object c bind_name mapped_port)
                frontend_name)
          w
          (write_bind api c tx_id bind_name mapped_port frontend_name w)
  unfolding write_bind
  write_bind-IsMade bind_name mapped_port frontend_name w =
      checked _ _ _ w w
        (add_bind api c.handler (bind_object c bind_name mapped_port) frontend_name tx_id w) refl
        refl (add_bind-IsWritten api plane plain c.handler tx_id open_tx _ frontend_name w)
