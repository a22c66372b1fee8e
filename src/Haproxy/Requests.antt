-- ===== src/Haproxy/Requests.antt =====
-- haproxy/haproxy.go: the payload writes in a transaction, each with its request.
use pod_proxier.Base.{◌≡◌, ◌≢◌, refl, some, none, [], ◌∷◌, if◌then◌else◌}
use pod_proxier.GoString.{GoString, str}
use pod_proxier.Haproxy.Types.{
  Backend, Frontend, Bind, Server, backend_path, frontend_path, server_path, bind_path,
}
use pod_proxier.GoString.Escape.{query_escape}
use pod_proxier.Haproxy.Backends.{
  add_backend, replace_backend, add_frontend, replace_frontend, delete_frontend, delete_backend,
}
use pod_proxier.Haproxy.Servers.{add_server_to_backend, add_bind, of_backend, of_frontend}
use pod_proxier.Haproxy.Response.{
  logs, backend_pointer, frontend_pointer, server_pointer, bind_pointer,
}
use pod_proxier.Haproxy.Api.{Api, Request, post, put, delete}
use pod_proxier.Haproxy.Handle.{HaproxyHandle, new_request, do_request}
use pod_proxier.Haproxy.Scope.{Ends-cat}
use pod_proxier.Haproxy.Plane.{DataPlane, IsPlain, tagged, accepts}
use pod_proxier.Haproxy.Writes.{IsWritten, tagged_query, encoded-IsWritten}

module _ (api : Api) (h : HaproxyHandle) (tx_id : GoString) where
  -- The requests of the writes that createServiceProxy makes.
  abbrev pub add_backend_request : Backend → Request
  unfolding new_request
  add_backend_request b =
      new_request api h post (backend_path ∷ str "?" ∷ tagged tx_id ∷ [])
        (some ((api.codec).marshal_backend b).0)

  abbrev pub replace_backend_request : GoString → Backend → Request
  unfolding new_request
  replace_backend_request old_name b =
      new_request api h put
        (backend_path ∷ str "/" ∷ query_escape old_name ∷ str "?" ∷ tagged tx_id ∷ [])
        (some ((api.codec).marshal_backend b).0)

  abbrev pub add_server_request : Server → GoString → Request
  unfolding new_request
  add_server_request s backend_name =
      new_request api h post (server_path ∷ of_backend backend_name ∷ str "&" ∷ tagged tx_id ∷ [])
        (some ((api.codec).marshal_server s).0)

  abbrev pub add_frontend_request : Frontend → Request
  unfolding new_request
  add_frontend_request f =
      new_request api h post (frontend_path ∷ str "?" ∷ tagged tx_id ∷ [])
        (some ((api.codec).marshal_frontend f).0)

  abbrev pub replace_frontend_request : GoString → Frontend → Request
  unfolding new_request
  replace_frontend_request old_name f =
      new_request api h put
        (frontend_path ∷ str "/" ∷ query_escape old_name ∷ str "?" ∷ tagged tx_id ∷ [])
        (some ((api.codec).marshal_frontend f).0)

  abbrev pub add_bind_request : Bind → GoString → Request
  unfolding new_request
  add_bind_request b frontend_name =
      new_request api h post (bind_path ∷ of_frontend frontend_name ∷ str "&" ∷ tagged tx_id ∷ [])
        (some ((api.codec).marshal_bind b).0)

  abbrev pub delete_frontend_request : GoString → Request
  unfolding new_request
  delete_frontend_request name =
      new_request api h delete
        (frontend_path ∷ str "/" ∷ query_escape name ∷ str "?" ∷ tagged tx_id ∷ []) none

  abbrev pub delete_backend_request : GoString → Request
  unfolding new_request
  delete_backend_request name =
      new_request api h delete
        (backend_path ∷ str "/" ∷ query_escape name ∷ str "?" ∷ tagged tx_id ∷ []) none

module _ (api : Api) (plane : DataPlane api) (plain : IsPlain api) (h : HaproxyHandle)
    (tx_id : GoString) (open_tx : tx_id ≢ []) where
  pub add_backend-IsWritten :
      (b : Backend) (w : api.World)
      → IsWritten api plane tx_id
          (add_backend_request api h tx_id b)
          w
          (add_backend api h b tx_id w)
  unfolding add_backend logs new_request
  add_backend-IsWritten b w = rw (tagged_query api plane plain h tx_id open_tx w) (
      encoded-IsWritten api plane plain h tx_id open_tx post _ ((api.codec).marshal_backend b)
        (backend_pointer b) w (λ e. cc) (λ e. cc) refl refl (plain.backends b))

  pub replace_backend-IsWritten :
      (old_name : GoString) (b : Backend) (w : api.World)
      → IsWritten api plane tx_id
          (replace_backend_request api h tx_id old_name b)
          w
          (replace_backend api h old_name b tx_id w)
  unfolding replace_backend logs new_request
  replace_backend-IsWritten old_name b w = rw (tagged_query api plane plain h tx_id open_tx w) (
      encoded-IsWritten api plane plain h tx_id open_tx put _ ((api.codec).marshal_backend b)
        (backend_pointer b) w (λ e. cc) (λ e. cc) refl refl (plain.backends b))

  pub add_server_to_backend-IsWritten :
      (s : Server) (backend_name : GoString) (w : api.World)
      → IsWritten api plane tx_id
          (add_server_request api h tx_id s backend_name)
          w
          (add_server_to_backend api h s backend_name tx_id w)
  unfolding add_server_to_backend logs new_request
  add_server_to_backend-IsWritten s backend_name w =
      rw (tagged_query api plane plain h tx_id open_tx w) (
        encoded-IsWritten api plane plain h tx_id open_tx post _ ((api.codec).marshal_server s)
          (server_pointer s) w (λ e. cc) (λ e. cc) refl refl (plain.servers s))

  pub add_frontend-IsWritten :
      (f : Frontend) (w : api.World)
      → IsWritten api plane tx_id
          (add_frontend_request api h tx_id f)
          w
          (add_frontend api h f tx_id w)
  unfolding add_frontend logs new_request
  add_frontend-IsWritten f w = rw (tagged_query api plane plain h tx_id open_tx w) (
      encoded-IsWritten api plane plain h tx_id open_tx post _ ((api.codec).marshal_frontend f)
        (frontend_pointer f) w (λ e. cc) (λ e. cc) refl refl (plain.frontends f))

  pub replace_frontend-IsWritten :
      (old_name : GoString) (f : Frontend) (w : api.World)
      → IsWritten api plane tx_id
          (replace_frontend_request api h tx_id old_name f)
          w
          (replace_frontend api h old_name f tx_id w)
  unfolding replace_frontend logs new_request
  replace_frontend-IsWritten old_name f w = rw (tagged_query api plane plain h tx_id open_tx w) (
      encoded-IsWritten api plane plain h tx_id open_tx put _ ((api.codec).marshal_frontend f)
        (frontend_pointer f) w (λ e. cc) (λ e. cc) refl refl (plain.frontends f))

  pub add_bind-IsWritten :
      (b : Bind) (frontend_name : GoString) (w : api.World)
      → IsWritten api plane tx_id
          (add_bind_request api h tx_id b frontend_name)
          w
          (add_bind api h b frontend_name tx_id w)
  unfolding add_bind logs new_request
  add_bind-IsWritten b frontend_name w = rw (tagged_query api plane plain h tx_id open_tx w) (
      encoded-IsWritten api plane plain h tx_id open_tx post _ ((api.codec).marshal_bind b)
        (bind_pointer b) w (λ e. cc) (λ e. cc) refl refl (plain.binds b))

  -- A deletion waits in the transaction if it is accepted.
  pub delete_frontend-pending :
      (name : GoString) (w : api.World)
      → let r = delete_frontend_request api h tx_id name in
        plane.pending tx_id (delete_frontend api h name tx_id w).1 ≡ (
          if accepts delete (api.send r w).0
          then r ∷ plane.pending tx_id w
          else plane.pending tx_id w)
  unfolding delete_frontend do_request new_request
  delete_frontend-pending name w = rw (tagged_query api plane plain h tx_id open_tx w) (
      (plane.writes tx_id (delete_frontend_request api h tx_id name) w open_tx (λ e. cc)
        (Ends-cat (frontend_path ∷ str "/" ∷ query_escape name ∷ str "?" ∷ tagged tx_id ∷ [])
          (tagged tx_id) refl)).1)

  pub delete_backend-pending :
      (name : GoString) (w : api.World)
      → let r = delete_backend_request api h tx_id name in
        plane.pending tx_id (delete_backend api h name tx_id w).1 ≡ (
          if accepts delete (api.send r w).0
          then r ∷ plane.pending tx_id w
          else plane.pending tx_id w)
  unfolding delete_backend do_request new_request
  delete_backend-pending name w = rw (tagged_query api plane plain h tx_id open_tx w) (
      (plane.writes tx_id (delete_backend_request api h tx_id name) w open_tx (λ e. cc)
        (Ends-cat (backend_path ∷ str "/" ∷ query_escape name ∷ str "?" ∷ tagged tx_id ∷ [])
          (tagged tx_id) refl)).1)
