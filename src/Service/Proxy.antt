-- ===== src/Service/Proxy.antt =====
-- controller/service_controller.go, createServiceProxy: the writes that map one port.
use pod_proxier.Base.{ℕ, ◌++◌, Bool, true, none, some, [], ◌∷◌, if◌then◌else◌}
use pod_proxier.Base.Int.{ℤ, pos, ◌*ℤ◌, wrap64}
use pod_proxier.Base.Action.{Action, pure, ◌>>=◌}
use pod_proxier.GoString.{GoString, str}
use pod_proxier.GoString.Number.{format_int}
use pod_proxier.Haproxy.Types.{Backend, Frontend, Bind, Server, empty_server}
use pod_proxier.Haproxy.Response.{GoError, already_exists}
use pod_proxier.Haproxy.Api.{Api}
use pod_proxier.Haproxy.Handle.{cat}
use pod_proxier.Haproxy.Backends.{
  ensure_backend, replace_backend, add_backend, ensure_frontend, replace_frontend, add_frontend,
}
use pod_proxier.Haproxy.Servers.{add_server_to_backend, replace_server_from_backend, add_bind}
use pod_proxier.Service.State.{ServiceController, KubeService, ServicePort}

-- c.checkTimeout * 1000 on int64
unfoldable pub milliseconds : ℤ → ℤ
unfolding wrap64 ◌*ℤ◌
milliseconds s = wrap64 (s *ℤ pos 1000)

unfoldable pub backend_object : ServiceController → GoString → Bool → Backend
unfolding milliseconds
backend_object c backend_name hide = record {
  name = backend_name;
  mode = str "tcp";
  check_timeout = if c.is_off_check then none else some (milliseconds c.check_timeout);
  stats_options = if hide then some (record { stats_enable = true }) else none;
}

unfoldable pub server_address : KubeService → ServicePort → GoString
server_address service port = cat (service.cluster_ip ∷ str ":" ∷ format_int port.port ∷ [])

unfoldable pub server_object : ServiceController → GoString → Server
unfolding milliseconds
server_object c address = record empty_server {
  name = address;
  address = address;
  check = if c.is_off_check then str "disabled" else str "enabled";
  inter = if c.is_off_check then pos 0 else milliseconds c.check_interval;
}

abbrev pub frontend_object : GoString → GoString → Frontend
frontend_object frontend_name backend_name = record {
  name = frontend_name;
  default_backend = backend_name;
  mode = str "tcp";
}

abbrev pub bind_object : ServiceController → GoString → ℕ → Bind
bind_object c bind_name mapped_port = record {
  name = bind_name;
  port = some (pos mapped_port);
  address = c.controller_addr;
}

-- `if err != nil && !strings.Contains(err.Error(), "already exists")`: the wrapped error.
unfoldable pub unless_exists : GoString → GoError → GoError
unless_exists prefix none = none
unless_exists prefix (some e) = if already_exists e then none else some (prefix ++ e)

module _ (api : Api) (c : ServiceController) (tx_id : GoString) where
  -- Go on unless the step before has failed.
  unfoldable pub then_if_nil : GoError → Action api.World GoError → Action api.World GoError
  then_if_nil (some e) next = pure (some e)
  then_if_nil none next = next

  -- Create or replace the backend.
  unfoldable pub write_backend : GoString → Bool → Action api.World GoError
  write_backend backend_name hide = do
    exist ← ensure_backend api c.handler backend_name
    r ←
        (if exist
          then replace_backend api c.handler backend_name (backend_object c backend_name hide) tx_id
          else add_backend api c.handler (backend_object c backend_name hide) tx_id)
    pure (unless_exists (str "failed to create/update backend: ") r.1)

  abbrev pub replaced : GoError → GoError
  replaced none = none
  replaced (some e) = some (str "failed to update server in backend: " ++ e)

  abbrev pub after_add : Server → GoString → GoError → Action api.World GoError
  after_add server backend_name none = pure none
  after_add server backend_name (some e) =
      if already_exists e
      then (do
        r ← replace_server_from_backend api c.handler server.name server backend_name tx_id
        pure (replaced r.1))
      else pure (some (str "failed to add server to backend: " ++ e))

  -- Add the server, or replace it where the answer says that it exists.
  unfoldable pub write_server : Server → GoString → Action api.World GoError
  write_server server backend_name = do
    r ← add_server_to_backend api c.handler server backend_name tx_id
    after_add server backend_name r.1

  -- Create or replace the frontend.
  unfoldable pub write_frontend : GoString → GoString → Action api.World GoError
  write_frontend frontend_name backend_name = do
    exist ← ensure_frontend api c.handler frontend_name
    r ←
        (if exist
          then replace_frontend api c.handler frontend_name
              (frontend_object frontend_name backend_name) tx_id
          else add_frontend api c.handler (frontend_object frontend_name backend_name) tx_id)
    pure (unless_exists (str "failed to create/update frontend: ") r.1)

  unfoldable pub write_bind : GoString → ℕ → GoString → Action api.World GoError
  write_bind bind_name mapped_port frontend_name = do
    r ← add_bind api c.handler (bind_object c bind_name mapped_port) frontend_name tx_id
    pure (unless_exists (str "failed to create bind: ") r.1)

  unfoldable pub create_service_proxy :
      KubeService
      → ServicePort
      → ℕ
      → GoString
      → GoString
      → GoString
      → Bool
      → Action api.World GoError
  create_service_proxy service port mapped_port backend_name frontend_name bind_name hide = do
    backend_error ← write_backend backend_name hide
    then_if_nil backend_error (do
      server_error ← write_server (server_object c (server_address service port)) backend_name
      then_if_nil server_error (do
        frontend_error ← write_frontend frontend_name backend_name
        then_if_nil frontend_error (write_bind bind_name mapped_port frontend_name)))
