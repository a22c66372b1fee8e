-- ===== src/Service/Conflict.antt =====
-- The branches of createServiceProxy for objects that exist already, when the API answers 409.
use pod_proxier.Base.{◌≡◌, refl, none, some}
use pod_proxier.GoString.{GoString, str, contains}
use pod_proxier.Haproxy.Types.{Server}
use pod_proxier.Haproxy.Response.{Response, handle_error, server_pointer}
use pod_proxier.Haproxy.Errors.{handle_error_conflict}
use pod_proxier.Haproxy.Api.{Api}
use pod_proxier.Haproxy.Servers.{add_server_to_backend}
use pod_proxier.Service.State.{ServiceController}
use pod_proxier.Service.Proxy.{write_server}

-- A server that the API refuses with 409 is never replaced: the step fails, with no request after
-- the refused one.
pub write_server_conflict :
    (api : Api) (c : ServiceController) (tx_id : GoString) (server : Server)
    (backend_name : GoString) (w w' : api.World) (r : Response)
    → add_server_to_backend api c.handler server backend_name tx_id w
      ≡ (handle_error r (server_pointer server), w')
    → r.err ≡ none
    → r.code ≡ 409
    → write_server api c tx_id server backend_name w
      ≡ (some (str "failed to add server to backend: "), w')
unfolding write_server contains
write_server_conflict api c tx_id server backend_name w w' r answered no_err code =
    rw (answered, (handle_error_conflict r (server_pointer server) tt no_err code).0) refl
