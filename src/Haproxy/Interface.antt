-- ===== src/Haproxy/Interface.antt =====
-- haproxy/interface.go: HaproxyInterface, and HaproxyHandle as one. `Addr` of the API is behind the
-- World that every method acts on.
use pod_proxier.Base.{Bool, List}
use pod_proxier.Base.Int.{ℤ}
use pod_proxier.Base.Action.{Action}
use pod_proxier.GoString.{GoString}
use pod_proxier.Haproxy.Types.{Backend, Frontend, Bind, Server}
use pod_proxier.Haproxy.Response.{GoError}
use pod_proxier.Haproxy.Api.{Api}
use pod_proxier.Haproxy.Handle.{
  HaproxyHandle, Started, get_version, start_transaction, commit_transaction, discard_transaction,
}
use pod_proxier.Haproxy.Backends.{
  ensure_backend, ensure_frontend, add_backend, replace_backend, delete_backend, add_frontend,
  replace_frontend, delete_frontend,
}
use pod_proxier.Haproxy.Servers.{
  add_server_to_backend, replace_server_from_backend, delete_server_from_backend, get_server,
  get_servers, add_bind, ensure_frontend_bind, unbind_frontend,
}
use pod_proxier.Haproxy.Probe.{Dialed, Availability, check_port_is_available, ensure_haproxy}

pub record HaproxyInterface (World : Type 0) : Type 0 where
  pub ensure_haproxy : Bool
  pub ensure_frontend_bind : GoString → GoString → Action World Bool
  pub ensure_backend : GoString → Action World Bool
  pub ensure_frontend : GoString → Action World Bool
  pub unbind_frontend : GoString → Action World (Bool × GoError)
  pub delete_backend : GoString → GoString → Action World Bool
  pub delete_frontend : GoString → GoString → Action World Bool
  pub delete_server_from_backend : GoString → GoString → GoString → Action World (Bool × GoError)
  pub check_port_is_available : GoString → ℤ → Availability
  pub get_version : Action World ℤ
  pub get_server : GoString → GoString → Action World Server
  pub get_servers : GoString → Action World (List Server)
  pub add_frontend : Frontend → GoString → Action World (Bool × GoError)
  pub add_bind : Bind → GoString → GoString → Action World (Bool × GoError)
  pub add_backend : Backend → GoString → Action World (Bool × GoError)
  pub add_server_to_backend : Server → GoString → GoString → Action World (Bool × GoError)
  pub replace_backend : GoString → Backend → GoString → Action World (Bool × GoError)
  pub replace_frontend : GoString → Frontend → GoString → Action World (Bool × GoError)
  pub replace_server_from_backend :
      GoString → Server → GoString → GoString → Action World (Bool × GoError)
  pub start_transaction : Action World Started
  pub commit_transaction : GoString → Action World GoError
  pub discard_transaction : GoString → Action World GoError

-- The handle's methods. `dial` is net.Dial.
abbrev pub haproxy_interface :
    (api : Api) → (GoString → GoString → Dialed) → HaproxyHandle → HaproxyInterface api.World
haproxy_interface api dial h = record {
  ensure_haproxy = ensure_haproxy h;
  ensure_frontend_bind = ensure_frontend_bind api h;
  ensure_backend = ensure_backend api h;
  ensure_frontend = ensure_frontend api h;
  unbind_frontend = unbind_frontend api h;
  delete_backend = delete_backend api h;
  delete_frontend = delete_frontend api h;
  delete_server_from_backend = delete_server_from_backend api h;
  check_port_is_available = check_port_is_available dial h;
  get_version = get_version api h;
  get_server = get_server api h;
  get_servers = get_servers api h;
  add_frontend = add_frontend api h;
  add_bind = add_bind api h;
  add_backend = add_backend api h;
  add_server_to_backend = add_server_to_backend api h;
  replace_backend = replace_backend api h;
  replace_frontend = replace_frontend api h;
  replace_server_from_backend = replace_server_from_backend api h;
  start_transaction = start_transaction api h;
  commit_transaction = commit_transaction api h;
  discard_transaction = discard_transaction api h;
}
