-- ===== src/Haproxy/Services.antt =====
-- haproxy/haproxy.go, GetServices: frontends joined with their default backends.
use pod_proxier.Base.{List, [], ◌∷◌, if◌then◌else◌, length, ◌==◌ as nat_eq, ◌||◌}
use pod_proxier.Base.Action.{Action, pure, ◌>>=◌}
use pod_proxier.GoString.{GoString, str, ◌==◌, trim}
use pod_proxier.Haproxy.Types.{Backend, Frontend, Service, empty_backend}
use pod_proxier.Haproxy.Api.{Api}
use pod_proxier.Haproxy.Handle.{HaproxyHandle}
use pod_proxier.Haproxy.Backends.{get_backends, get_frontends}

-- `bs[name]`, where the map was filled from the list: the last backend of the name, or the zero
-- value.
unfoldable pub backend_named : GoString → Backend → List Backend → Backend
backend_named name found [] = found
backend_named name found (b ∷ bs) = backend_named name (if b.name == name then b else found) bs

abbrev pub service_of : List Backend → Frontend → Service
service_of backends f = record {
  name = trim f.name (str "FRONTEND.");
  backend = backend_named f.default_backend empty_backend backends;
  frontend = f;
}

unfoldable pub services_of : List Backend → List Frontend → List Service
services_of backends [] = []
services_of backends (f ∷ fs) =
    let rest = services_of backends fs in
    if f.name == str "stats" then rest else service_of backends f ∷ rest

unfoldable pub get_services : (api : Api) → HaproxyHandle → Action api.World (List Service)
get_services api h = do
  backends ← get_backends api h
  frontends ← get_frontends api h
  pure (
      if nat_eq (length frontends) 0 || nat_eq (length backends) 0
      then []
      else services_of backends frontends)
