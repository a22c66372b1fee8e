-- ===== src/Haproxy/Paths.antt =====
-- haproxy/haproxy.go: the paths under which the client asks for an object by its name.
use pod_proxier.Base.{◌≡◌, refl, ◌<◌, none, some, [], ◌∷◌, All}
use pod_proxier.GoString.{GoString, str}
use pod_proxier.GoString.Escape.{
  query_escape, path_unescape, spaced, IsSafe, path_unescape-query_escape, query_escape-IsSafe,
}
use pod_proxier.Haproxy.Types.{backend_path, frontend_path}
use pod_proxier.Haproxy.Api.{Api, get}
use pod_proxier.Haproxy.Handle.{HaproxyHandle, new_request, do_request}
use pod_proxier.Haproxy.Backends.{ensure_backend, ensure_frontend, get_backend, get_frontend}

-- A segment of a path that stands for the name: it decodes, as a path does, to the name with `+` in
-- the place of each space, and holds no byte that separates the parts of a URL.
abbrev pub Names : GoString → GoString → Type 0
Names name segment = (path_unescape segment ≡ some (spaced b'+' name)) × All IsSafe segment

-- The world after one read of a segment below a path.
abbrev pub read : (api : Api) → HaproxyHandle → GoString → GoString → api.World → api.World
unfolding new_request
read api h path segment w =
    (api.send (new_request api h get (path ∷ str "/" ∷ segment ∷ []) none) w).1

-- EnsureBackend and GetBackend, and EnsureFrontend and GetFrontend, each send one read, whose path
-- is that of the series, a slash and a segment that holds no byte that separates the parts of a URL
-- and decodes, in a path, to the name of the object with `+` in the place of each space: to the name
-- itself where it holds no space.
pub get_paths :
    (api : Api) (h : HaproxyHandle) (name : GoString) (w : api.World)
    → All (λ c. c < 256) name
    → (segment : GoString) × Names name segment
      × ((ensure_backend api h name w).1 ≡ read api h backend_path segment w)
      × ((get_backend api h name w).1 ≡ read api h backend_path segment w)
      × ((ensure_frontend api h name w).1 ≡ read api h frontend_path segment w)
      × ((get_frontend api h name w).1 ≡ read api h frontend_path segment w)
unfolding ensure_backend get_backend ensure_frontend get_frontend do_request
get_paths api h name w bytes = (
  query_escape name,
  (path_unescape-query_escape name bytes, query_escape-IsSafe name),
  refl,
  refl,
  refl,
  refl,
)
