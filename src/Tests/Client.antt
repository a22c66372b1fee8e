-- ===== src/Tests/Client.antt =====
-- Answers of the Data Plane API, and the theorems of the client at a concrete input.
use pod_proxier.GoString.{GoString}
use pod_proxier.Haproxy.Types.{backend_path, frontend_path}
use pod_proxier.Haproxy.Backends.{ensure_backend, ensure_frontend, get_backend, get_frontend}
use pod_proxier.Haproxy.Paths.{Names, read, get_paths}
use pod_proxier.Base.{arith}
use pod_proxier.Base.Int.{pos}
use pod_proxier.Haproxy.Version.{get_version_or_tx_id_answered}
use pod_proxier.Haproxy.Handle.{do_request, get_version_or_tx_id}
use pod_proxier.GoString.Number.{format_int, itoa, digits}
use pod_proxier.Tests.Fixtures.{api_with, idle}
use pod_proxier.Base.{◌≡◌, refl, true, false, not, ◌&&◌, ◌||◌, some, [], ◌∷◌, is_some}
use pod_proxier.GoString.{str, ◌==◌, trim, trim_left, has_byte}
use pod_proxier.GoString.Format.{errorf}
use pod_proxier.Haproxy.Types.{Backend, empty_backend}
use pod_proxier.Haproxy.Response.{
  handle_error, text, backend, backend_pointer, already_exists, logs,
}
use pod_proxier.Haproxy.Errors.{
  handle_error_outcome, handle_error_conflict, no_error, one_of, clean, tolerated,
}
use pod_proxier.Haproxy.Services.{services_of, backend_named}
use pod_proxier.Haproxy.Probe.{join_host_port}
use pod_proxier.Tests.Fixtures.{status, handle}

abbrev svc_backend : Backend
svc_backend = record empty_backend { name = str "SVC_BACKEND_default.web:8849" }

-- Passed by value, a conflict would have the text that the callers look for.
handle_error-backend :
    handle_error (status 409) (backend (record empty_backend { name = str "B" }))
    ≡ (true, some (str "The specified resource B already exists."))
unfolding handle_error logs errorf
handle_error-backend = refl

-- A deletion that succeeds with 204 reports an error.
handle_error-deleted :
    handle_error (status 204) (text (str "B")) ≡ (true, some (str "The resource B deleted."))
unfolding handle_error logs errorf
handle_error-deleted = refl

handle_error_outcome_example :
    ((handle_error (status 204) (text (str "B"))).0
      ≡ (no_error (status 204) && (one_of clean 204 || one_of tolerated 204)))
    × (is_some (handle_error (status 204) (text (str "B"))).1
        ≡ not (no_error (status 204) && one_of clean 204))
handle_error_outcome_example = handle_error_outcome (status 204) (text (str "B"))

handle_error_conflict_example :
    (handle_error (status 409) (backend_pointer svc_backend) ≡ (true, some []))
    × (already_exists [] ≡ false)
handle_error_conflict_example =
    handle_error_conflict (status 409) (backend_pointer svc_backend) tt refl refl

-- strings.Trim takes a set of bytes: of a name that is made of them nothing is left.
services_of-trimmed :
    services_of [] (record { name = str "FRONTEND.REDO"; default_backend = []; mode = [] } ∷ [])
    ≡ record {
      name = [];
      backend = empty_backend;
      frontend = record { name = str "FRONTEND.REDO"; default_backend = []; mode = [] };
    }
      ∷ []
unfolding services_of backend_named trim trim_left has_byte ◌==◌
services_of-trimmed = refl

-- The host of a handle has a port already, so the address has two.
join_host_port-twice : join_host_port handle.local_addr (str "80") ≡ str "[127.0.0.1:5555]:80"
unfolding join_host_port has_byte
join_host_port-twice = refl

get_version_or_tx_id_answered_example :
    get_version_or_tx_id (api_with 201) handle [] idle ≡ (str "version=7", idle)
unfolding do_request format_int itoa digits ◌==◌
get_version_or_tx_id_answered_example =
    get_version_or_tx_id_answered (api_with 201) handle (pos 7) (status 200) idle idle refl refl
      refl (omega arith) (omega arith)

get_paths_example :
    (segment : GoString) × Names (str "web:80") segment
    × ((ensure_backend (api_with 201) handle (str "web:80") idle).1
        ≡ read (api_with 201) handle backend_path segment idle)
    × ((get_backend (api_with 201) handle (str "web:80") idle).1
        ≡ read (api_with 201) handle backend_path segment idle)
    × ((ensure_frontend (api_with 201) handle (str "web:80") idle).1
        ≡ read (api_with 201) handle frontend_path segment idle)
    × ((get_frontend (api_with 201) handle (str "web:80") idle).1
        ≡ read (api_with 201) handle frontend_path segment idle)
get_paths_example = get_paths (api_with 201) handle (str "web:80") idle (ground arith)
