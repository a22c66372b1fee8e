-- ===== src/Tests/Stored.antt =====
-- V1 with an API that keeps one server, and its theorem at a concrete input.
use pod_proxier.Base.{
  ℕ, zero, suc, ◌≡◌, ◌≢◌, refl, ap, true, Option, none, some, List, [], ◌∷◌, ◌++◌, if◌then◌else◌,
  length, arith,
}
use pod_proxier.Base.Int.{pos}
use pod_proxier.Haproxy.Plane.{accepts}
use pod_proxier.GoString.{GoString, str, ◌==◌}
use pod_proxier.Haproxy.Types.{Server, empty_server}
use pod_proxier.Haproxy.Response.{Response, handle_error}
use pod_proxier.Haproxy.Api.{Api, Codec, Method, get, post, put, delete, get_field}
use pod_proxier.Haproxy.Handle.{
  new_request, get_version, get_version_or_tx_id, do_request, send_body,
}
use pod_proxier.Haproxy.Servers.{get_servers, add_server_to_backend}
use pod_proxier.Pod.State.{PodCluster, Pod, found}
use pod_proxier.Pod.Mapping.{pod_server, create_mapping, map_found, schedule}
use pod_proxier.Pod.Proxy.{change_proxy, change_to}
use pod_proxier.Pod.Target.{ServerStore, Target, targets, target}
use pod_proxier.Pod.Single.{IsAnswering}
use pod_proxier.Server.V1.{ProxyMapping, bound, unbound, create}
use pod_proxier.Server.Answer.{answer}
use pod_proxier.Server.Mapped.{requested, create-servers}
use pod_proxier.Tests.Fixtures.{codec, handle}
use pod_proxier.Tests.Pods.{pod, controller}

-- A body is the length of the name, the name and the address.
abbrev written : Target → GoString
written v = length v.0 ∷ (v.0 ++ v.1)

-- The first elements of a list, and the rest.
abbrev cut : ℕ → GoString → Target
cut zero l = ([], l)
cut (suc n) [] = ([], [])
cut (suc n) (x ∷ l) = let (a, b) = cut n l in (x ∷ a, b)

cut-length : (a b : GoString) → cut (length a) (a ++ b) ≡ (a, b)
cut-length [] b = refl
cut-length (x ∷ a) b = ap (λ (p : Target). (x ∷ p.0, p.1)) (cut-length a b)

abbrev read_server : GoString → Option Target
read_server [] = none
read_server (n ∷ l) = some (cut n l)

read_server-written : (v : Target) → read_server (written v) ≡ some v
read_server-written (a, b) = ap some (cut-length a b)

abbrev kept : Option Target → GoString
kept none = []
kept (some v) = written v

abbrev held : Option Target → List Target
held none = []
held (some v) = v ∷ []

abbrev as_servers : Option Target → List Server
as_servers none = []
as_servers (some v) = record empty_server { name = v.0; address = v.1 } ∷ []

abbrev plain_codec : Codec
plain_codec = record codec {
  marshal_server = λ s. (written (target s), none);
  unmarshal_raw = λ body. ((str "data", body) ∷ [], none);
  unmarshal_servers = λ body. (as_servers (read_server body), none);
}

abbrev answered : ℕ → GoString → Response
answered code body = record { err = none; code = code; body = body }

abbrev body_of : Option GoString → GoString
body_of none = []
body_of (some body) = body

-- A server is taken while there is none.
abbrev take : Option Target → GoString → Response × Option Target
take none body = (answered 201 [], read_server body)
take (some v) body = (answered 409 [], some v)

abbrev serve : Method → Option GoString → Option Target → Response × Option Target
serve get body w = (answered 200 (kept w), w)
serve post body w = take w (body_of body)
serve put body w = (answered 404 [], w)
serve delete body w = (answered 404 [], w)

abbrev api : Api
api = record { World = Option Target; send = λ r w. serve r.method r.body w; codec = plain_codec }

abbrev pods : PodCluster
pods = record {
  api = api;
  get_by_key = λ key w. (found pod, w);
  add_after = λ event delay w. (tt, w);
  async_get = λ w. (true, w);
}

targets-as_servers : (w : Option Target) → targets (as_servers (read_server (kept w))) ≡ held w
targets-as_servers none = refl
targets-as_servers (some v) = ap (λ o. targets (as_servers o)) (read_server-written v)

take-code : (w : Option Target) (body : GoString) → (take w body).0.code ≢ 0
take-code none body h = omega arith
take-code (some v) body h = omega arith

serve-code : (m : Method) (body : Option GoString) (w : Option Target) → (serve m body w).0.code ≢ 0
serve-code get body w h = omega arith
serve-code post body w h = take-code w (body_of body) h
serve-code put body w h = omega arith
serve-code delete body w h = omega arith

take-written :
    (v : Target) (w : Option Target)
    → held (take w (written v)).1
      ≡ (if accepts post (take w (written v)).0 then v ∷ held w else held w)
take-written v none = ap held (read_server-written v)
take-written v (some u) = refl

abbrev store : ServerStore api handle
unfolding ◌==◌ get_field new_request
store = record {
  servers = λ b w. held w;
  encodes = λ s. refl;
  has_code = λ r w quiet. serve-code r.method r.body w;
  reads = λ r w b reading. ap (λ m. held (serve m r.body w).1) reading;
  lists = λ b w quiet. targets-as_servers w;
  adds = λ s b version w. take-written (target s) w;
  replaces = λ old s b version w. refl;
}

abbrev outside : IsAnswering pods controller store
unfolding ◌==◌ get_field new_request
outside = record { caches = λ key w. refl; schedules = λ event t w. refl; answers = λ w. refl }

abbrev asked : ProxyMapping
asked = record { pod_name = str "default/app-0"; time = pos 60 }

create-servers_example :
    (p : Pod) × (found pod ≡ found p)
    × (held (create pods controller (bound asked) none).1
        ≡ ((pod_server controller p).server_name, (pod_server controller p).pod_addr) ∷ [])
unfolding create create_mapping map_found schedule change_proxy get_servers change_to
    add_server_to_backend get_version_or_tx_id get_version do_request send_body handle_error ◌==◌
    get_field new_request answer
create-servers_example =
    create-servers pods controller store outside (requested (unbound (str "EOF")) ∷ []) asked none
      (omega arith) refl
