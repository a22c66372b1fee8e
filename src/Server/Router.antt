-- ===== src/Server/Router.antt =====
-- server/router.go and v1.go: the routes, and the handlers of /api/v1/mapping with the package's
-- controller, which is nil where V1 is not enabled.
use pod_proxier.Base.{Bool, Option, none, some, List, [], ◌∷◌}
use pod_proxier.Base.Action.{Action}
use pod_proxier.GoString.{GoString, str}
use pod_proxier.Pod.State.{Controller, PodCluster}
use pod_proxier.Base.Int.{ℤ}
use pod_proxier.Haproxy.Response.{GoError}
use pod_proxier.Pod.Mapping.{query_pod_exists, create_mapping}
use pod_proxier.Server.Answer.{Answer}
use pod_proxier.Server.V1.{
  Bound, bound, unbound, ProxyMapping, ping, limit_time, refusal, found_answer, create_answer,
}

pub data Verb : Type 0 where
  get post : Verb

pub data Handler : Type 0 where
  ping_handler versions_handler query_handler create_handler : Handler

pub record Route : Type 0 where
  pub verb : Verb
  pub path : GoString
  pub handler : Handler

-- What a client gets: an answer, a plain text, or nothing, when the handler panics.
pub data Reply : Type 0 where
  answered : Answer → Reply
  plain : GoString → Reply
  dropped : Reply

-- What Run takes from gin: `join` puts the path of a group and a relative path together, and `run`
-- serves the routes on an address until it ends.
pub record Gin (World : Type 0) : Type 0 where
  pub join : GoString → GoString → GoString
  pub run : List Route → GoString → Action World GoError

-- `join` is how gin puts the path of a group and a relative path together.
module _ (join : GoString → GoString → GoString) where
  abbrev route : Verb → GoString → GoString → Handler → Route
  route verb group path handler = record { verb = verb; path = join group path; handler = handler }

  -- RegisterPortAPI, in the given group.
  unfoldable pub register_port_api : GoString → List Route
  register_port_api group =
      let port_group = join group (str "/") in
      route get port_group (str "/mapping") query_handler
      ∷ route post port_group (str "/mapping") create_handler
      ∷ []

  unfoldable pub registered_router : List Route
  registered_router =
      let v1_api = join (str "/") (str "/api") in
      route get (str "/") (str "health") ping_handler
      ∷ route get (str "/") (str "/") versions_handler
      ∷ register_port_api (join v1_api (str "/v1"))

-- `figure` is the banner that go-figure draws of a text.
unfoldable pub versions : (GoString → GoString) → Reply
versions figure = plain (figure (str "BPT's Pod Proxier"))

module _ (k : PodCluster) where
  abbrev World : Type 0
  World = (k.api).World

  -- A call of a method on the controller's pointer. QueryPodExists and CreateMapping read a field of
  -- the controller first, which panics where the pointer is nil; a panic is `none`.
  abbrev called :
      {A : Type 0} → Option Controller → (Controller → Action World A) → Action World (Option A)
  called none method w = (none, w)
  called (some c) method w = let (a, w') = method c w in (some a, w')

  unfoldable pub query_pod_exists_of : Option Controller → GoString → Action World (Option Bool)
  query_pod_exists_of c name = called c (λ c. query_pod_exists k c name)

  unfoldable pub create_mapping_of :
      Option Controller → GoString → ℤ → Action World (Option GoError)
  create_mapping_of c name delay_time = called c (λ c. create_mapping k c name delay_time)

  -- What the handler goes on to answer, unless the call has panicked: gin.New installs no recovery.
  abbrev reply_to : {A : Type 0} → (A → Answer) → Option A → Reply
  reply_to f none = dropped
  reply_to f (some a) = answered (f a)

  unfoldable pub serve_query : Option Controller → Bound GoString → Action World Reply
  serve_query c (unbound e) w = (answered (refusal e), w)
  serve_query c (bound name) w =
      let (b, w') = query_pod_exists_of c name w in (reply_to (found_answer name) b, w')

  unfoldable pub serve_create : Option Controller → Bound ProxyMapping → Action World Reply
  serve_create c (unbound e) w = (answered (refusal e), w)
  serve_create c (bound m) w =
      let (e, w') = create_mapping_of c m.pod_name (limit_time m.time) w in
      (reply_to create_answer e, w')

  -- A request to a route, with what gin binds of it for a query and for a creation.
  unfoldable pub serve_route :
      (GoString → GoString)
      → Option Controller
      → Handler
      → Bound GoString
      → Bound ProxyMapping
      → Action World Reply
  serve_route figure c ping_handler q m w = (answered ping, w)
  serve_route figure c versions_handler q m w = (versions figure, w)
  serve_route figure c query_handler q m w = serve_query c q w
  serve_route figure c create_handler q m w = serve_create c m w
