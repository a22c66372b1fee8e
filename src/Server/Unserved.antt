-- ===== src/Server/Unserved.antt =====
-- /api/v1/mapping in a process without the V1 controller.
use pod_proxier.Base.{
  ◌≡◌, refl, ◌∙◌, ap, sym, subst, ◌⊎◌, inl, inr, Bool, true, false, Option, none, List, [], ◌∷◌,
  if◌then◌else◌,
}
use pod_proxier.GoString.{GoString, str}
use pod_proxier.Haproxy.Response.{GoError}
use pod_proxier.Kube.{KubeClient, Launch, launched, crashed}
use pod_proxier.Pod.State.{Controller, PodCluster}
use pod_proxier.Service.State.{ServiceController}
use pod_proxier.Server.Options.{PodProxier}
use pod_proxier.Server.V1.{bound, ProxyMapping}
use pod_proxier.Server.Router.{
  Gin, Route, Verb, get, post, dropped, registered_router, register_port_api, query_pod_exists_of,
  create_mapping_of, serve_query, serve_create, serve_route,
}
use pod_proxier.Server.Started.{serve-process}
use pod_proxier.Server.Process.{
  Process, State, keep_v2, start_v2, continue_v2, registered, run_controllers, run,
}

-- The path of a mapping under the groups of the API.
abbrev pub mapping_path : (GoString → GoString → GoString) → GoString
mapping_path join =
    join (join (join (join (str "/") (str "/api")) (str "/v1")) (str "/")) (str "/mapping")

-- The route is one of the list.
abbrev IsAmong : Route → List Route → Type 0
IsAmong r [] = ⊥
IsAmong r (q ∷ qs) = (r ≡ q) ⊎ IsAmong r qs

-- The engine has a route for the verb and the path, and a request to it whose query and whose body
-- can be bound gets no answer and does nothing.
abbrev pub IsDropped : Verb → GoString → Process → Type 1
IsDropped verb path p =
    (r : Route) × IsAmong r p.engine
    × (r.verb ≡ verb)
    × (r.path ≡ path)
    × ((k : PodCluster) (figure : GoString → GoString) (name : GoString) (m : ProxyMapping)
          (w : (k.api).World)
        → serve_route k figure p.controller_interface r.handler (bound name) (bound m) w
          ≡ (dropped, w))

abbrev pub IsUnserved : (GoString → GoString → GoString) → Process → Type 1
IsUnserved join p = IsDropped get (mapping_path join) p × IsDropped post (mapping_path join) p

-- What the V2 controller's start leaves alone.
abbrev v1_part : Process → Option Controller × List Route
v1_part p = (p.controller_interface, p.engine)

routes-IsUnserved :
    (join : GoString → GoString → GoString) (p : Process)
    → v1_part p ≡ (none, registered_router join)
    → IsUnserved join p
unfolding registered_router register_port_api serve_route serve_query serve_create
    query_pod_exists_of create_mapping_of
routes-IsUnserved join p same = (
  (_, among (inr (inr (inl refl))), refl, refl, λ k figure name m w. rw no_controller refl),
  (_, among (inr (inr (inr (inl refl)))), refl, refl, λ k figure name m w. rw no_controller refl),
)
  where
    no_controller : p.controller_interface ≡ none
    no_controller = ap (λ q. q.0) same

    among : {r : Route} → IsAmong r (registered_router join) → IsAmong r p.engine
    among {r} = subst (IsAmong r) (sym (ap (λ q. q.1) same))

module _ (k : KubeClient) (gin : Gin k.World) where
  keep_v2-keeps :
      (p : Process) (r : Launch ServiceController × k.World)
      → v1_part (keep_v2 k gin p r).1.0 ≡ v1_part p
  keep_v2-keeps p (crashed e, w) = refl
  keep_v2-keeps p (launched c, w) = refl

  started-keeps :
      (o : PodProxier) (b : Bool) (p : Process) (w : k.World)
      → v1_part (if b then start_v2 k gin o (p, w) else (none, (p, w))).1.0 ≡ v1_part p
  unfolding start_v2
  started-keeps o true p w = keep_v2-keeps p _
  started-keeps o false p w = refl

  only_v2 :
      (o : PodProxier) (b : Bool) (r : GoError × State k gin) (p : Process) (w : k.World)
      → b ≡ false
      → v1_part (continue_v2 k gin o (if b then r else (none, (p, w)))).1.0 ≡ v1_part p
  unfolding continue_v2
  only_v2 o true r p w off = absurd (true_≢_false off)
    where
      true_≢_false : true ≡ false → ⊥
      true_≢_false h = cc
  only_v2 o false r p w off = ap v1_part (serve-process k gin o _) ∙ started-keeps o o.enable_v2 p w

  -- Where V1 is not enabled and its controller is nil, the engine that Run serves has the routes GET and POST of the mappings
  -- all the same, and a request to one of them that can be bound gets no answer and does nothing: its
  -- handler panics on the nil controller.
  pub run-IsUnserved :
      (o : PodProxier) (s : State k gin)
      → o.enable_v1 ≡ false
      → s.0.controller_interface ≡ none
      → IsUnserved gin.join (run k gin o s).1.0
  unfolding run run_controllers
  run-IsUnserved o (p, w) off empty = routes-IsUnserved gin.join (run k gin o (p, w)).1.0 (
      only_v2 o o.enable_v1 _ (registered k gin p) w off
      ∙ ap (λ c. (c, registered_router gin.join)) empty)
