-- ===== src/Pod/Proxy.antt =====
-- controller/pod_controller.go, changeProxy, DefaultMapping, createProxy and the start of Run.
use pod_proxier.Base.{
  Bool, true, false, not, ◌&&◌, none, some, List, [], ◌∷◌, if◌then◌else◌, ◌++◌, is_some,
}
use pod_proxier.Base.Int.{pos}
use pod_proxier.Base.Action.{Action, pure, ◌>>=◌}
use pod_proxier.GoString.{GoString, str}
use pod_proxier.GoString.Number.{format_int}
use pod_proxier.Haproxy.Types.{Backend, Frontend, Bind, Server, empty_server}
use pod_proxier.Haproxy.Response.{GoError, already_exists}
use pod_proxier.Haproxy.Handle.{cat}
use pod_proxier.Haproxy.Backends.{add_backend, add_frontend}
use pod_proxier.Haproxy.Servers.{
  get_servers, replace_server_from_backend, add_server_to_backend, add_bind,
}
use pod_proxier.Pod.State.{
  Controller, PodCluster, ServerInfo, backend_prefix, frontend_prefix, bind_prefix, app_name_prefix,
}

abbrev pub new_server : ServerInfo → Server
new_server s = record empty_server {
  name = s.server_name;
  address = s.pod_addr;
  check = str "enabled";
}

abbrev pub tcp_backend : Backend
tcp_backend = record {
  name = backend_prefix;
  mode = str "tcp";
  check_timeout = some (pos 15);
  stats_options = none;
}

abbrev pub tcp_frontend : Frontend
tcp_frontend = record { name = frontend_prefix; default_backend = backend_prefix; mode = str "tcp" }

abbrev pub tcp_bind : Controller → Bind
tcp_bind c = record {
  name = bind_prefix;
  port = some c.default_mapping_port;
  address = c.controller_addr;
}

-- encounterError == nil || !strings.Contains(encounterError.Error(), "already exists")
abbrev pub nil_or_other : GoError → Bool
nil_or_other none = true
nil_or_other (some e) = not (already_exists e)

-- How the start of Run ends.
pub data Startup : Type 0 where
  running : Startup
  panicked : GoString → Startup

module _ (k : PodCluster) (c : Controller) where
  abbrev World : Type 0
  World = (k.api).World

  -- The loop over the servers: the results of the last round are those that are returned.
  unfoldable pub replace_each :
      Server → List Server → GoError × Bool → Action World (GoError × Bool)
  replace_each new [] last w = (last, w)
  replace_each new (v ∷ vs) last w =
      let (r, w') = replace_server_from_backend k.api c.handler v.name new backend_prefix [] w in
      replace_each new vs (r.1, r.0) w'

  unfoldable pub change_to : Server → List Server → Action World (GoError × Bool)
  change_to new [] w =
      let (r, w') = add_server_to_backend k.api c.handler new backend_prefix [] w in
      ((r.1, r.0), w')
  change_to new (v ∷ vs) w = replace_each new (v ∷ vs) (none, false) w

  unfoldable pub change_proxy : ServerInfo → Action World (GoError × Bool)
  change_proxy srv w =
      let (servers, w') = get_servers k.api c.handler backend_prefix w in
      change_to (new_server srv) servers w'

  abbrev pub default_server : ServerInfo
  default_server = record {
    server_name = app_name_prefix ++ str "pod-proxier";
    pod_addr = cat (str "127.0.0.1" ∷ str ":" ∷ format_int c.controller_port ∷ []);
  }

  unfoldable pub default_mapping : Action World GoError
  default_mapping = do r ← change_proxy default_server; pure r.0

  -- After AddBind.
  unfoldable pub after_bind : Bool × GoError → Action World (GoError × Bool)
  after_bind (b, some e) = pure (some e, b)
  after_bind (b, none) = do e ← default_mapping; pure (e, b)

  -- After AddFrontend.
  unfoldable pub after_frontend : Bool × GoError → Action World (GoError × Bool)
  after_frontend (b, e) =
      if nil_or_other e
      then (do r ← add_bind k.api c.handler (tcp_bind c) frontend_prefix []; after_bind r)
      else pure (e, b)

  -- After AddBackend: the outer test, and the inner test for nil.
  unfoldable pub after_backend : Bool × GoError → Action World (GoError × Bool)
  after_backend (b, e) =
      if nil_or_other e && not (is_some e)
      then (do r ← add_frontend k.api c.handler tcp_frontend []; after_frontend r)
      else pure (e, b)

  unfoldable pub create_proxy : Action World (GoError × Bool)
  create_proxy = do r ← add_backend k.api c.handler tcp_backend []; after_backend r

  abbrev startup : GoError → Startup
  startup none = running
  startup (some e) = if already_exists e then running else panicked e

  -- The part of Run after the cache has synced: initHaproxy, and the panic on its error.
  unfoldable pub start_up : Action World Startup
  start_up = do r ← create_proxy; pure (startup r.0)
