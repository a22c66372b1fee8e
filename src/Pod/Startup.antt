-- ===== src/Pod/Startup.antt =====
-- How the V1 controller starts: what a conflict does, which errors are lost, and what a start
-- without an error has done.
use pod_proxier.Base.{
  ◌≡◌, refl, Bool, false, none, some, List, [], ◌∷◌, ◌++◌, arith, Bool-cases, inl, inr,
}
use pod_proxier.GoString.{GoString, contains}
use pod_proxier.Haproxy.Types.{Server}
use pod_proxier.Haproxy.Response.{GoError, Response, handle_error, backend_pointer, already_exists}
use pod_proxier.Haproxy.Errors.{handle_error_conflict}
use pod_proxier.Haproxy.Backends.{add_backend, add_frontend}
use pod_proxier.Haproxy.Servers.{add_bind, replace_server_from_backend}
use pod_proxier.Pod.State.{Controller, PodCluster, frontend_prefix, backend_prefix}
use pod_proxier.Pod.Proxy.{
  tcp_backend, tcp_frontend, tcp_bind, create_proxy, after_backend, after_frontend, after_bind,
  start_up, panicked, default_mapping, replace_each,
}

module _ (k : PodCluster) (c : Controller) where
  -- If the backend exists already and the API says so with a 409, the controller panics: its error
  -- has an empty text, which the test for "already exists" does not find.
  pub start_up_conflict :
      (r : Response) (w w' : (k.api).World)
      → add_backend k.api c.handler tcp_backend [] w
        ≡ (handle_error r (backend_pointer tcp_backend), w')
      → r.err ≡ none
      → r.code ≡ 409
      → start_up k c w ≡ (panicked [], w')
  unfolding start_up create_proxy after_backend contains
  start_up_conflict r w w' answered no_err code =
      rw (answered, (handle_error_conflict r (backend_pointer tcp_backend) tt no_err code).0) refl

  -- An error of AddFrontend that is not an "already exists" is lost: the start goes on, and ends,
  -- as if there had been none.
  after_frontend_error :
      (b : Bool) (e : GoString) (w : (k.api).World)
      → already_exists e ≡ false
      → after_frontend k c (b, some e) w ≡ after_frontend k c (b, none) w
  unfolding after_frontend
  after_frontend_error b e w h = rw h

  after_bind_nil :
      (r : Bool × GoError) (w : (k.api).World)
      → (after_bind k c r w).0.0 ≡ none
      → (r.1 ≡ none)
        × ((default_mapping k c w).0 ≡ none)
        × ((after_bind k c r w).1 ≡ (default_mapping k c w).1)
  unfolding after_bind
  after_bind_nil (b, none) w h = (refl, h, refl)
  after_bind_nil (b, some e) w h = cc

  after_frontend_nil :
      (r : Bool × GoError) (w : (k.api).World)
      → (after_frontend k c r w).0.0 ≡ none
      → let (bind_result, w') = add_bind k.api c.handler (tcp_bind c) frontend_prefix [] w in
        (bind_result.1 ≡ none)
        × ((default_mapping k c w').0 ≡ none)
        × ((after_frontend k c r w).1 ≡ (default_mapping k c w').1)
  unfolding after_frontend
  after_frontend_nil (b, none) w h = after_bind_nil _ _ h
  after_frontend_nil (b, some e) w h = elim (Bool-cases (already_exists e)) [
    | inl old ↦ absurd (never (rw (old, after_frontend) at h))
    | inr other ↦
        rw (after_frontend_error b e w other)
          (after_bind_nil _ _ (rw (after_frontend_error b e w other) at h))
  ]
    where
      never : ◌≡◌ {A = GoError} (some e) none → ⊥
      never h = cc

  after_backend_nil :
      (r : Bool × GoError) (w : (k.api).World)
      → (after_backend k c r w).0.0 ≡ none
      → let (_, w1) = add_frontend k.api c.handler tcp_frontend [] w in
        let (bind_result, w2) = add_bind k.api c.handler (tcp_bind c) frontend_prefix [] w1 in
        (r.1 ≡ none)
        × (bind_result.1 ≡ none)
        × ((default_mapping k c w2).0 ≡ none)
        × ((after_backend k c r w).1 ≡ (default_mapping k c w2).1)
  unfolding after_backend
  after_backend_nil (b, none) w h = let (x, y, z) = after_frontend_nil _ _ h in (refl, x, y, z)
  after_backend_nil (b, some e) w h = absurd (ground arith)

  -- A start without an error has created the backend and the bind and set the default mapping.
  pub create_proxy_nil :
      (w : (k.api).World)
      → (create_proxy k c w).0.0 ≡ none
      → let (backend_result, w1) = add_backend k.api c.handler tcp_backend [] w in
        let (_, w2) = add_frontend k.api c.handler tcp_frontend [] w1 in
        let (bind_result, w3) = add_bind k.api c.handler (tcp_bind c) frontend_prefix [] w2 in
        (backend_result.1 ≡ none)
        × (bind_result.1 ≡ none)
        × ((default_mapping k c w3).0 ≡ none)
        × ((create_proxy k c w).1 ≡ (default_mapping k c w3).1)
  unfolding create_proxy
  create_proxy_nil w h = after_backend_nil _ _ h

  -- Of several servers in the backend the result of the last replacement alone is returned.
  replace_each_last :
      (new : Server) (vs : List Server) (v : Server) (last : GoError × Bool) (w : (k.api).World)
      → let w' = (replace_each k c new vs last w).1 in
        let (r, w'') =
          replace_server_from_backend k.api c.handler v.name new backend_prefix [] w' in
        replace_each k c new (vs ++ v ∷ []) last w ≡ ((r.1, r.0), w'')
  unfolding replace_each
  replace_each_last new [] v last w = refl
  replace_each_last new (u ∷ vs) v last w = replace_each_last new vs v _ _
