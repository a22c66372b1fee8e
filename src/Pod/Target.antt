-- ===== src/Pod/Target.antt =====
-- changeProxy in pod_controller.go, as a Data Plane API that keeps servers sees it: what the one
-- backend of V1 holds after it.
use pod_proxier.Base.{
  suc, ◌≤◌, ◌≡◌, ◌≢◌, refl, ap, ◌∙◌, sym, subst, Bool, true, false, not, none, some, List, [], ◌∷◌,
  ◌++◌, if◌then◌else◌, is_some, length, arith,
}
use pod_proxier.GoString.{GoString, str, ◌==◌, eq_iff}
use pod_proxier.GoString.Escape.{query_escape}
use pod_proxier.GoString.Number.{format_int}
use pod_proxier.Haproxy.Types.{Server, server_path}
use pod_proxier.Haproxy.Response.{GoError, Resource, handle_error, server_pointer}
use pod_proxier.Haproxy.Api.{Api, Request, Method, get, post, put, delete}
use pod_proxier.Haproxy.Handle.{
  HaproxyHandle, new_request, do_request, get_version, get_version_or_tx_id, send_body,
}
use pod_proxier.Haproxy.Plane.{accepts}
use pod_proxier.Haproxy.Servers.{
  of_backend, servers_of, get_servers, add_server_to_backend, replace_server_from_backend,
}
use pod_proxier.Haproxy.Writes.{accepts-handle_error}
use pod_proxier.Pod.State.{Controller, PodCluster, ServerInfo, backend_prefix}
use pod_proxier.Pod.Proxy.{new_server, replace_each, change_to, change_proxy}

-- A server by its name and its address.
abbrev pub Target : Type 0
Target = GoString × GoString

abbrev pub target : Server → Target
target s = (s.name, s.address)

abbrev pub targets : List Server → List Target
targets [] = []
targets (v ∷ vs) = target v ∷ targets vs

-- A server under the old name becomes the new one.
abbrev pub renamed : GoString → Target → List Target → List Target
renamed old new [] = []
renamed old new (v ∷ vs) = if v.0 == old then new ∷ renamed old new vs else v ∷ renamed old new vs

module _ (api : Api) (h : HaproxyHandle) where
  abbrev pub listing : GoString → Request
  listing b = new_request api h get (server_path ∷ of_backend b ∷ []) none

  abbrev pub adding : Server → GoString → GoString → Request
  adding s b query =
      new_request api h post (server_path ∷ of_backend b ∷ str "&" ∷ query ∷ [])
        (some ((api.codec).marshal_server s).0)

  abbrev pub replacing : GoString → Server → GoString → GoString → Request
  replacing old s b query =
      new_request api h put
        (server_path ∷ str "/" ∷ query_escape old ∷ of_backend b ∷ str "&" ∷ query ∷ [])
        (some ((api.codec).marshal_server s).0)

  -- The servers of a backend: a read changes none, the list holds them, and an addition or a
  -- replacement under a version is made if it is accepted.
  pub record ServerStore : Type 0 where
    pub servers : GoString → api.World → List Target
    pub encodes : (s : Server) → ((api.codec).marshal_server s).1 ≡ none
    pub has_code :
        (r : Request) (w : api.World) → (api.send r w).0.err ≡ none → (api.send r w).0.code ≢ 0
    pub reads :
        (r : Request) (w : api.World) (b : GoString)
        → r.method ≡ get
        → servers b (api.send r w).1 ≡ servers b w
    pub lists :
        (b : GoString) (w : api.World)
        → (api.send (listing b) w).0.err ≡ none
        → targets (servers_of api.codec (api.send (listing b) w).0) ≡ servers b w
    pub adds :
        (s : Server) (b version : GoString) (w : api.World)
        → let (answer, w') = api.send (adding s b (str "version=" ++ version)) w in
          servers b w' ≡ (if accepts post answer then target s ∷ servers b w else servers b w)
    pub replaces :
        (old : GoString) (s : Server) (b version : GoString) (w : api.World)
        → let (answer, w') = api.send (replacing old s b (str "version=" ++ version)) w in
          servers b w'
          ≡ (if accepts put answer then renamed old (target s) (servers b w) else servers b w)

module _ (api : Api) (h : HaproxyHandle) (store : ServerStore api h) where
  accepted :
      (m : Method) (r : Request) (w : api.World) (s : Server)
      → m ≢ get
      → m ≢ delete
      → (handle_error (api.send r w).0 (server_pointer s)).1 ≡ none
      → accepts m (api.send r w).0 ≡ true
  accepted m r w s other stays quiet =
      accepts-handle_error m (api.send r w).0 (server_pointer s) other stays (store.has_code r w)
      ∙ ap (λ e. not (is_some e)) quiet

  -- A payload that can be encoded is sent.
  sent_body :
      (m : Method) (path : List GoString) (p : GoString × GoError) (res : Resource) (w : api.World)
      → p.1 ≡ none
      → send_body api h m path p res w ≡ (
        handle_error (api.send (new_request api h m path (some p.0)) w).0 res,
        (api.send (new_request api h m path (some p.0)) w).1,
      )
  unfolding send_body do_request
  sent_body m path (body, none) res w encoded = refl
  sent_body m path (body, some e) res w encoded = cc

  -- An addition and a replacement without an error, under the version that is asked for first.
  add_server-servers :
      (s : Server) (b : GoString) (w : api.World)
      → (add_server_to_backend api h s b [] w).0.1 ≡ none
      → store.servers b (add_server_to_backend api h s b [] w).1 ≡ target s ∷ store.servers b w
  unfolding add_server_to_backend get_version_or_tx_id get_version do_request ◌==◌
  add_server-servers s b w quiet =
      let version = format_int (get_version api h w).0 in
      let v = (get_version api h w).1 in
      subst (λ r. r.0.1 ≡ none → store.servers b r.1 ≡ target s ∷ store.servers b w)
        (sym
          (sent_body post _ ((api.codec).marshal_server s) (server_pointer s) v (store.encodes s)))
        (λ nil.
          store.adds s b version v
          ∙ ap (λ x. if x then target s ∷ store.servers b v else store.servers b v)
              (accepted post _ v s (λ e. cc) (λ e. cc) nil)
          ∙ ap (λ l. target s ∷ l) (store.reads _ w b refl))
        quiet

  replace_server-servers :
      (old : GoString) (s : Server) (b : GoString) (w : api.World)
      → (replace_server_from_backend api h old s b [] w).0.1 ≡ none
      → store.servers b (replace_server_from_backend api h old s b [] w).1
        ≡ renamed old (target s) (store.servers b w)
  unfolding replace_server_from_backend get_version_or_tx_id get_version do_request ◌==◌
  replace_server-servers old s b w quiet =
      let version = format_int (get_version api h w).0 in
      let v = (get_version api h w).1 in
      subst (λ r. r.0.1 ≡ none → store.servers b r.1 ≡ renamed old (target s) (store.servers b w))
        (sym
          (sent_body put _ ((api.codec).marshal_server s) (server_pointer s) v (store.encodes s)))
        (λ nil.
          store.replaces old s b version v
          ∙ ap (λ x. if x then renamed old (target s) (store.servers b v) else store.servers b v)
              (accepted put _ v s (λ e. cc) (λ e. cc) nil)
          ∙ ap (renamed old (target s)) (store.reads _ w b refl))
        quiet

  -- An addition and a replacement, whatever their result.
  pub add_server-few :
      (s : Server) (b : GoString) (w : api.World)
      → store.servers b w ≡ []
      → length (store.servers b (add_server_to_backend api h s b [] w).1) ≤ 1
  unfolding add_server_to_backend get_version_or_tx_id get_version do_request ◌==◌
  add_server-few s b w empty =
      let version = format_int (get_version api h w).0 in
      let v = (get_version api h w).1 in
      let kept = store.reads _ w b refl ∙ empty in
      subst (λ r. length (store.servers b r.1) ≤ 1)
        (sym
          (sent_body post _ ((api.codec).marshal_server s) (server_pointer s) v (store.encodes s)))
        (subst (λ l. length l ≤ 1) (sym (store.adds s b version v))
          (one_more (accepts post (api.send (adding api h s b (str "version=" ++ version)) v).0)
            (target s) (store.servers b v) kept))
    where
      one_more :
          (x : Bool) (t : Target) (l : List Target) → l ≡ [] → length (if x then t ∷ l else l) ≤ 1
      one_more true t l kept = rw kept (omega arith)
      one_more false t l kept = rw kept (omega arith)

  pub replace_server-few :
      (old : GoString) (s : Server) (b : GoString) (w : api.World)
      → length (store.servers b (replace_server_from_backend api h old s b [] w).1)
        ≡ length (store.servers b w)
  unfolding replace_server_from_backend get_version_or_tx_id get_version do_request ◌==◌
  replace_server-few old s b w =
      let version = format_int (get_version api h w).0 in
      let v = (get_version api h w).1 in
      ap (λ r. length (store.servers b r.1))
        (sent_body put _ ((api.codec).marshal_server s) (server_pointer s) v (store.encodes s))
      ∙ ap length (store.replaces old s b version v)
      ∙ as_many (accepts put (api.send (replacing api h old s b (str "version=" ++ version)) v).0)
          (target s) (store.servers b v)
      ∙ ap length (store.reads _ w b refl)
    where
      length-renamed : (t : Target) (l : List Target) → length (renamed old t l) ≡ length l
      length-renamed t [] = refl
      length-renamed t (x ∷ l) = ground (arith, length-renamed t l)

      as_many :
          (x : Bool) (t : Target) (l : List Target)
          → length (if x then renamed old t l else l) ≡ length l
      as_many true t l = length-renamed t l
      as_many false t l = refl

  pub get_servers-servers :
      (b : GoString) (w : api.World)
      → (api.send (listing api h b) w).0.err ≡ none
      → (targets (get_servers api h b w).0 ≡ store.servers b w)
        × (store.servers b (get_servers api h b w).1 ≡ store.servers b w)
  unfolding get_servers do_request
  get_servers-servers b w quiet = (store.lists b w quiet, store.reads _ w b refl)

module _ (k : PodCluster) (c : Controller) (store : ServerStore k.api c.handler) where
  -- With no server or one, the change leaves the new one alone.
  change_to-servers :
      (new : Server) (vs : List Server) (w : (k.api).World)
      → length (store.servers backend_prefix w) ≤ 1
      → targets vs ≡ store.servers backend_prefix w
      → (change_to k c new vs w).0.0 ≡ none
      → store.servers backend_prefix (change_to k c new vs w).1 ≡ target new ∷ []
  unfolding change_to replace_each
  change_to-servers new [] w few held quiet =
      add_server-servers k.api c.handler store new backend_prefix w quiet
      ∙ ap (λ l. target new ∷ l) (sym held)
  change_to-servers new (v ∷ []) w few held quiet =
      replace_server-servers k.api c.handler store v.name new backend_prefix w quiet
      ∙ ap (renamed v.name (target new)) (sym held)
      ∙ ap (λ b. if b then target new ∷ [] else target v ∷ []) ((eq_iff v.name v.name).1 refl)
  change_to-servers new (u ∷ v ∷ vs) w few held quiet =
      absurd (too_many (targets vs) (subst (λ l. length l ≤ 1) (sym held) few))
    where
      too_many : (l : List Target) → ¬ (suc (suc (length l)) ≤ 1)
      too_many l h = omega arith

  -- Where the backend of V1 holds one server at most and the API answers the list: changeProxy
  -- without an error leaves the one server that it is given.
  pub change_proxy-servers :
      (srv : ServerInfo) (w : (k.api).World)
      → length (store.servers backend_prefix w) ≤ 1
      → ((k.api).send (listing k.api c.handler backend_prefix) w).0.err ≡ none
      → (change_proxy k c srv w).0.0 ≡ none
      → store.servers backend_prefix (change_proxy k c srv w).1
        ≡ (srv.server_name, srv.pod_addr) ∷ []
  unfolding change_proxy
  change_proxy-servers srv w few answered quiet =
      let (listed, kept) = get_servers-servers k.api c.handler store backend_prefix w answered in
      change_to-servers (new_server srv) _ _ (subst (λ l. length l ≤ 1) (sym kept) few)
        (listed ∙ sym kept) quiet
