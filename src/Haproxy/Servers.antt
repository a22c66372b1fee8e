-- ===== src/Haproxy/Servers.antt =====
-- haproxy/haproxy.go, the server and bind series.
use pod_proxier.Base.{Bool, true, false, ltb, none, some, List, [], ◌∷◌, if◌then◌else◌, length}
use pod_proxier.Base.Action.{Action, pure, ◌>>=◌}
use pod_proxier.GoString.{GoString, str}
use pod_proxier.GoString.Number.{format_int}
use pod_proxier.GoString.Escape.{query_escape}
use pod_proxier.Haproxy.Types.{server_path, bind_path, Server, Bind, empty_server, empty_bind}
use pod_proxier.Haproxy.Response.{
  GoError, Response, handle_error, text, server_pointer, bind_pointer,
}
use pod_proxier.Haproxy.Api.{Api, Codec, get, post, put, delete, get_field}
use pod_proxier.Haproxy.Backends.{decode_data}
use pod_proxier.Haproxy.Handle.{
  HaproxyHandle, cat, do_request, get_version, get_version_or_tx_id, send_body,
}

abbrev pub of_backend : GoString → GoString
of_backend name = cat (str "?parent_type=backend&parent_name=" ∷ query_escape name ∷ [])

abbrev pub of_frontend : GoString → GoString
of_frontend name = cat (str "?parent_type=frontend&frontend=" ∷ query_escape name ∷ [])

-- GetServers, unlike the others, returns what was decoded before a failure.
abbrev pub servers_of : Codec → Response → List Server
servers_of c resp = elim resp.err [
  | some _ ↦ []
  | none ↦
      let (raw, raw_error) = c.unmarshal_raw resp.body in
      elim raw_error [
        | some _ ↦ []
        | none ↦ (c.unmarshal_servers (get_field [] (str "data") raw)).0
      ]
]

module _ (api : Api) (h : HaproxyHandle) where
  unfoldable pub ensure_server : GoString → GoString → Action api.World Bool
  ensure_server server_name backend_name = do
    v ← get_version api h
    resp ←
        do_request api h get
          (server_path
            ∷ str "/"
            ∷ query_escape server_name
            ∷ of_backend backend_name
            ∷ str "&version="
            ∷ format_int v
            ∷ [])
          none
    pure (handle_error resp (text (cat (backend_name ∷ str ":" ∷ server_name ∷ [])))).0

  unfoldable pub add_server_to_backend :
      Server → GoString → GoString → Action api.World (Bool × GoError)
  add_server_to_backend payload backend_name tx_id = do
    v ← get_version_or_tx_id api h tx_id
    send_body api h post (server_path ∷ of_backend backend_name ∷ str "&" ∷ v ∷ [])
        ((api.codec).marshal_server payload) (server_pointer payload)

  unfoldable pub delete_server_from_backend :
      GoString → GoString → GoString → Action api.World (Bool × GoError)
  delete_server_from_backend server_name backend_name tx_id = do
    v ← get_version_or_tx_id api h tx_id
    resp ←
        do_request api h delete
          (server_path
            ∷ str "/"
            ∷ query_escape server_name
            ∷ of_backend backend_name
            ∷ str "&"
            ∷ v
            ∷ [])
          none
    pure (handle_error resp (text server_name))

  unfoldable pub replace_server_from_backend :
      GoString → Server → GoString → GoString → Action api.World (Bool × GoError)
  replace_server_from_backend old_name new backend_name tx_id = do
    v ← get_version_or_tx_id api h tx_id
    send_body api h put
        (server_path ∷ str "/" ∷ query_escape old_name ∷ of_backend backend_name ∷ str "&" ∷ v ∷ [])
        ((api.codec).marshal_server new) (server_pointer new)

  unfoldable pub get_servers : GoString → Action api.World (List Server)
  unfolding get_field
  get_servers backend_name = do
    resp ← do_request api h get (server_path ∷ of_backend backend_name ∷ []) none
    pure (servers_of api.codec resp)

  -- The server's name goes into the path as it is.
  unfoldable pub get_server : GoString → GoString → Action api.World Server
  unfolding decode_data
  get_server backend_name srv_name = do
    resp ←
        do_request api h get (server_path ∷ str "/" ∷ srv_name ∷ of_backend backend_name ∷ []) none
    pure (decode_data api.codec (api.codec).unmarshal_server empty_server resp)

  unfoldable pub ensure_frontend_bind : GoString → GoString → Action api.World Bool
  unfolding get_field
  ensure_frontend_bind bind_name frontend_name = do
    resp ←
        do_request api h get
          (bind_path
            ∷ str "/"
            ∷ query_escape bind_name
            ∷ str "?parent_type=frontend&parent_name="
            ∷ query_escape frontend_name
            ∷ [])
          none
    pure (elim resp.err [
      | some _ ↦ false
      | none ↦
          let (bind_list, _) = (api.codec).unmarshal_bind_lists resp.body in
          if ltb 0 (length (get_field [] (str "data") bind_list)) then false else true
    ])

  unfoldable pub ensure_one_bind : GoString → GoString → Action api.World (Bool × GoError)
  ensure_one_bind bind_name frontend_name = do
    v ← get_version api h
    resp ←
        do_request api h get
          (bind_path
            ∷ str "/"
            ∷ query_escape bind_name
            ∷ of_frontend frontend_name
            ∷ str "&version="
            ∷ format_int v
            ∷ [])
          none
    pure (handle_error resp (text bind_name))

  unfoldable pub unbind_frontend : GoString → Action api.World (Bool × GoError)
  unbind_frontend bind_name = do
    v ← get_version api h
    resp ←
        do_request api h delete
          (bind_path
            ∷ str "?parent_type=frontend&parent_name="
            ∷ query_escape bind_name
            ∷ str "&version="
            ∷ format_int v
            ∷ [])
          none
    pure (handle_error resp (text bind_name))

  unfoldable pub get_bind : GoString → GoString → Action api.World Bind
  unfolding decode_data
  get_bind bind_name front_name = do
    resp ←
        do_request api h get
          (bind_path ∷ str "/" ∷ query_escape bind_name ∷ of_frontend front_name ∷ []) none
    pure (decode_data api.codec (api.codec).unmarshal_bind empty_bind resp)

  unfoldable pub add_bind : Bind → GoString → GoString → Action api.World (Bool × GoError)
  add_bind payload frontend_name tx_id = do
    v ← get_version_or_tx_id api h tx_id
    send_body api h post (bind_path ∷ of_frontend frontend_name ∷ str "&" ∷ v ∷ [])
        ((api.codec).marshal_bind payload) (bind_pointer payload)

  unfoldable pub delete_bind : GoString → GoString → GoString → Action api.World (Bool × GoError)
  delete_bind bind_name frontend_name tx_id = do
    v ← get_version_or_tx_id api h tx_id
    resp ←
        do_request api h delete
          (bind_path
            ∷ str "/"
            ∷ query_escape bind_name
            ∷ of_frontend frontend_name
            ∷ str "&"
            ∷ v
            ∷ [])
          none
    pure (handle_error resp (text bind_name))

  unfoldable pub replace_bind :
      GoString → GoString → Bind → GoString → Action api.World (Bool × GoError)
  replace_bind old_name frontend_name new tx_id = do
    v ← get_version_or_tx_id api h tx_id
    send_body api h put
        (bind_path ∷ str "/" ∷ query_escape old_name ∷ of_frontend frontend_name ∷ str "&" ∷ v ∷ [])
        ((api.codec).marshal_bind new) (bind_pointer new)
