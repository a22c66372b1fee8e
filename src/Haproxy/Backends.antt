-- ===== src/Haproxy/Backends.antt =====
-- haproxy/haproxy.go, the backend and frontend series.
use pod_proxier.Base.{Bool, none, some, List, [], ◌∷◌}
use pod_proxier.Base.Action.{Action, pure, ◌>>=◌}
use pod_proxier.GoString.{GoString, str}
use pod_proxier.GoString.Escape.{query_escape}
use pod_proxier.Haproxy.Types.{
  backend_path, frontend_path, Backend, Frontend, empty_backend, empty_frontend,
}
use pod_proxier.Haproxy.Response.{
  GoError, Response, handle_error, text, backend_pointer, frontend_pointer,
}
use pod_proxier.Haproxy.Api.{Api, Codec, get, post, put, delete, get_field}
use pod_proxier.Haproxy.Handle.{HaproxyHandle, do_request, get_version_or_tx_id, send_body}

-- The object under "data", or the fallback if the request or a decoding failed.
unfoldable pub decode_data {ℓ} : {A : Type ℓ} → Codec → (GoString → A × GoError) → A → Response → A
unfolding get_field
decode_data c unmarshal fallback resp = elim resp.err [
  | some _ ↦ fallback
  | none ↦
      let (raw, raw_error) = c.unmarshal_raw resp.body in
      elim raw_error [
        | some _ ↦ fallback
        | none ↦
            let (value, value_error) = unmarshal (get_field [] (str "data") raw) in
            elim value_error [ some _ ↦ fallback | none ↦ value ]
      ]
]

module _ (api : Api) (h : HaproxyHandle) where
  unfoldable pub ensure_backend : GoString → Action api.World Bool
  ensure_backend name = do
    resp ← do_request api h get (backend_path ∷ str "/" ∷ query_escape name ∷ []) none
    pure (handle_error resp (text name)).0

  unfoldable pub ensure_frontend : GoString → Action api.World Bool
  ensure_frontend name = do
    resp ← do_request api h get (frontend_path ∷ str "/" ∷ query_escape name ∷ []) none
    pure (handle_error resp (text name)).0

  unfoldable pub add_backend : Backend → GoString → Action api.World (Bool × GoError)
  add_backend payload tx_id = do
    v ← get_version_or_tx_id api h tx_id
    send_body api h post (backend_path ∷ str "?" ∷ v ∷ []) ((api.codec).marshal_backend payload)
        (backend_pointer payload)

  unfoldable pub get_backend : GoString → Action api.World Backend
  unfolding decode_data
  get_backend name = do
    resp ← do_request api h get (backend_path ∷ str "/" ∷ query_escape name ∷ []) none
    pure (decode_data api.codec (api.codec).unmarshal_backend empty_backend resp)

  unfoldable pub get_backends : Action api.World (List Backend)
  unfolding decode_data
  get_backends = do
    resp ← do_request api h get (backend_path ∷ []) none
    pure (decode_data api.codec (api.codec).unmarshal_backends [] resp)

  unfoldable pub delete_backend : GoString → GoString → Action api.World Bool
  delete_backend name tx_id = do
    v ← get_version_or_tx_id api h tx_id
    resp ←
        do_request api h delete (backend_path ∷ str "/" ∷ query_escape name ∷ str "?" ∷ v ∷ []) none
    pure (handle_error resp (text name)).0

  unfoldable pub replace_backend : GoString → Backend → GoString → Action api.World (Bool × GoError)
  replace_backend old_name new tx_id = do
    v ← get_version_or_tx_id api h tx_id
    send_body api h put (backend_path ∷ str "/" ∷ query_escape old_name ∷ str "?" ∷ v ∷ [])
        ((api.codec).marshal_backend new) (backend_pointer new)

  unfoldable pub delete_frontend : GoString → GoString → Action api.World Bool
  delete_frontend name tx_id = do
    v ← get_version_or_tx_id api h tx_id
    resp ←
        do_request api h delete (frontend_path ∷ str "/" ∷ query_escape name ∷ str "?" ∷ v ∷ [])
          none
    pure (handle_error resp (text name)).0

  unfoldable pub add_frontend : Frontend → GoString → Action api.World (Bool × GoError)
  add_frontend payload tx_id = do
    v ← get_version_or_tx_id api h tx_id
    send_body api h post (frontend_path ∷ str "?" ∷ v ∷ []) ((api.codec).marshal_frontend payload)
        (frontend_pointer payload)

  unfoldable pub get_frontend : GoString → Action api.World Frontend
  unfolding decode_data
  get_frontend name = do
    resp ← do_request api h get (frontend_path ∷ str "/" ∷ query_escape name ∷ []) none
    pure (decode_data api.codec (api.codec).unmarshal_frontend empty_frontend resp)

  unfoldable pub get_frontends : Action api.World (List Frontend)
  unfolding decode_data
  get_frontends = do
    resp ← do_request api h get (frontend_path ∷ []) none
    pure (decode_data api.codec (api.codec).unmarshal_frontends [] resp)

  unfoldable pub replace_frontend :
      GoString → Frontend → GoString → Action api.World (Bool × GoError)
  replace_frontend old_name new tx_id = do
    v ← get_version_or_tx_id api h tx_id
    send_body api h put (frontend_path ∷ str "/" ∷ query_escape old_name ∷ str "?" ∷ v ∷ [])
        ((api.codec).marshal_frontend new) (frontend_pointer new)
