-- ===== src/Haproxy/Handle.antt =====
-- haproxy/haproxy.go: HaproxyHandle, its requests, the configuration version and transactions. The
-- mutex `mu` is no field: each exported write holds it from the version query to the answer, which
-- here is one action.
use pod_proxier.Base.{
  ◌++◌, ◌==◌ as nat_eq, Bool, false, not, ◌&&◌, Option, none, some, List, [], ◌∷◌, if◌then◌else◌,
}
use pod_proxier.Base.Int.{ℤ, negsuc}
use pod_proxier.Base.Action.{Action, pure, ◌>>=◌}
use pod_proxier.GoString.{GoString, str, ◌==◌}
use pod_proxier.GoString.Number.{format_int, atoi, trim_space}
use pod_proxier.Haproxy.Types.{version_path, transaction_path}
use pod_proxier.Haproxy.Response.{GoError, Response, Resource, handle_error}
use pod_proxier.Haproxy.Api.{
  Api, Request, Method, get, post, put, delete, Value, string, other, get_field,
}

pub record HaproxyHandle : Type 0 where
  pub local_addr : GoString
  pub host : GoString
  pub user : GoString
  pub password : GoString

unfoldable pub new_haproxy_handle : GoString → GoString → GoString → HaproxyHandle
new_haproxy_handle user password host = record {
  local_addr = str "127.0.0.1:5555";
  host = host;
  user = user;
  password = password;
}

-- The pieces of a Sprintf, one after the other.
abbrev pub cat : List GoString → GoString
cat [] = []
cat (s ∷ []) = s
cat (s ∷ t ∷ ss) = s ++ cat (t ∷ ss)

-- How StartTransaction ends: with an id, with an error, or in a panic of `data["id"].(string)`.
pub data Started : Type 0 where
  started : GoString → Started
  failed : GoString → Started
  panicked : Started

abbrev started_id : Value → Started
started_id (string id) = started id
started_id other = panicked

abbrev error_or : GoError → GoError → GoError
error_or (some e) other_error = some e
error_or none other_error = other_error

module _ (api : Api) (h : HaproxyHandle) where
  -- newRequest, with the verb, the path (in the pieces of its Sprintf) and the body that are set
  -- before Do.
  unfoldable pub new_request : Method → List GoString → Option GoString → Request
  new_request method path body = record {
    user = h.user;
    password = h.password;
    host = h.host;
    content_type = str "application/json";
    method = method;
    path = cat path;
    body = body;
  }

  unfoldable pub do_request : Method → List GoString → Option GoString → Action api.World Response
  unfolding new_request
  do_request method path body = api.send (new_request method path body)

  unfoldable pub get_version : Action api.World ℤ
  get_version = do
    resp ← do_request get (version_path ∷ []) none
    pure (elim resp.err [ some _ ↦ negsuc 0 | none ↦ atoi (trim_space resp.body) ])

  unfoldable pub get_version_or_tx_id : GoString → Action api.World GoString
  get_version_or_tx_id tx_id =
      if not (tx_id == [])
      then pure (cat (str "transaction_id=" ∷ tx_id ∷ []))
      else do v ← get_version; pure (cat (str "version=" ∷ format_int v ∷ []))

  -- The end of each write with a payload: nothing is sent if the payload cannot be encoded.
  unfoldable pub send_body :
      Method → List GoString → GoString × GoError → Resource → Action api.World (Bool × GoError)
  send_body method url (body, some e) res = pure (false, some e)
  send_body method url (body, none) res = do
    resp ← do_request method url (some body)
    pure (handle_error resp res)

  abbrev id_of : List (GoString × Value) × GoError → Started
  id_of (object, some e) = failed e
  id_of (object, none) = started_id (get_field other (str "id") object)

  abbrev pub start_of : Response → Started
  start_of resp = elim resp.err [
    | some e ↦ failed e
    | none ↦
        if nat_eq resp.code 201
        then id_of ((api.codec).unmarshal_object resp.body)
        else failed (str "failed to start transaction: " ++ resp.body)
  ]

  unfoldable pub start_transaction : Action api.World Started
  start_transaction = do
    v ← get_version
    resp ← do_request post (transaction_path ∷ str "?version=" ∷ format_int v ∷ []) none
    pure (start_of resp)

  unfoldable pub commit_transaction : GoString → Action api.World GoError
  commit_transaction id = do
    resp ← do_request put (transaction_path ∷ str "/" ∷ id ∷ []) none
    pure (
        error_or resp.err (
          if not (nat_eq resp.code 202) && not (nat_eq resp.code 200)
          then some (str "failed to commit transaction: " ++ resp.body)
          else none))

  unfoldable pub discard_transaction : GoString → Action api.World GoError
  discard_transaction id = do
    resp ← do_request delete (transaction_path ∷ str "/" ∷ id ∷ []) none
    pure (
        error_or resp.err (
          if not (nat_eq resp.code 204) && not (nat_eq resp.code 404)
          then some (str "failed to discard transaction: " ++ resp.body)
          else none))
