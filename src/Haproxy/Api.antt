-- ===== src/Haproxy/Api.antt =====
-- What package haproxy takes from outside the repository: the HTTP client (gorest) with the Data
-- Plane API behind it, and the JSON codec (json-iterator).
use pod_proxier.Base.{Option, List, [], ◌∷◌, if◌then◌else◌}
use pod_proxier.Base.Action.{Action}
use pod_proxier.GoString.{GoString, ◌==◌}
use pod_proxier.Haproxy.Types.{Backend, Frontend, Bind, Server}
use pod_proxier.Haproxy.Response.{GoError, Response}

pub data Method : Type 0 where
  get post put delete : Method

-- What newRequest, Path, Body and the verb put together before Do sends it.
pub record Request : Type 0 where
  pub user : GoString
  pub password : GoString
  pub host : GoString
  pub content_type : GoString
  pub method : Method
  pub path : GoString
  pub body : Option GoString

-- A value of map[string]interface{}: a string, or a value of another type.
pub data Value : Type 0 where
  string : GoString → Value
  other : Value

-- A Go map as decoded from an object; the first entry of a key counts.
unfoldable pub get_field {ℓ} : {A : Type ℓ} → A → GoString → List (GoString × A) → A
get_field zero_value k [] = zero_value
get_field zero_value k ((j, v) ∷ m) = if j == k then v else get_field zero_value k m

-- json.Marshal returns a body and an error. json.Unmarshal stores what it could decode, and
-- returns an error.
pub record Codec : Type 0 where
  pub marshal_backend : Backend → GoString × GoError
  pub marshal_frontend : Frontend → GoString × GoError
  pub marshal_bind : Bind → GoString × GoError
  pub marshal_server : Server → GoString × GoError
  pub unmarshal_raw : GoString → List (GoString × GoString) × GoError
  pub unmarshal_object : GoString → List (GoString × Value) × GoError
  pub unmarshal_bind_lists : GoString → List (GoString × List Bind) × GoError
  pub unmarshal_backend : GoString → Backend × GoError
  pub unmarshal_backends : GoString → List Backend × GoError
  pub unmarshal_frontend : GoString → Frontend × GoError
  pub unmarshal_frontends : GoString → List Frontend × GoError
  pub unmarshal_bind : GoString → Bind × GoError
  pub unmarshal_server : GoString → Server × GoError
  pub unmarshal_servers : GoString → List Server × GoError

-- `World` is the state of all that lies outside the process.
pub record Api : Type 1 where
  pub World : Type 0
  pub send : Request → Action World Response
  pub codec : Codec
