-- ===== src/Haproxy/Response.antt =====
-- haproxy/haproxy.go, handleError: from an HTTP response to a result and an error.
use pod_proxier.Base.{ℕ, ◌++◌, Bool, true, false, ◌==◌ as nat_eq, if◌then◌else◌, Option, none, some}
use pod_proxier.GoString.{GoString, str, contains}
use pod_proxier.GoString.Format.{errorf}
use pod_proxier.Haproxy.Types.{Backend, Frontend, Bind, Server}

-- Go's `error`: nil, or the text of its Error method.
abbrev pub GoError : Type 0
GoError = Option GoString

-- restclient.Response
pub record Response : Type 0 where
  pub err : GoError
  pub code : ℕ
  pub body : GoString

-- The dynamic type and value of the argument `res interface{}`. A pointer to a model is a type of
-- its own, which the type switch of handleError does not name.
pub data Resource : Type 0 where
  text : GoString → Resource
  bind : Bind → Resource
  frontend : Frontend → Resource
  backend : Backend → Resource
  server : Server → Resource
  bind_pointer : Bind → Resource
  frontend_pointer : Frontend → Resource
  backend_pointer : Backend → Resource
  server_pointer : Server → Resource

pub record Logs : Type 0 where
  pub log200 : GoString
  pub log201 : GoString
  pub log202 : GoString
  pub log204 : GoString
  pub log400 : GoString
  pub log404 : GoString
  pub log409 : GoString

abbrev pub no_logs : Logs
no_logs = record {
  log200 = str "";
  log201 = str "";
  log202 = str "";
  log204 = str "";
  log400 = str "";
  log404 = str "";
  log409 = str "";
}

abbrev succeeded : GoString → GoString
succeeded n = str "The resource " ++ (n ++ str " Successful operation.")

abbrev accepted : GoString → GoString
accepted n = str "The resource " ++ (n ++ str " Configuration change accepted.")

abbrev created : GoString → GoString
created n = str "The resource " ++ (n ++ str " created")

abbrev exists_already : GoString → GoString
exists_already n = str "The specified resource " ++ (n ++ str " already exists.")

abbrev model_logs : GoString → GoString → GoString → Logs
model_logs n bad missing = record {
  log200 = succeeded n;
  log201 = created n;
  log202 = accepted n;
  log204 = str "";
  log400 = bad;
  log404 = missing;
  log409 = exists_already n;
}

-- The type switch. `Sprintf("Bad request bind: %s", "bind", name)` reports its spare argument.
unfoldable pub logs : Resource → Logs
logs (text n) = record no_logs {
  log200 = succeeded n;
  log202 = accepted n;
  log204 = str "The resource " ++ (n ++ str " deleted.");
  log404 = str "The specified resource " ++ (n ++ str " was not found");
}
logs (bind b) =
    model_logs b.name (str "Bad request bind: bind%!(EXTRA string=" ++ (b.name ++ str ")"))
      (str "The specified resource " ++ (b.name ++ str " was not found "))
logs (frontend f) =
    model_logs f.name (str "Bad request frontend: " ++ f.name)
      (str "The specified resource was not found " ++ f.name)
logs (backend b) =
    model_logs b.name (str "Bad request backend: " ++ b.name)
      (str "The specified resource was not found " ++ b.name)
logs (server s) =
    record (model_logs s.name (str "Bad request server: " ++ s.name)
      (str "The specified resource was not found " ++ s.name)) {
        log200 = accepted s.name;
        log202 = succeeded s.name;
      }
logs _ = no_logs

-- The switch on the status code.
abbrev pub by_code : Logs → ℕ → GoString → Bool × GoError
by_code l code body =
    if nat_eq code 0
    then (true, none)
    else if nat_eq code 200
    then (true, none)
    else if nat_eq code 201
    then (true, none)
    else if nat_eq code 202
    then (true, none)
    else if nat_eq code 204
    then (true, some (errorf l.log204))
    else if nat_eq code 400
    then (false, some (errorf l.log400))
    else if nat_eq code 404
    then (false, some (errorf l.log404))
    else if nat_eq code 409
    then (true, some (errorf l.log409))
    else (false, some (str "Unkown error, " ++ body))

unfoldable pub handle_error : Response → Resource → Bool × GoError
handle_error r res = elim r.err [
  | none ↦ by_code (logs res) r.code r.body
  | some e ↦ (false, some e)
]

-- strings.Contains(err.Error(), "already exists")
abbrev pub already_exists : GoString → Bool
already_exists e = contains e (str "already exists")
