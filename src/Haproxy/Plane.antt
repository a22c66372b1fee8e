-- ===== src/Haproxy/Plane.antt =====
-- What the Data Plane API promises its clients (haproxy/haproxy.go is one): which writes a
-- transaction and the running configuration hold. The API itself is outside the repository.
use pod_proxier.Base.{
  ℕ, ◌≡◌, ◌≢◌, ◌⊎◌, inl, inr, refl, Bool, false, ◌&&◌, none, some, List, [], ◌∷◌, ◌++◌,
  if◌then◌else◌,
}
use pod_proxier.GoString.{GoString, str}
use pod_proxier.Haproxy.Types.{Backend, Frontend, Bind, Server, transaction_path}
use pod_proxier.Haproxy.Response.{Response, already_exists}
use pod_proxier.Haproxy.Api.{Api, Request, Method, get, post, put, delete}
use pod_proxier.Haproxy.Handle.{HaproxyHandle, new_request, start_of, started}
use pod_proxier.Haproxy.Errors.{no_error, one_of}
use pod_proxier.Haproxy.Scope.{Ends}

abbrev pub tagged : GoString → GoString
tagged tx_id = str "transaction_id=" ++ tx_id

-- The codes of the answers to a write that has been made.
abbrev pub accepting : Method → List ℕ
accepting get = 200 ∷ []
accepting post = 200 ∷ 201 ∷ 202 ∷ []
accepting put = 200 ∷ 201 ∷ 202 ∷ []
accepting delete = 200 ∷ 202 ∷ 204 ∷ []

abbrev pub accepts : Method → Response → Bool
accepts m r = no_error r && one_of (accepting m) r.code

-- 200 and 202 are the answers to a commit that has been made.
abbrev pub commits : Response → Bool
commits r = no_error r && one_of (200 ∷ 202 ∷ []) r.code

-- A method is that of a read or not.
pub get_or_not : (m : Method) → (m ≡ get) ⊎ (m ≢ get)
get_or_not get = inl refl
get_or_not post = inr (λ h. cc)
get_or_not put = inr (λ h. cc)
get_or_not delete = inr (λ h. cc)

module _ (api : Api) where
  abbrev pub opening : HaproxyHandle → GoString → Request
  opening h version =
      new_request api h post (transaction_path ∷ str "?version=" ∷ version ∷ []) none

  abbrev pub committing : HaproxyHandle → GoString → Request
  committing h tx_id = new_request api h put (transaction_path ∷ str "/" ∷ tx_id ∷ []) none

  abbrev pub discarding : HaproxyHandle → GoString → Request
  discarding h tx_id = new_request api h delete (transaction_path ∷ str "/" ∷ tx_id ∷ []) none

  -- The accepted writes that have gone into the running configuration, and those that wait in a
  -- transaction, the latest first. Both are logs, in which a deletion is a write as well. A read
  -- changes nothing. A transaction that is opened has an id and is empty. A write in a transaction
  -- waits there if it is accepted, and leaves the running configuration alone. A commit that is
  -- accepted moves the waiting writes into the running configuration, all at once; nothing else in a
  -- transaction does.
  pub record DataPlane : Type 0 where
    pub live : api.World → List Request
    pub pending : GoString → api.World → List Request
    pub reads :
        (r : Request) (w : api.World)
        → r.method ≡ get
        → (live (api.send r w).1 ≡ live w)
          × ((tx_id : GoString) → pending tx_id (api.send r w).1 ≡ pending tx_id w)
    pub writes :
        (tx_id : GoString) (r : Request) (w : api.World)
        → tx_id ≢ []
        → r.method ≢ get
        → Ends (tagged tx_id) r.path
        → (live (api.send r w).1 ≡ live w)
          × (pending tx_id (api.send r w).1 ≡ (
              if accepts r.method (api.send r w).0 then r ∷ pending tx_id w else pending tx_id w))
    pub opens :
        (h : HaproxyHandle) (version : GoString) (w : api.World)
        → (live (api.send (opening h version) w).1 ≡ live w)
          × ((tx_id : GoString)
              → start_of api h (api.send (opening h version) w).0 ≡ started tx_id
              → (tx_id ≢ []) × (pending tx_id (api.send (opening h version) w).1 ≡ []))
    pub closes :
        (h : HaproxyHandle) (tx_id : GoString) (w : api.World)
        → live (api.send (committing h tx_id) w).1 ≡ (
            if commits (api.send (committing h tx_id) w).0
            then pending tx_id w ++ live w
            else live w)
    pub discards :
        (h : HaproxyHandle) (tx_id : GoString) (w : api.World)
        → live (api.send (discarding h tx_id) w).1 ≡ live w

  -- A response has a status code unless there is a transport error, only a conflict says that
  -- something exists already, and the payloads can be encoded.
  pub record IsPlain : Type 0 where
    pub has_code :
        (r : Request) (w : api.World) → (api.send r w).0.err ≡ none → (api.send r w).0.code ≢ 0
    pub no_error_text :
        (r : Request) (w : api.World) (e : GoString)
        → (api.send r w).0.err ≡ some e
        → already_exists e ≡ false
    pub no_body_text :
        (r : Request) (w : api.World)
        → (api.send r w).0.code ≢ 409
        → already_exists (api.send r w).0.body ≡ false
    pub backends : (b : Backend) → ((api.codec).marshal_backend b).1 ≡ none
    pub frontends : (f : Frontend) → ((api.codec).marshal_frontend f).1 ≡ none
    pub binds : (b : Bind) → ((api.codec).marshal_bind b).1 ≡ none
    pub servers : (s : Server) → ((api.codec).marshal_server s).1 ≡ none
