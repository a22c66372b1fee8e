-- ===== src/Haproxy/Scope.antt =====
-- haproxy/haproxy.go: the requests of each operation, as reads and as writes under a query, and
-- properties of the outside world that such requests keep.
use mathlib.Core.List.{append_assoc}
use pod_proxier.Base.{
  ◌≡◌, refl, sym, ap, ◌∙◌, ◌⊎◌, inl, inr, Option, none, some, List, [], ◌∷◌, ◌++◌, Bool-cases,
}
use pod_proxier.GoString.{GoString, str, ◌==◌, eq_iff}
use pod_proxier.Haproxy.Types.{Backend, Frontend, Bind, Server}
use pod_proxier.Haproxy.Response.{GoError, Resource}
use pod_proxier.Haproxy.Api.{Api, Request, Method, get}
use pod_proxier.Haproxy.Handle.{
  HaproxyHandle, cat, do_request, get_version, get_version_or_tx_id, send_body,
}
use pod_proxier.Haproxy.Backends.{
  ensure_backend, ensure_frontend, add_backend, replace_backend, delete_backend, add_frontend,
  replace_frontend, delete_frontend,
}
use pod_proxier.Haproxy.Servers.{
  add_server_to_backend, replace_server_from_backend, add_bind, get_servers,
}

-- The text ends in the given one.
abbrev pub Ends : GoString → GoString → Type 0
Ends q s = (front : GoString) × (s ≡ front ++ q)

abbrev pub LastIs : GoString → List GoString → Type 0
LastIs q [] = ⊥
LastIs q (s ∷ []) = q ≡ s
LastIs q (s ∷ t ∷ ss) = LastIs q (t ∷ ss)

pub Ends-cat : (ss : List GoString) (q : GoString) → LastIs q ss → Ends q (cat ss)
Ends-cat [] q h = absurd h
Ends-cat (s ∷ []) q h = ([], sym h)
Ends-cat (s ∷ t ∷ ss) q h =
    let (front, e) = Ends-cat (t ∷ ss) q h in
    (s ++ front, ap (λ r. s ++ r) e ∙ sym (append_assoc s front q))

-- The query of a write in the transaction; with no transaction it is any.
abbrev pub IsQuery : GoString → GoString → Type 0
IsQuery tx_id q = (tx_id ≡ []) ⊎ (q ≡ str "transaction_id=" ++ tx_id)

-- A read, or a write whose path ends in such a query.
abbrev pub IsScoped : GoString → Request → Type 0
IsScoped tx_id r = (r.method ≡ get) ⊎ ((q : GoString) × IsQuery tx_id q × Ends q r.path)

module _ (api : Api) (h : HaproxyHandle) (tx_id : GoString) (P : api.World → Type 0)
    (keeps : (r : Request) (w : api.World) → IsScoped tx_id r → P w → P (api.send r w).1) where
  read-keeps : (path : List GoString) (w : api.World) → P w → P (do_request api h get path none w).1
  unfolding do_request
  read-keeps path w p = keeps _ w (inl refl) p

  write-keeps :
      (m : Method) (path : List GoString) (q : GoString) (body : Option GoString) (w : api.World)
      → IsQuery tx_id q
      → LastIs q path
      → P w
      → P (do_request api h m path body w).1
  unfolding do_request
  write-keeps m path q body w query last p = keeps _ w (inr (q, query, Ends-cat path q last)) p

  get_version-keeps : (w : api.World) → P w → P (get_version api h w).1
  unfolding get_version
  get_version-keeps w p = read-keeps _ w p

  get_version_or_tx_id-keeps :
      (w : api.World)
      → P w
      → P (get_version_or_tx_id api h tx_id w).1
        × IsQuery tx_id (get_version_or_tx_id api h tx_id w).0
  unfolding get_version_or_tx_id
  get_version_or_tx_id-keeps w p = elim (Bool-cases (tx_id == [])) [
    | inl e ↦ rw e (get_version-keeps w p, inl ((eq_iff tx_id []).0 e))
    | inr e ↦ rw e (p, inr refl)
  ]

  send_body-keeps :
      (m : Method) (path : List GoString) (q : GoString) (body : GoString × GoError)
      (res : Resource) (w : api.World)
      → IsQuery tx_id q
      → LastIs q path
      → P w
      → P (send_body api h m path body res w).1
  unfolding send_body
  send_body-keeps m path q (body, some e) res w query last p = p
  send_body-keeps m path q (body, none) res w query last p =
      write-keeps m path q (some body) w query last p

  pub ensure_backend-keeps :
      (name : GoString) (w : api.World) → P w → P (ensure_backend api h name w).1
  unfolding ensure_backend
  ensure_backend-keeps name w p = read-keeps _ w p

  pub ensure_frontend-keeps :
      (name : GoString) (w : api.World) → P w → P (ensure_frontend api h name w).1
  unfolding ensure_frontend
  ensure_frontend-keeps name w p = read-keeps _ w p

  pub get_servers-keeps : (name : GoString) (w : api.World) → P w → P (get_servers api h name w).1
  unfolding get_servers
  get_servers-keeps name w p = read-keeps _ w p

  pub add_backend-keeps : (b : Backend) (w : api.World) → P w → P (add_backend api h b tx_id w).1
  unfolding add_backend
  add_backend-keeps b w p =
      let (p', query) = get_version_or_tx_id-keeps w p in send_body-keeps _ _ _ _ _ _ query refl p'

  pub replace_backend-keeps :
      (old_name : GoString) (b : Backend) (w : api.World)
      → P w
      → P (replace_backend api h old_name b tx_id w).1
  unfolding replace_backend
  replace_backend-keeps old_name b w p =
      let (p', query) = get_version_or_tx_id-keeps w p in send_body-keeps _ _ _ _ _ _ query refl p'

  pub delete_backend-keeps :
      (name : GoString) (w : api.World) → P w → P (delete_backend api h name tx_id w).1
  unfolding delete_backend
  delete_backend-keeps name w p =
      let (p', query) = get_version_or_tx_id-keeps w p in write-keeps _ _ _ _ _ query refl p'

  pub add_frontend-keeps : (f : Frontend) (w : api.World) → P w → P (add_frontend api h f tx_id w).1
  unfolding add_frontend
  add_frontend-keeps f w p =
      let (p', query) = get_version_or_tx_id-keeps w p in send_body-keeps _ _ _ _ _ _ query refl p'

  pub replace_frontend-keeps :
      (old_name : GoString) (f : Frontend) (w : api.World)
      → P w
      → P (replace_frontend api h old_name f tx_id w).1
  unfolding replace_frontend
  replace_frontend-keeps old_name f w p =
      let (p', query) = get_version_or_tx_id-keeps w p in send_body-keeps _ _ _ _ _ _ query refl p'

  pub delete_frontend-keeps :
      (name : GoString) (w : api.World) → P w → P (delete_frontend api h name tx_id w).1
  unfolding delete_frontend
  delete_frontend-keeps name w p =
      let (p', query) = get_version_or_tx_id-keeps w p in write-keeps _ _ _ _ _ query refl p'

  pub add_server_to_backend-keeps :
      (s : Server) (backend_name : GoString) (w : api.World)
      → P w
      → P (add_server_to_backend api h s backend_name tx_id w).1
  unfolding add_server_to_backend
  add_server_to_backend-keeps s backend_name w p =
      let (p', query) = get_version_or_tx_id-keeps w p in send_body-keeps _ _ _ _ _ _ query refl p'

  pub replace_server_from_backend-keeps :
      (old_name : GoString) (s : Server) (backend_name : GoString) (w : api.World)
      → P w
      → P (replace_server_from_backend api h old_name s backend_name tx_id w).1
  unfolding replace_server_from_backend
  replace_server_from_backend-keeps old_name s backend_name w p =
      let (p', query) = get_version_or_tx_id-keeps w p in send_body-keeps _ _ _ _ _ _ query refl p'

  pub add_bind-keeps :
      (b : Bind) (frontend_name : GoString) (w : api.World)
      → P w
      → P (add_bind api h b frontend_name tx_id w).1
  unfolding add_bind
  add_bind-keeps b frontend_name w p =
      let (p', query) = get_version_or_tx_id-keeps w p in send_body-keeps _ _ _ _ _ _ query refl p'
