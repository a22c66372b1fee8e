-- ===== src/Haproxy/Writes.antt =====
-- The writes of the client in a transaction, as the API's transaction sees them.
use pod_proxier.Base.{
  ◌&&◌, ℕ, ◌≡◌, ◌≢◌, refl, ap, ◌∙◌, sym, Bool, false, not, none, some, List, [], ◌∷◌, ◌++◌,
  if◌then◌else◌, is_some, arith, Bool-cases, Option-cases, inl, inr, ◌⊎◌,
}
use pod_proxier.GoString.{GoString, str, ◌==◌, eq_iff, contains, has_prefix}
use pod_proxier.GoString.Format.{errorf}
use pod_proxier.Haproxy.Response.{
  GoError, Response, Resource, handle_error, already_exists, by_code, logs, no_logs,
}
use pod_proxier.Haproxy.Api.{Api, Request, Method, get, post, put, delete}
use pod_proxier.Haproxy.Handle.{
  HaproxyHandle, do_request, new_request, get_version_or_tx_id, send_body,
}
use pod_proxier.Haproxy.Errors.{no_error, one_of, handle_error_outcome, empty_unrecognised}
use pod_proxier.Haproxy.Scope.{Ends, LastIs, Ends-cat}
use pod_proxier.Haproxy.Plane.{DataPlane, IsPlain, tagged, accepts}

by_error :
    (r : Response) (res : Resource)
    → (r.err ≡ none → r.code ≢ 0)
    → (no_error r && one_of (200 ∷ 201 ∷ 202 ∷ []) r.code) ≡ not (is_some (handle_error r res).1)
by_error r res code = elim (Option-cases r.err) [
  | inl e ↦ ground (arith, (handle_error_outcome r res).1, code e)
  | inr (t, e) ↦ ground (arith, (handle_error_outcome r res).1)
]

-- The error of an accepted answer is nil, and that of another is not.
pub accepts-handle_error :
    (m : Method) (r : Response) (res : Resource)
    → m ≢ get
    → m ≢ delete
    → (r.err ≡ none → r.code ≢ 0)
    → accepts m r ≡ not (is_some (handle_error r res).1)
accepts-handle_error get r res other kept code = absurd (other refl)
accepts-handle_error post r res other kept code = by_error r res code
accepts-handle_error put r res other kept code = by_error r res code
accepts-handle_error delete r res other kept code = absurd (kept refl)

-- Without texts of its own a status code gives no error, an empty one, or, where it is not that of
-- a conflict, one that quotes the body.
by_code_cases :
    (code : ℕ) (body : GoString)
    → ((by_code no_logs code body).1 ≡ none)
      ⊎ ((by_code no_logs code body).1 ≡ some [])
      ⊎ ((code ≢ 409) × ((by_code no_logs code body).1 ≡ some (str "Unkown error, " ++ body)))
unfolding errorf
by_code_cases code body = ground arith

quoted : (body : GoString) → already_exists (str "Unkown error, " ++ body) ≡ already_exists body
unfolding contains has_prefix
quoted body = refl

unwrap : (e f : GoString) → ◌≡◌ {A = GoError} (some e) (some f) → e ≡ f
unwrap e f h = cc

by_code_plain :
    (code : ℕ) (body e : GoString)
    → (code ≢ 409 → already_exists body ≡ false)
    → (by_code no_logs code body).1 ≡ some e
    → already_exists e ≡ false
by_code_plain code body e plain h = elim (by_code_cases code body) [
  | inl nothing ↦ absurd (some_≢_none e (sym h ∙ nothing))
  | inr (inl empty) ↦ ap already_exists (unwrap e [] (sym h ∙ empty)) ∙ empty_unrecognised
  | inr (inr (differs, other)) ↦
      ap already_exists (unwrap e _ (sym h ∙ other)) ∙ quoted body ∙ plain differs
]
  where
    some_≢_none : (e : GoString) → ◌≡◌ {A = GoError} (some e) none → ⊥
    some_≢_none e h = cc

sent_error :
    (r : Response) (res : Resource) (t : GoString)
    → r.err ≡ some t
    → some t ≡ (handle_error r res).1
unfolding handle_error
sent_error r res t q = rw (q, handle_error) refl

status_error :
    (r : Response) (res : Resource)
    → r.err ≡ none
    → logs res ≡ no_logs
    → (handle_error r res).1 ≡ (by_code no_logs r.code r.body).1
unfolding handle_error
status_error r res q silent = rw (q, handle_error) (ap (λ l. (by_code l r.code r.body).1) silent)

handle_error_plain :
    (r : Response) (res : Resource) (e : GoString)
    → logs res ≡ no_logs
    → ((t : GoString) → r.err ≡ some t → already_exists t ≡ false)
    → (r.code ≢ 409 → already_exists r.body ≡ false)
    → (handle_error r res).1 ≡ some e
    → already_exists e ≡ false
handle_error_plain r res e silent err body h = elim (Option-cases r.err) [
  | inr (t, q) ↦ err e (q ∙ sent_error r res t q ∙ h)
  | inl q ↦ by_code_plain r.code r.body e body (sym (status_error r res q silent) ∙ h)
]

module _ (api : Api) (plane : DataPlane api) (tx_id : GoString) where
  -- A write of a payload: without an error it waits in the transaction, with an error nothing does,
  -- and the error does not say that something exists already.
  abbrev pub IsWritten : Request → api.World → (Bool × GoError) × api.World → Type 0
  IsWritten r w ((b, none), w') = plane.pending tx_id w' ≡ r ∷ plane.pending tx_id w
  IsWritten r w ((b, some e), w') =
      (plane.pending tx_id w' ≡ plane.pending tx_id w) × (already_exists e ≡ false)

module _ (api : Api) (plane : DataPlane api) (plain : IsPlain api) (h : HaproxyHandle)
    (tx_id : GoString) (open_tx : tx_id ≢ []) where
  -- With a transaction no version is asked for.
  pub tagged_query : (w : api.World) → get_version_or_tx_id api h tx_id w ≡ (tagged tx_id, w)
  unfolding get_version_or_tx_id
  tagged_query w = elim (Bool-cases (tx_id == [])) [
    | inl e ↦ absurd (open_tx ((eq_iff tx_id []).0 e))
    | inr e ↦ rw e refl
  ]

  handled-IsWritten :
      (r : Request) (w : api.World) (res : Resource) (p : Bool × GoError)
      → r.method ≢ get
      → r.method ≢ delete
      → Ends (tagged tx_id) r.path
      → logs res ≡ no_logs
      → handle_error (api.send r w).0 res ≡ p
      → IsWritten api plane tx_id r w (p, (api.send r w).1)
  handled-IsWritten r w res (b, none) other stays ends silent handled =
      (plane.writes tx_id r w open_tx other ends).1
      ∙ ap (λ b. if b then r ∷ plane.pending tx_id w else plane.pending tx_id w)
          (accepts-handle_error r.method (api.send r w).0 res other stays (plain.has_code r w)
            ∙ ap (λ q. not (is_some q.1)) handled)
  handled-IsWritten r w res (b, some e) other stays ends silent handled = (
    (plane.writes tx_id r w open_tx other ends).1
        ∙ ap (λ b. if b then r ∷ plane.pending tx_id w else plane.pending tx_id w)
            (accepts-handle_error r.method (api.send r w).0 res other stays (plain.has_code r w)
              ∙ ap (λ q. not (is_some q.1)) handled),
    handle_error_plain (api.send r w).0 res e silent (plain.no_error_text r w)
        (plain.no_body_text r w) (ap (λ q. q.1) handled),
  )

  send_body-IsWritten :
      (m : Method) (path : List GoString) (body : GoString) (res : Resource) (w : api.World)
      → m ≢ get
      → m ≢ delete
      → LastIs (tagged tx_id) path
      → logs res ≡ no_logs
      → IsWritten api plane tx_id
          (new_request api h m path (some body))
          w
          (send_body api h m path (body, none) res w)
  unfolding send_body do_request
  send_body-IsWritten m path body res w other stays last silent =
      handled-IsWritten _ w res _ other stays (Ends-cat path (tagged tx_id) last) silent refl

  pub encoded-IsWritten :
      (m : Method) (path : List GoString) (body : GoString × GoError) (res : Resource)
      (w : api.World)
      → m ≢ get
      → m ≢ delete
      → LastIs (tagged tx_id) path
      → logs res ≡ no_logs
      → body.1 ≡ none
      → IsWritten api plane tx_id
          (new_request api h m path (some body.0))
          w
          (send_body api h m path body res w)
  encoded-IsWritten m path (s, none) res w other stays last silent encoded =
      send_body-IsWritten m path s res w other stays last silent
  encoded-IsWritten m path (s, some e) res w other stays last silent encoded = cc
