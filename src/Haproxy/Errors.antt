-- ===== src/Haproxy/Errors.antt =====
-- What handleError makes of each answer, and what becomes of a conflict.
use pod_proxier.Base.{
  ℕ, ◌≡◌, refl, Bool, true, false, not, ◌&&◌, ◌||◌, Option-cases, ap, none, some, List, [], ◌∷◌,
  arith, ◌==◌ as nat_eq, is_some, inl, inr,
}
use pod_proxier.GoString.{GoString, contains}
use pod_proxier.GoString.Format.{errorf}
use pod_proxier.Haproxy.Response.{
  Response, Resource, text, bind, frontend, backend, server, bind_pointer, frontend_pointer,
  backend_pointer, server_pointer, handle_error, already_exists, by_code, logs, Logs,
}

-- Is the code in the list?
abbrev pub one_of : List ℕ → ℕ → Bool
one_of [] code = false
one_of (c ∷ cs) code = nat_eq code c || one_of cs code

abbrev pub clean : List ℕ
clean = 0 ∷ 200 ∷ 201 ∷ 202 ∷ []

-- The codes whose result is true although there is an error.
abbrev pub tolerated : List ℕ
tolerated = 204 ∷ 409 ∷ []

abbrev pub no_error : Response → Bool
no_error r = elim r.err [ none ↦ true | some _ ↦ false ]

by_code_value :
    (l : Logs) (code : ℕ) (body : GoString)
    → (by_code l code body).0 ≡ (one_of clean code || one_of tolerated code)
by_code_value l code body = ground arith

by_code_error :
    (l : Logs) (code : ℕ) (body : GoString)
    → is_some (by_code l code body).1 ≡ not (one_of clean code)
by_code_error l code body = ground arith

-- The result is true exactly for a response without a transport error whose code is 0, 200, 201,
-- 202, 204 or 409, and the error is nil exactly for one whose code is 0, 200, 201 or 202; so 204
-- and 409 give true together with an error. This does not depend on the resource.
pub handle_error_outcome :
    (r : Response) (res : Resource)
    → ((handle_error r res).0 ≡ (no_error r && (one_of clean r.code || one_of tolerated r.code)))
      × (is_some (handle_error r res).1 ≡ not (no_error r && one_of clean r.code))
unfolding handle_error
handle_error_outcome r res = elim (Option-cases r.err) [
  | inl e ↦
      rw (e, handle_error)
        (by_code_value (logs res) r.code r.body, by_code_error (logs res) r.code r.body)
  | inr (m, e) ↦ rw (e, handle_error) (refl, refl)
]

-- What the operations of the client pass as the resource: a name, or a pointer to the payload.
abbrev pub IsPassed : Resource → Type 0
IsPassed (text _) = Unit
IsPassed (bind_pointer _) = Unit
IsPassed (frontend_pointer _) = Unit
IsPassed (backend_pointer _) = Unit
IsPassed (server_pointer _) = Unit
IsPassed _ = ⊥

log409_passed : (res : Resource) → IsPassed res → (logs res).log409 ≡ []
unfolding logs
log409_passed (text _) p = refl
log409_passed (bind_pointer _) p = refl
log409_passed (frontend_pointer _) p = refl
log409_passed (backend_pointer _) p = refl
log409_passed (server_pointer _) p = refl
log409_passed (bind _) p = absurd p
log409_passed (frontend _) p = absurd p
log409_passed (backend _) p = absurd p
log409_passed (server _) p = absurd p

pub empty_unrecognised : already_exists [] ≡ false
unfolding contains
empty_unrecognised = refl

-- A conflict answered to any operation of the client, which passes a name or a pointer, gives the
-- result true and an error with an empty text, in which "already exists" is not found.
pub handle_error_conflict :
    (r : Response) (res : Resource)
    → IsPassed res
    → r.err ≡ none
    → r.code ≡ 409
    → (handle_error r res ≡ (true, some [])) × (already_exists [] ≡ false)
unfolding handle_error errorf
handle_error_conflict r res passed no_err code = (
  rw (no_err, code, handle_error) (ap (λ l. (true, some (errorf l))) (log409_passed res passed)),
  empty_unrecognised,
)
