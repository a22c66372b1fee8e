-- ===== src/Server/Answer.antt =====
-- server/api.go: error values and the JSON answers.
use pod_proxier.Base.{ℕ, List, [], ◌∷◌}
use pod_proxier.GoString.{GoString, str, remove_byte}
use pod_proxier.GoString.Number.{itoa}
use pod_proxier.Haproxy.Handle.{cat}

-- The dynamic type of an error: nil, *Err with the text of its cause, *Errno, or another.
pub data ApiError : Type 0 where
  nil : ApiError
  err : ℕ → GoString → GoString → ApiError
  errno : ℕ → GoString → ApiError
  other : GoString → ApiError

abbrev pub operation_succeeded : ApiError
operation_succeeded = errno 10000 (str "operation succeeded")

abbrev pub err_not_fount : ApiError
err_not_fount = errno 40004 (str "Not found the pod.")

-- The Error methods.
unfoldable pub error_text : ApiError → GoString
error_text nil = []
error_text (err code message cause) =
    cat
      (str "Err - apis: " ∷ itoa code ∷ str ", message: " ∷ message ∷ str ", error: " ∷ cause ∷ [])
error_text (errno code message) = message
error_text (other text) = text

unfoldable pub decode_err : ApiError → ℕ × GoString
decode_err nil = (10000, str "operation succeeded")
decode_err (err code message cause) = (code, message)
decode_err (errno code message) = (code, message)
decode_err (other text) = (10001, remove_byte b'"' text)

abbrev slice_text : ApiError → GoString
slice_text nil = str "operation succeeded"
slice_text (err code message cause) = message
slice_text (errno code message) = message
slice_text (other text) = text

unfoldable pub slice_texts : List ApiError → List GoString
slice_texts [] = []
slice_texts (e ∷ es) = slice_text e ∷ slice_texts es

-- http.StatusAccepted and the texts.
unfoldable pub decode_err_slice : List ApiError → ℕ × List GoString
unfolding slice_texts
decode_err_slice es = (202, slice_texts es)

-- The `data` of an answer: null, a text, or what else a handler passes.
pub data Payload : Type 0 where
  null : Payload
  text : GoString → Payload

pub record Answer : Type 0 where
  pub status : ℕ
  pub code : ℕ
  pub msg : GoString
  pub payload : Payload

-- SuccessResponse and APIResponse have one body.
unfoldable pub answer : ApiError → Payload → Answer
unfolding decode_err
answer e data' =
    let (code, msg) = decode_err e in
    record { status = 200; code = code; msg = msg; payload = data' }
