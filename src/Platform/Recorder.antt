-- ===== src/Platform/Recorder.antt =====
-- internal/platform/http/middleware/errors.go and recorder.go: the response recorder, and the
-- middleware that answers the errors which handlers signal. A writer is the list of what was sent.
pub mod Answers
use banking_plateform.Base.{◌≡◌, refl, ℕ, List, [], ◌∷◌, ◌++◌, Option, none, some, Str, text}
use banking_plateform.Platform.HttpErrors.{status_for_error, write_error}
use banking_plateform.Shared.Errors.{
  Error, ErrorCode, as_domain_error, validation, invalid_money, invalid_iban, insufficient_funds,
  conflict, request_in_progress, forbidden, not_found,
}

-- What reaches the underlying `http.ResponseWriter`: a header, a status, bytes, or the JSON of an
-- error, where `none` is the code INTERNAL.
pub data Sent : Type 0 where
  header : Str → Str → Sent
  status : ℕ → Sent
  bytes : Str → Sent
  error_body : Option ErrorCode → Sent

-- `responseRecorder`, with what its underlying writer was sent.
pub record Recorder : Type 0 where
  pub sent : List Sent
  pub code : ℕ
  pub error : Option Error
  pub body : Str

abbrev pub new_recorder : Recorder
new_recorder = record { sent = []; code = 200; error = none; body = [] }

-- What a handler does to its writer.
pub data Action : Type 0 where
  set_header : Str → Str → Action
  write_header : ℕ → Action
  write : Str → Action
  set_error : Error → Action

-- `WriteHeader`, `Write` and `setError`, which `SetHandlerError` calls.
unfoldable pub record_action : Action → Recorder → Recorder
record_action (set_header k v) r = record r { sent = r.sent ++ header k v ∷ [] }
record_action (write_header n) r = record r { sent = r.sent ++ status n ∷ []; code = n }
record_action (write p) r = record r { sent = r.sent ++ bytes p ∷ []; body = r.body ++ p }
record_action (set_error e) r = record r { error = some e }

unfoldable pub record_all : List Action → Recorder → Recorder
record_all [] r = r
record_all (a ∷ actions) r = record_all actions (record_action a r)

abbrev pub status_of_code : ErrorCode → ℕ
status_of_code validation = 400
status_of_code invalid_money = 400
status_of_code invalid_iban = 400
status_of_code insufficient_funds = 422
status_of_code conflict = 409
status_of_code request_in_progress = 409
status_of_code forbidden = 403
status_of_code not_found = 404
status_of_code _ = 500

-- The `statusForError` of the middleware.
unfoldable pub middleware_status : Error → ℕ
middleware_status e = elim (as_domain_error e) [ none ↦ 500 | some c ↦ status_of_code c ]

abbrev pub error_answer : Recorder → Option Error → List Sent
error_answer r none = r.sent
error_answer r (some e) =
    r.sent
    ++ header (text "Content-Type") (text "application/json")
      ∷ status (middleware_status e)
      ∷ error_body (as_domain_error e)
      ∷ []

-- `DomainError` around a handler that does these actions: what the client is sent.
unfoldable pub domain_error : List Action → List Sent
domain_error actions = let r = record_all actions new_recorder in error_answer r r.error
