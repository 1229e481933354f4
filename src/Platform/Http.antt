-- ===== src/Platform/Http.antt =====
-- Requests and replies, as far as the handlers and the middlewares read and write them.
use banking_plateform.Base.{ℕ, Bool, List, [], ◌∷◌, ◌++◌, Str, text, Option}
use banking_plateform.Shared.Errors.{Error, ErrorCode}
use banking_plateform.Shared.Json.{Json}
use banking_plateform.Platform.Audit.{Method}
use banking_plateform.Platform.HttpErrors.{write_error}
use banking_plateform.Storage.{World}

-- `path` is the list of the segments of a clean URL path. The other texts are header fields: an
-- absent one is empty.
pub record Request : Type 0 where
  pub method : Method
  pub path : List Str
  pub origin : Str
  pub api_key : Str
  pub actor : Str
  pub request_id : Str
  pub idempotency_key : Str
  pub body : Json

-- A field of a JSON answer: a text, a truth value, or a time in seconds, which is printed as
-- RFC 3339.
pub data Value : Type 0 where
  str : Str → Value
  flag : Bool → Value
  time : ℕ → Value

-- An answer's body: nothing, an error's code (`none` is INTERNAL), an object, the rows of
-- `{"entries": [...]}`, or bytes that are no JSON.
pub data Body : Type 0 where
  nothing : Body
  failure : Option ErrorCode → Body
  fields : List (Str × Value) → Body
  rows : List (List (Str × Value)) → Body
  raw : Str → Body

pub record Reply : Type 0 where
  pub status : ℕ
  pub headers : List (Str × Str)
  pub body : Body

-- `http.Handler`
abbrev pub Handler : Type 0
Handler = Request → World → Reply × World

abbrev pub json_reply : ℕ → Body → Reply
json_reply status body = record {
  status = status;
  headers = (text "Content-Type", text "application/json") ∷ [];
  body = body;
}

-- `http.Error`
abbrev pub plain_reply : ℕ → Str → Reply
plain_reply status message = record {
  status = status;
  headers = (text "Content-Type", text "text/plain; charset=utf-8") ∷ [];
  body = raw message;
}

-- What `WriteError` writes.
abbrev pub error_reply : Error → Reply
error_reply e = json_reply (write_error e).status (failure (write_error e).body)

-- Headers that are set before the handler behind writes its own.
abbrev pub with_headers : List (Str × Str) → Reply → Reply
with_headers hs reply = record reply { headers = hs ++ reply.headers }
