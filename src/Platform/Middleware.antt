-- ===== src/Platform/Middleware.antt =====
-- internal/platform/http/middleware: cors.go, auth.go, requestid.go and audit.go. The access log and
-- the metrics pass every request and reply on as they are.
use banking_plateform.Base.{
  Bool, ◌&&◌, not, List, [], ◌∷◌, ◌++◌, Str, text, str_eq, is_empty, leb, if◌then◌else◌,
}
use banking_plateform.Shared.Errors.{Result, ok, err}
use banking_plateform.Platform.Audit.{AuditEntry}
use banking_plateform.Platform.Log.{log_entry}
use banking_plateform.Platform.Auth.{ApiKeyValidator, api_key_auth, is_options, usable_keys}
use banking_plateform.Platform.Http.{
  Request, Reply, Handler, Body, Value, fields, nothing, error_reply, with_headers,
}
use banking_plateform.Settlement.Processor.{ignoring}
use banking_plateform.Storage.{World}
use banking_plateform.Storage.Text.{elem}

abbrev pub local_origins : List Str
local_origins =
    text "http://localhost:3000"
    ∷ text "http://127.0.0.1:3000"
    ∷ text "http://localhost:3001"
    ∷ text "http://127.0.0.1:3001"
    ∷ []

abbrev pub origin_headers : Str → List (Str × Str)
origin_headers origin =
    (text "Access-Control-Allow-Origin", origin)
    ∷ (text "Access-Control-Allow-Credentials", text "true")
    ∷ (text "Vary", text "Origin")
    ∷ []

abbrev pub cors_headers : List (Str × Str)
cors_headers =
    (text "Access-Control-Allow-Methods", text "GET, POST, OPTIONS")
    ∷ (
      text "Access-Control-Allow-Headers",
      text "Content-Type, Idempotency-Key, X-API-Key, X-Request-ID, X-Actor",
    )
    ∷ (text "Access-Control-Max-Age", text "86400")
    ∷ []

-- The origins are trimmed, and empty ones dropped, as the API keys are.
unfoldable pub is_allowed_origin : List Str → Str → Bool
is_allowed_origin allowed origin =
    not (is_empty origin) && elem origin (usable_keys allowed ++ local_origins)

unfoldable pub headers_for : List Str → Str → List (Str × Str)
headers_for allowed origin =
    if is_allowed_origin allowed origin then origin_headers origin ++ cors_headers else cors_headers

-- `CORS`
unfoldable pub cors : List Str → Handler → Handler
cors allowed next r w =
    let hs = headers_for allowed r.origin in
    if is_options r.method
    then (record { status = 204; headers = hs; body = nothing }, w)
    else (let (reply, w') = next r w in (with_headers hs reply, w'))

abbrev pub guarded : Result Request → Handler → World → Reply × World
guarded (ok r) next w = next r w
guarded (err e) next w = (error_reply e, w)

-- `APIKeyAuth`
unfoldable pub require_api_key : ApiKeyValidator → Handler → Handler
require_api_key v next r w = guarded (api_key_auth v r) next w

-- `RequestID`: the identifier that `uuid.NewString` returns is an argument.
unfoldable pub with_request_id : (World → Str) → Handler → Handler
with_request_id new_id next r w =
    let id = if is_empty r.request_id then new_id w else r.request_id in
    let (reply, w') = next (record r { request_id = id }) w in
    (with_headers ((text "X-Request-ID", id) ∷ []) reply, w')

-- A field of a JSON object, when it is a text.
unfoldable pub text_field : Str → List (Str × Value) → Str
text_field name [] = []
text_field name ((k, Value.str s) ∷ fs) = if str_eq k name then s else text_field name fs
text_field name ((k, v) ∷ fs) = text_field name fs

-- `extractAuditResource`: the identifier and the type.
unfoldable pub extract_audit_resource : Body → Str × Str
extract_audit_resource (fields fs) =
    if not (is_empty (text_field (text "transaction_id") fs))
    then (text_field (text "transaction_id") fs, text "transfer")
    else if not (is_empty (text_field (text "id") fs))
    then (text_field (text "id") fs, text "account")
    else ([], [])
extract_audit_resource _ = ([], [])

unfoldable pub audit_entry : Str → Request → Reply → AuditEntry
audit_entry action r reply =
    let (id, typ) = extract_audit_resource reply.body in
    record {
      request_id = r.request_id;
      action = action;
      actor = r.actor;
      resource_type = typ;
      resource_id = id;
      method = r.method;
      path = r.path;
      status = reply.status;
    }

-- `Audit`: a failure of the log is logged and dropped.
unfoldable pub audited : Str → Handler → Handler
audited action next r w =
    let (reply, w') = next r w in
    if leb 400 reply.status
    then (reply, w')
    else (reply, ignoring (log_entry (audit_entry action r reply)) w')
