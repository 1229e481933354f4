-- ===== src/Platform/Server.antt =====
-- internal/platform/http/server.go and handlers/health.go, openapi.go: the routes and the chain of
-- middlewares.
use banking_plateform.Base.{◌&&◌, Bool, List, [], ◌∷◌, Str, text, str_eq, is_empty, if◌then◌else◌}
use banking_plateform.Shared.Errors.{Result, ok, err}
use banking_plateform.Platform.Audit.{Method, get, head, post}
use banking_plateform.Platform.Auth.{ApiKeyValidator}
use banking_plateform.Platform.Handlers.{
  create_transfer, get_by_transaction_id, get_by_idempotency_key, create_account_endpoint,
  get_balance_endpoint, list_entries_endpoint, Answer,
}
use banking_plateform.Platform.Http.{
  Reply, Handler, Body, str, time, fields, raw, json_reply, plain_reply,
}
use banking_plateform.Platform.Middleware.{cors, require_api_key, with_request_id, audited}
use banking_plateform.Platform.Views.{
  account_fields, balance_fields, transfer_fields, status_fields, entry_rows, reply_of,
}
use banking_plateform.Storage.{World}
use banking_plateform.Storage.Monad.{call, call_annotated}
use banking_plateform.Transfer.Service.{Ports}

-- `Dependencies`, with the embedded specification, the answer of the metrics library and the
-- identifiers of the uuid library.
pub record Dependencies : Type 0 where
  pub service_name : Str
  pub cors_allowed_origins : List Str
  pub api_key_auth : ApiKeyValidator
  pub transfers : Ports
  pub openapi_spec : Str
  pub metrics : World → Reply
  pub new_id : World → Str

-- The registered handlers, with the path values.
pub data Endpoint : Type 0 where
  health ready openapi metrics transfer_create account_create : Endpoint
  transfer_by_id transfer_by_key balance entries : Str → Endpoint

-- The handler of a path, under GET or POST.
pub data Target : Type 0 where
  on_get on_post : Endpoint → Target
  unknown : Target

abbrev pub under_v1 : Str → Str → Str → Bool
under_v1 v resource name = str_eq v (text "v1") && str_eq resource name

-- A path value is not empty.
abbrev pub with_value : Str → Endpoint → Target
with_value x e = if is_empty x then unknown else on_get e

-- The patterns of `NewServer`.
unfoldable pub target_of : List Str → Target
target_of (a ∷ []) =
    if str_eq a (text "health")
    then on_get health
    else if str_eq a (text "ready")
    then on_get ready
    else if str_eq a (text "openapi.yaml")
    then on_get openapi
    else if str_eq a (text "metrics")
    then on_get metrics
    else unknown
target_of (v ∷ a ∷ []) =
    if under_v1 v a (text "transfers")
    then on_post transfer_create
    else if under_v1 v a (text "accounts")
    then on_post account_create
    else unknown
target_of (v ∷ a ∷ x ∷ []) =
    if under_v1 v a (text "transfers") then with_value x (transfer_by_id x) else unknown
target_of (v ∷ a ∷ x ∷ y ∷ []) =
    if under_v1 v a (text "transfers") && str_eq x (text "by-key")
    then with_value y (transfer_by_key y)
    else if under_v1 v a (text "accounts") && str_eq y (text "balance")
    then with_value x (balance x)
    else if under_v1 v a (text "accounts") && str_eq y (text "entries")
    then with_value x (entries x)
    else unknown
target_of _ = unknown

-- `Health`
unfoldable pub health_reply : Str → Handler
health_reply service r w = (
  json_reply 200 (
      fields (
        (text "status", str (text "ok"))
        ∷ (text "service", str service)
        ∷ (text "timestamp", time w.now)
        ∷ [])),
  w,
)

abbrev pub redis_answer : Result (Unit {0}) → World → Reply × World
redis_answer (err _) w = (plain_reply 503 (text "redis unavailable"), w)
redis_answer (ok _) w = (json_reply 200 (fields ((text "status", str (text "ready")) ∷ [])), w)

abbrev pub postgres_answer : Result (Unit {0}) → World → Reply × World
postgres_answer (err _) w = (plain_reply 503 (text "postgres unavailable"), w)
postgres_answer (ok _) w = let (r, w') = call_annotated w in redis_answer r w'

-- `Ready`: a ping of each store.
unfoldable pub ready_reply : Handler
ready_reply r w = let (a, w') = call w in postgres_answer a w'

-- `OpenAPI`
unfoldable pub openapi_reply : Str → Reply
openapi_reply spec = record {
  status = 200;
  headers = (text "Content-Type", text "application/yaml") ∷ [];
  body = raw spec;
}

-- What an endpoint writes for its answer.
abbrev pub written : {A : Type 0} → (A → Body) → (World → Answer A × World) → World → Reply × World
written f endpoint w = let (a, w') = endpoint w in (reply_of f a, w')

unfoldable pub transfer_create_handler : Ports → Handler
transfer_create_handler ports r =
    written (λ t. fields (transfer_fields t)) (create_transfer ports r.idempotency_key r.body)

unfoldable pub account_create_handler : Handler
account_create_handler r = written (λ a. fields (account_fields a)) (create_account_endpoint r.body)

unfoldable pub handle : Dependencies → Endpoint → Handler
handle deps health = health_reply deps.service_name
handle deps ready = ready_reply
handle deps openapi = λ r w. (openapi_reply deps.openapi_spec, w)
handle deps metrics = λ r w. (deps.metrics w, w)
handle deps transfer_create =
    audited (text "transfer.create") (transfer_create_handler deps.transfers)
handle deps account_create = audited (text "account.create") account_create_handler
handle deps (transfer_by_id id) =
    λ r. written (λ s. fields (status_fields s)) (get_by_transaction_id id)
handle deps (transfer_by_key key) =
    λ r. written (λ s. fields (status_fields s)) (get_by_idempotency_key key)
handle deps (balance id) =
    λ r. written (λ b. fields (balance_fields id b)) (get_balance_endpoint id)
handle deps (entries id) = λ r. written entry_rows (list_entries_endpoint id)

abbrev not_found_reply : Reply
not_found_reply = plain_reply 404 (text "404 page not found")

-- The answer of `ServeMux` to a known path under another method; its Allow header is not modelled.
abbrev not_allowed_reply : Reply
not_allowed_reply = plain_reply 405 (text "Method Not Allowed")

-- A pattern for GET matches HEAD as well.
unfoldable pub dispatch : Dependencies → Method → Target → Handler
dispatch deps get (on_get e) = handle deps e
dispatch deps head (on_get e) = handle deps e
dispatch deps post (on_post e) = handle deps e
dispatch deps m unknown = λ r w. (not_found_reply, w)
dispatch deps m t = λ r w. (not_allowed_reply, w)

unfoldable pub mux : Dependencies → Handler
mux deps r w = dispatch deps r.method (target_of r.path) r w

-- `NewServer`: the outermost middleware first.
unfoldable pub serve : Dependencies → Handler
serve deps =
    cors deps.cors_allowed_origins
      (require_api_key deps.api_key_auth (with_request_id deps.new_id (mux deps)))
