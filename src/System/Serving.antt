-- ===== src/System/Serving.antt =====
-- internal/platform/http: what the server keeps of the tables, endpoint by endpoint and through the
-- chain of middlewares.
use banking_plateform.Base.{
  ◌≡◌, refl, Bool, true, false, Bool-cases, List, [], ◌∷◌, Str, inl, inr, leb, arith,
}
use banking_plateform.Platform.Audit.{Method, get, head, post, options, other, AuditEntry}
use banking_plateform.Platform.Auth.{ApiKeyValidator, api_key_auth, is_options}
use banking_plateform.Platform.Http.{Request, Handler}
use banking_plateform.Platform.Log.{log_entry}
use banking_plateform.Platform.Middleware.{
  cors, require_api_key, with_request_id, audited, audit_entry,
}
use banking_plateform.Platform.Server.{
  Dependencies, Endpoint, Target, on_get, on_post, unknown, health, ready, openapi, metrics,
  transfer_create, account_create, transfer_by_id, transfer_by_key, balance, entries, dispatch, mux,
  target_of, serve, handle, health_reply,
}
use banking_plateform.Shared.Errors.{ok, Result-cases}
use banking_plateform.Storage.{Db, World}
use banking_plateform.Storage.Keeps.{Keeps}
use banking_plateform.System.Reads.{
  transfer_by_id-Keeps, transfer_by_key-Keeps, balance-Keeps, entries-Keeps, ready-Keeps,
}

-- Whatever the request, if its method is one of `Q`, the property of the tables stays.
pub record Serves (Q : Method → Type 0) (P : Db → Type 0) (h : Handler) : Type 0 where
  pub at : (r : Request) (w : World) → Q r.method → P w.db → P (h r w).1.db

abbrev pub Any : Method → Type 0
Any m = Unit {0}

api_key_auth-method :
    (v : ApiKeyValidator) (r q : Request) → api_key_auth v r ≡ ok q → q.method ≡ r.method
unfolding api_key_auth
api_key_auth-method v r q h = ground arith

module _ {Q : Method → Type 0} {P : Db → Type 0} {next : Handler} (s : Serves Q P next) where
  cors-Serves : (allowed : List Str) → Serves Q P (cors allowed next)
  unfolding cors
  cors-Serves allowed = record {
    at = λ r w m h. elim (Bool-cases (is_options r.method)) [
      | inl e ↦ rw e h
      | inr e ↦ rw e (s.at r w m h)
    ];
  }

  require_api_key-Serves : (v : ApiKeyValidator) → Serves Q P (require_api_key v next)
  unfolding require_api_key
  require_api_key-Serves v = record {
    at = λ r w m h. elim (Result-cases (api_key_auth v r)) [
      | inl (q, e) ↦ rw e (s.at q w (rw (api_key_auth-method v r q e) m) h)
      | inr (x, e) ↦ rw e h
    ];
  }

  with_request_id-Serves : (new_id : World → Str) → Serves Q P (with_request_id new_id next)
  unfolding with_request_id
  with_request_id-Serves new_id = record { at = λ r w m h. s.at _ w m h }

  -- The write of the log may not break the property.
  pub audited-Serves :
      ((e : AuditEntry) → Keeps P (log_entry e)) → (action : Str) → Serves Q P (audited action next)
  unfolding audited
  audited-Serves log action = record {
    at = λ r w m h. elim (Bool-cases (leb 400 (next r w).0.status)) [
      | inl e ↦ rw e (s.at r w m h)
      | inr e ↦ rw e ((log (audit_entry action r (next r w).0)).at (next r w).1 (s.at r w m h))
    ];
  }

abbrev is_read : Endpoint → Bool
is_read transfer_create = false
is_read account_create = false
is_read _ = true

abbrev is_read_target : Target → Bool
is_read_target (on_get e) = is_read e
is_read_target _ = true

-- The endpoints under GET are those that read.
target-is_read : (path : List Str) → is_read_target (target_of path) ≡ true
unfolding target_of
target-is_read [] = refl
target-is_read (a ∷ []) = ground arith
target-is_read (v ∷ a ∷ []) = ground arith
target-is_read (v ∷ a ∷ x ∷ []) = ground arith
target-is_read (v ∷ a ∷ x ∷ y ∷ []) = ground arith
target-is_read (v ∷ a ∷ x ∷ y ∷ z ∷ path) = refl

read-Serves :
    {P : Db → Type 0} (deps : Dependencies) (e : Endpoint)
    → is_read e ≡ true
    → Serves Any P (handle deps e)
unfolding handle health_reply
read-Serves {P} deps health i = record { at = λ r w m h. h }
read-Serves {P} deps ready i = record { at = λ r w m h. ready-Keeps P r w h }
read-Serves {P} deps openapi i = record { at = λ r w m h. h }
read-Serves {P} deps metrics i = record { at = λ r w m h. h }
read-Serves {P} deps transfer_create i = cc
read-Serves {P} deps account_create i = cc
read-Serves {P} deps (transfer_by_id id) i = record {
  at = λ r w m h. transfer_by_id-Keeps P id w h;
}
read-Serves {P} deps (transfer_by_key key) i = record {
  at = λ r w m h. transfer_by_key-Keeps P key w h;
}
read-Serves {P} deps (balance id) i = record { at = λ r w m h. balance-Keeps P id w h }
read-Serves {P} deps (entries id) i = record { at = λ r w m h. entries-Keeps P id w h }

-- What the two endpoints that write keep, the server keeps; a method that is never POST does not
-- reach them.
module _ (Q : Method → Type 0) {P : Db → Type 0} (deps : Dependencies)
    (transfers : Q post → Serves Any P (handle deps transfer_create))
    (accounts : Q post → Serves Any P (handle deps account_create)) where
  post-Serves : (e : Endpoint) → Q post → Serves Any P (handle deps e)
  post-Serves transfer_create q = transfers q
  post-Serves account_create q = accounts q
  post-Serves health q = read-Serves deps health refl
  post-Serves ready q = read-Serves deps ready refl
  post-Serves openapi q = read-Serves deps openapi refl
  post-Serves metrics q = read-Serves deps metrics refl
  post-Serves (transfer_by_id id) q = read-Serves deps (transfer_by_id id) refl
  post-Serves (transfer_by_key key) q = read-Serves deps (transfer_by_key key) refl
  post-Serves (balance id) q = read-Serves deps (balance id) refl
  post-Serves (entries id) q = read-Serves deps (entries id) refl

  dispatch-Serves :
      (m : Method) (t : Target) → is_read_target t ≡ true → Q m → Serves Any P (dispatch deps m t)
  unfolding dispatch
  dispatch-Serves get (on_get e) i q = read-Serves deps e i
  dispatch-Serves get (on_post e) i q = record { at = λ r w m h. h }
  dispatch-Serves get unknown i q = record { at = λ r w m h. h }
  dispatch-Serves head (on_get e) i q = read-Serves deps e i
  dispatch-Serves head (on_post e) i q = record { at = λ r w m h. h }
  dispatch-Serves head unknown i q = record { at = λ r w m h. h }
  dispatch-Serves post (on_get e) i q = record { at = λ r w m h. h }
  dispatch-Serves post (on_post e) i q = post-Serves e q
  dispatch-Serves post unknown i q = record { at = λ r w m h. h }
  dispatch-Serves options (on_get e) i q = record { at = λ r w m h. h }
  dispatch-Serves options (on_post e) i q = record { at = λ r w m h. h }
  dispatch-Serves options unknown i q = record { at = λ r w m h. h }
  dispatch-Serves (other n) (on_get e) i q = record { at = λ r w m h. h }
  dispatch-Serves (other n) (on_post e) i q = record { at = λ r w m h. h }
  dispatch-Serves (other n) unknown i q = record { at = λ r w m h. h }

  mux-Serves : Serves Q P (mux deps)
  unfolding mux
  mux-Serves = record {
    at = λ r w m h.
        (dispatch-Serves r.method (target_of r.path) (target-is_read r.path) m).at r w tt h;
  }

  pub serve-Serves : Serves Q P (serve deps)
  unfolding serve
  serve-Serves =
      cors-Serves
        (require_api_key-Serves (with_request_id-Serves mux-Serves deps.new_id) deps.api_key_auth)
        deps.cors_allowed_origins
