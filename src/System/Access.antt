-- ===== src/System/Access.antt =====
-- internal/platform/http/middleware/auth.go before the routes: who may change anything.
use banking_plateform.Base.{◌≡◌, refl, ap, true, false, arith, ◌≢◌, Bool-cases, inl, inr}
use banking_plateform.Platform.Api.{Outside, api, dependencies}
use banking_plateform.Platform.Auth.{
  ApiKeyValidator, new_api_key_validator, validate, api_key_auth, usable_keys, is_options,
}
use banking_plateform.Platform.Config.{Config}
use banking_plateform.Platform.Http.{Request}
use banking_plateform.Platform.Middleware.{cors, require_api_key}
use banking_plateform.Platform.Server.{serve}
use banking_plateform.Shared.Errors.{err, domain, forbidden}
use banking_plateform.Storage.{World}
use banking_plateform.Platform.Audit.{Method, post}
use banking_plateform.System.Serving.{serve-Serves}
use banking_plateform.Storage.Text.{elem}

refused :
    (v : ApiKeyValidator) (r : Request)
    → v.enabled ≡ true
    → is_options r.method ≡ false
    → elem r.api_key v.keys ≡ false
    → api_key_auth v r ≡ err (domain forbidden)
unfolding api_key_auth validate
refused v r on m k = ground (arith, on, m, k)

refused_changes_nothing :
    {Rate : Type 0} (out : Outside) (cfg : Config Rate) (r : Request) (w : World)
    → cfg.auth_enabled ≡ true
    → is_options r.method ≡ false
    → elem r.api_key (usable_keys cfg.api_keys) ≡ false
    → (api out cfg r w).1 ≡ w
unfolding api serve cors require_api_key dependencies new_api_key_validator
refused_changes_nothing out cfg r w on m k =
    rw (m, refused (new_api_key_validator cfg.auth_enabled cfg.api_keys) r on m k) refl

options_change_nothing :
    {Rate : Type 0} (out : Outside) (cfg : Config Rate) (r : Request) (w : World)
    → is_options r.method ≡ true
    → (api out cfg r w).1 ≡ w
unfolding api serve cors
options_change_nothing out cfg r w m = rw m refl

-- When authentication is on, a request that changes a table carries one of the configured keys,
-- whatever fails on the way.
pub writes_are_authorized :
    {Rate : Type 0} (out : Outside) (cfg : Config Rate) (r : Request) (w : World)
    → cfg.auth_enabled ≡ true
    → (api out cfg r w).1.db ≢ w.db
    → elem r.api_key (usable_keys cfg.api_keys) ≡ true
writes_are_authorized out cfg r w on changed =
    elim (Bool-cases (elem r.api_key (usable_keys cfg.api_keys))) [
      | inl known ↦ known
      | inr unknown ↦ elim (Bool-cases (is_options r.method)) [
        | inl m ↦ absurd (changed (ap (λ v. v.db) (options_change_nothing out cfg r w m)))
        | inr m ↦
            absurd (changed (ap (λ v. v.db) (refused_changes_nothing out cfg r w on m unknown)))
      ]
    ]

abbrev IsNotPost : Method → Type 0
IsNotPost m = m ≢ post

-- A request that is not a POST changes no table, whatever it asks for and whatever calls fail.
pub reads_change_no_table :
    {Rate : Type 0} (out : Outside) (cfg : Config Rate) (r : Request) (w : World)
    → r.method ≢ post
    → (api out cfg r w).1.db ≡ w.db
unfolding api
reads_change_no_table out cfg r w m =
    (serve-Serves IsNotPost {P = λ db. db ≡ w.db} (dependencies out cfg) (λ p. elim (p refl) [ ])
        (λ p. elim (p refl) [ ])).at
      r w m refl
