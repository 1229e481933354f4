-- ===== src/Platform/Auth.antt =====
-- internal/platform/auth/apikey.go and internal/platform/http/middleware/auth.go: API keys.
use banking_plateform.Base.{
  ◌-◌, Bool, true, false, not, List, [], ◌∷◌, ◌++◌, Str, text, is_empty, leb, if◌then◌else◌,
}
use banking_plateform.Shared.Errors.{Result, ok, domain, forbidden, ◌>>◌, fail_if}
use banking_plateform.Shared.GoText.{trim_space, byte_len}
use banking_plateform.Shared.Iban.{take_bytes, drop_bytes}
use banking_plateform.Platform.Audit.{Method, options}
use banking_plateform.Platform.Http.{Request}
use banking_plateform.Storage.Text.{elem}

pub record ApiKeyValidator : Type 0 where
  pub enabled : Bool
  pub keys : List Str

-- The trimmed keys that are not empty.
unfoldable pub usable_keys : List Str → List Str
usable_keys [] = []
usable_keys (k ∷ ks) =
    let rest = usable_keys ks in if is_empty (trim_space k) then rest else trim_space k ∷ rest

unfoldable pub new_api_key_validator : Bool → List Str → ApiKeyValidator
new_api_key_validator enabled keys = record { enabled = enabled; keys = usable_keys keys }

-- `Validate`; the comparison is in constant time, which is not modelled.
unfoldable pub validate : ApiKeyValidator → Str → Result (Unit {0})
validate v raw_key = if not v.enabled then ok tt else (do
  fail_if (is_empty raw_key) (domain forbidden)
  fail_if (not (elem raw_key v.keys)) (domain forbidden))

-- `maskKey`
unfoldable pub mask_key : Str → Str
mask_key key =
    if leb (byte_len key) 8
    then text "***"
    else take_bytes 4 key ++ (text "..." ++ drop_bytes (byte_len key - 4) key)

abbrev pub is_options : Method → Bool
is_options options = true
is_options _ = false

-- `APIKeyAuth`: the request that is passed on, or the error that is written.
unfoldable pub api_key_auth : ApiKeyValidator → Request → Result Request
api_key_auth v r = if is_options r.method then ok r else if not v.enabled then ok r else (do
  validate v r.api_key
  ok (record r {
    actor = if is_empty r.actor then text "api-key:" ++ mask_key r.api_key else r.actor;
  }))
