-- ===== src/Platform/HttpErrors.antt =====
-- internal/platform/http/handlers/errors.go: errors as HTTP answers.
use banking_plateform.Base.{ℕ, Option, none, some}
use banking_plateform.Shared.Errors.{
  Error, ErrorCode, as_domain_error, validation, invalid_money, invalid_iban, insufficient_funds,
  conflict, request_in_progress, forbidden, not_found,
}

abbrev pub status_for_code : ErrorCode → ℕ
status_for_code validation = 400
status_for_code invalid_money = 400
status_for_code invalid_iban = 400
status_for_code insufficient_funds = 422
status_for_code conflict = 409
status_for_code request_in_progress = 409
status_for_code forbidden = 403
status_for_code not_found = 404
status_for_code _ = 500

-- `statusForError`
unfoldable pub status_for_error : Error → ℕ
status_for_error e = elim (as_domain_error e) [ none ↦ 500 | some c ↦ status_for_code c ]

-- The status and the code of the body; `none` is the code INTERNAL.
pub record Response {ℓ} (A : Type ℓ) : Type ℓ where
  pub status : ℕ
  pub body : A

-- `WriteError`
unfoldable pub write_error : Error → Response (Option ErrorCode)
write_error e = record { status = status_for_error e; body = as_domain_error e }
