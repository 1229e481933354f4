-- ===== src/Shared/Errors.antt =====
-- internal/shared/domain/errors.go and internal/ledger/domain/errors.go: domain errors, the chains
-- that wrap them, and the two tests on chains. Message texts are not modelled.
use banking_plateform.Base.{◌≡◌, refl, ◌⊎◌, inl, inr, Bool, true, false, Option, none, some}

-- The error codes, the ledger's among them.
pub data ErrorCode : Type 0 where
  invalid_money invalid_iban insufficient_funds not_found conflict : ErrorCode
  request_in_progress forbidden validation : ErrorCode
  unbalanced_transaction invalid_ledger_entry invalid_account : ErrorCode

-- A Go error value: a plain infrastructure failure, a failure under `fmt.Errorf("...: %w", err)`,
-- a `DomainError` with no cause, and one that wraps a cause.
pub data Error : Type 0 where
  plain : Error
  annotated : Error → Error
  domain : ErrorCode → Error
  wrapped : ErrorCode → Error → Error

pub data Result {ℓ} (A : Type ℓ) : Type ℓ where
  ok : A → Result A
  err : Error → Result A

pub Result-cases {ℓ} :
    {A : Type ℓ} (r : Result A) → ((a : A) × (r ≡ ok a)) ⊎ ((e : Error) × (r ≡ err e))
Result-cases (ok a) = inl (a, refl)
Result-cases (err e) = inr (e, refl)

pub ok_injective : {A : Type 0} {a b : A} → ◌≡◌ {A = Result A} (ok a) (ok b) → a ≡ b
ok_injective h = cc

infixl 5 ◌>>=◌ ◌>>◌
abbrev pub ◌>>=◌ {ℓ κ} : {A : Type ℓ} {B : Type κ} → Result A → (A → Result B) → Result B
ok a >>= f = f a
err e >>= f = err e

abbrev pub ◌>>◌ {ℓ κ} : {A : Type ℓ} {B : Type κ} → Result A → Result B → Result B
m >> k = m >>= λ _. k

-- `if bad { return err }`
abbrev pub fail_if : Bool → Error → Result (Unit {0})
fail_if true e = err e
fail_if false e = ok tt

-- `if err != nil { return WrapDomainError(code, ..., err) }`
abbrev pub wrap_with {ℓ} : {A : Type ℓ} → ErrorCode → Result A → Result A
wrap_with c (ok a) = ok a
wrap_with c (err e) = err (wrapped c e)

-- `fmt.Errorf("...: %w", err)`
abbrev pub relabel {ℓ} : {A : Type ℓ} → Result A → Result A
relabel (ok a) = ok a
relabel (err e) = err (annotated e)

abbrev pub same_code : ErrorCode → ErrorCode → Bool
same_code invalid_money invalid_money = true
same_code invalid_iban invalid_iban = true
same_code insufficient_funds insufficient_funds = true
same_code not_found not_found = true
same_code conflict conflict = true
same_code request_in_progress request_in_progress = true
same_code forbidden forbidden = true
same_code validation validation = true
same_code unbalanced_transaction unbalanced_transaction = true
same_code invalid_ledger_entry invalid_ledger_entry = true
same_code invalid_account invalid_account = true
same_code _ _ = false

-- `AsDomainError`: the code of the outermost domain error of the chain.
unfoldable pub as_domain_error : Error → Option ErrorCode
as_domain_error plain = none
as_domain_error (annotated e) = as_domain_error e
as_domain_error (domain c) = some c
as_domain_error (wrapped c e) = some c

-- `IsDomainCode`
unfoldable pub is_domain_code : Error → ErrorCode → Bool
unfolding as_domain_error
is_domain_code e c = elim (as_domain_error e) [ none ↦ false | some d ↦ same_code d c ]
