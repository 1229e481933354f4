-- ===== src/Screening/Compliance.antt =====
-- internal/compliance/app: sanctions lists and the mock KYC registry.
use banking_plateform.Base.{
  Bool, true, not, ◌&&◌, List, [], ◌∷◌, Str, text, is_empty, if◌then◌else◌,
}
use banking_plateform.Shared.Errors.{Result, domain, forbidden, ◌>>=◌, ◌>>◌, fail_if}
use banking_plateform.Shared.GoText.{Unicode, trim_space, to_upper}
use banking_plateform.Shared.Iban.{parse_sa_iban}
use banking_plateform.Storage.Text.{elem}

abbrev pub blocked_ibans : List Str
blocked_ibans = text "SA4420000001234567891234" ∷ []

abbrev pub blocked_names : List Str
blocked_names = text "SANCTIONED ENTITY" ∷ text "BLOCKED CUSTOMER" ∷ []

-- `NewMockRegistry`
abbrev pub mock_registry : List Str
mock_registry = text "KYC PENDING CUSTOMER" ∷ text "UNVERIFIED USER" ∷ []

module _ (u : Unicode) where
  abbrev pub screened_name : Str → Str
  screened_name name = to_upper u (trim_space name)

  -- `MockRegistry.IsKYCApproved`; the IBAN is not looked at.
  unfoldable pub is_kyc_approved : List Str → Str → Bool
  is_kyc_approved blocked beneficiary_name =
      if is_empty (screened_name beneficiary_name)
      then true
      else not (elem (screened_name beneficiary_name) blocked)

  -- `Checker.Check`
  unfoldable pub check : Str → Str → Result (Unit {0})
  check beneficiary_iban beneficiary_name = do
    iban ← parse_sa_iban u beneficiary_iban
    fail_if (elem iban.value blocked_ibans) (domain forbidden)
    let name = screened_name beneficiary_name
    fail_if (not (is_empty name) && elem name blocked_names) (domain forbidden)
    fail_if (not (is_kyc_approved mock_registry beneficiary_name)) (domain forbidden)
