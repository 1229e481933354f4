-- ===== src/Ledger/Account.antt =====
-- internal/ledger/domain/account.go
use banking_plateform.Base.{Bool, true, false, not, Str, is_empty, text, str_eq, if◌then◌else◌}
use banking_plateform.Shared.Errors.{Result, ok, domain, invalid_account, ◌>>◌, fail_if}

-- A Go string type with five named values: `unnamed` is any other string.
pub data AccountType : Type 0 where
  asset liability equity revenue expense : AccountType
  unnamed : Str → AccountType

pub record Account : Type 0 where
  pub id : Str
  pub typ : AccountType
  pub name : Str

-- `AccountType.isValid`
unfoldable pub is_valid_type : AccountType → Bool
is_valid_type (unnamed s) = false
is_valid_type asset = true
is_valid_type liability = true
is_valid_type equity = true
is_valid_type revenue = true
is_valid_type expense = true

unfoldable pub new_account : Str → AccountType → Str → Result Account
unfolding is_valid_type
new_account id typ name = do
  fail_if (is_empty id) (domain invalid_account)
  fail_if (not (is_valid_type typ)) (domain invalid_account)
  fail_if (is_empty name) (domain invalid_account)
  ok (record { id = id; typ = typ; name = name })

abbrev pub is_debit_normal_type : AccountType → Bool
is_debit_normal_type asset = true
is_debit_normal_type expense = true
is_debit_normal_type _ = false

unfoldable pub is_debit_normal : Account → Bool
is_debit_normal a = is_debit_normal_type a.typ

abbrev pub is_liability : AccountType → Bool
is_liability liability = true
is_liability _ = false

-- The conversion `AccountType(raw)` of a stored or received string.
unfoldable pub account_type_of : Str → AccountType
account_type_of s =
    if str_eq s (text "ASSET")
    then asset
    else if str_eq s (text "LIABILITY")
    then liability
    else if str_eq s (text "EQUITY")
    then equity
    else if str_eq s (text "REVENUE")
    then revenue
    else if str_eq s (text "EXPENSE")
    then expense
    else unnamed s
