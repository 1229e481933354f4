-- ===== src/Ledger/Entry.antt =====
-- internal/ledger/domain/entry.go
use banking_plateform.Base.{Bool, true, false, not, Str, is_empty, ◌≡◌, ◌<◌, ◌^◌, ℕ, arith}
use banking_plateform.Base.Int.{pos, pos_part}
use banking_plateform.Shared.Errors.{Result, ok, domain, invalid_ledger_entry, ◌>>◌, fail_if}
use banking_plateform.Shared.Int64.{InRange}
use banking_plateform.Shared.Money.{Money, is_positive, currency_sar}

-- A Go string type with two named values: `unnamed` is any other string.
pub data EntrySide : Type 0 where
  debit credit : EntrySide
  unnamed : Str → EntrySide

pub record Entry : Type 0 where
  pub id : Str
  pub account_id : Str
  pub side : EntrySide
  pub amount : Money

abbrev pub is_debit : EntrySide → Bool
is_debit debit = true
is_debit _ = false

abbrev pub is_credit : EntrySide → Bool
is_credit credit = true
is_credit _ = false

-- `EntrySide.isValid`
unfoldable pub is_valid_side : EntrySide → Bool
is_valid_side debit = true
is_valid_side credit = true
is_valid_side (unnamed s) = false

unfoldable pub new_entry : Str → Str → EntrySide → Money → Result Entry
unfolding is_valid_side
new_entry id account_id side amount = do
  fail_if (is_empty id) (domain invalid_ledger_entry)
  fail_if (is_empty account_id) (domain invalid_ledger_entry)
  fail_if (not (is_valid_side side)) (domain invalid_ledger_entry)
  fail_if (not (is_positive amount)) (domain invalid_ledger_entry)
  ok (record { id = id; account_id = account_id; side = side; amount = amount })

-- The amount of an entry, as a natural number.
abbrev pub halalas_of : Entry → ℕ
halalas_of e = pos_part e.amount.halalas

-- A posted line: a positive amount of riyals within int64, on one of the two sides.
pub record IsPosting (e : Entry) : Type 0 where
  pub currency : e.amount.currency ≡ currency_sar
  pub amount : e.amount.halalas ≡ pos (halalas_of e)
  pub positive : 0 < halalas_of e
  pub bounded : halalas_of e < 2 ^ 63
  pub side : is_valid_side e.side ≡ true

-- A line with its two identifiers, as `NewEntry` demands.
pub record IsLine (e : Entry) : Type 0 where
  pub posting : IsPosting e
  pub has_id : is_empty e.id ≡ false
  pub has_account : is_empty e.account_id ≡ false

-- `NewEntry` accepts only lines with a positive riyal amount, whatever its arguments, and changes
-- none of them.
pub new_entry-IsLine :
    (id account_id : Str) (side : EntrySide) (amount : Money) (e : Entry)
    → amount.currency ≡ currency_sar
    → InRange amount.halalas
    → new_entry id account_id side amount ≡ ok e
    → (e ≡ record { id = id; account_id = account_id; side = side; amount = amount }) × IsLine e
unfolding new_entry
new_entry-IsLine id account_id side amount e c r h = ground arith
