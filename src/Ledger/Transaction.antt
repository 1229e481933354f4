-- ===== src/Ledger/Transaction.antt =====
-- internal/ledger/domain/transaction.go: balanced journal transactions.
pub mod Sums
use banking_plateform.Base.{
  ℕ, ◌==◌, Bool, true, false, not, ◌≡◌, List, [], ◌∷◌, Str, is_empty, ltb, length, if◌then◌else◌,
}
use banking_plateform.Base.Int.{ℤ, pos, ltb_ℤ}
use banking_plateform.Shared.Errors.{
  Result, ok, err, domain, wrapped, invalid_ledger_entry, unbalanced_transaction, ◌>>=◌, ◌>>◌,
  fail_if, wrap_with,
}
use banking_plateform.Shared.Money.{Money, zero_sar, add, cmp}
use banking_plateform.Ledger.Entry.{Entry, EntrySide, debit, credit, is_debit, is_credit}

-- A time in seconds; 0 is Go's zero time.
abbrev pub Time : Type 0
Time = ℕ

pub record Transaction : Type 0 where
  pub id : Str
  pub description : Str
  pub entries : List Entry
  pub recorded_at : Time

-- The loop of `sumBySide`, from the total so far.
unfoldable pub sum_from : (EntrySide → Bool) → Money → List Entry → Result Money
sum_from on_side total [] = ok total
sum_from on_side total (e ∷ es) = elim (on_side e.side) [
  | true ↦ add total e.amount >>= λ t. sum_from on_side t es
  | false ↦ sum_from on_side total es
]

unfoldable pub sum_by_side : List Entry → (EntrySide → Bool) → Result Money
unfolding sum_from
sum_by_side entries on_side = sum_from on_side zero_sar entries

unfoldable pub validate_balanced : List Entry → Result (Unit {0})
validate_balanced entries = do
  debits ← wrap_with unbalanced_transaction (sum_by_side entries is_debit)
  credits ← wrap_with unbalanced_transaction (sum_by_side entries is_credit)
  order ← wrap_with unbalanced_transaction (cmp debits credits)
  fail_if (ltb_ℤ order (pos 0)) (domain unbalanced_transaction)
  fail_if (ltb_ℤ (pos 0) order) (domain unbalanced_transaction)

unfoldable pub new_transaction : Time → Str → Str → List Entry → Time → Result Transaction
new_transaction now id description entries recorded_at = do
  fail_if (is_empty id) (domain invalid_ledger_entry)
  fail_if (ltb (length entries) 2) (domain invalid_ledger_entry)
  validate_balanced entries
  ok (record {
    id = id;
    description = description;
    entries = entries;
    recorded_at = if recorded_at == 0 then now else recorded_at;
  })

-- `Transaction.IsBalanced`
unfoldable pub is_balanced : Transaction → Bool
is_balanced t = elim (validate_balanced t.entries) [ ok _ ↦ true | err _ ↦ false ]

-- `Transaction.TotalDebits`, `TotalCredits`
unfoldable pub total_debits : Transaction → Result Money
total_debits t = sum_by_side t.entries is_debit

unfoldable pub total_credits : Transaction → Result Money
total_credits t = sum_by_side t.entries is_credit
