-- ===== src/Ledger/Balance.antt =====
-- internal/ledger/domain/balance.go and balance_projection.go: balances derived from entries.
pub mod Exact
use banking_plateform.Base.{
  ℕ, Bool, true, false, not, ◌&&◌, ◌||◌, List, [], ◌∷◌, Str, str_eq, if◌then◌else◌, keep,
}
use banking_plateform.Shared.Errors.{Result, ok, err, ◌>>=◌}
use banking_plateform.Shared.Money.{Money, zero_sar, add, sub}
use banking_plateform.Ledger.Account.{Account, is_debit_normal}
use banking_plateform.Ledger.Entry.{Entry, is_debit, is_credit}
use banking_plateform.Ledger.Transaction.{validate_balanced}

-- The `switch` of both loops: the first case that holds, and else the balance unchanged.
unfoldable pub post_to : Account → Money → Entry → Result Money
post_to account balance entry =
    if is_debit_normal account && is_debit entry.side
    then add balance entry.amount
    else if is_debit_normal account && is_credit entry.side
    then sub balance entry.amount
    else if not (is_debit_normal account) && is_credit entry.side
    then add balance entry.amount
    else if not (is_debit_normal account) && is_debit entry.side
    then sub balance entry.amount
    else ok balance

-- `ApplyEntries`
unfoldable pub apply_entries : Account → Money → List Entry → Result Money
apply_entries account balance [] = ok balance
apply_entries account balance (e ∷ es) = elim (str_eq e.account_id account.id) [
  | true ↦ post_to account balance e >>= λ b. apply_entries account b es
  | false ↦ apply_entries account balance es
]

-- `BalanceFromEntries`: the same loop, from zero.
unfoldable pub balance_from_entries : Account → List Entry → Result Money
unfolding apply_entries
balance_from_entries account entries = apply_entries account zero_sar entries

-- `EntriesForAccount`
unfoldable pub entries_for_account : Str → List Entry → List Entry
entries_for_account account_id entries = keep (λ e. str_eq e.account_id account_id) entries

-- `VerifyEntriesBalanced`
unfoldable pub verify_entries_balanced : List Entry → Result (Unit {0})
verify_entries_balanced entries = validate_balanced entries

abbrev pub reduces_balance : Account → Entry → Bool
reduces_balance account e =
    (is_debit_normal account && is_credit e.side)
    || (not (is_debit_normal account) && is_debit e.side)

-- The loop of `NetDebitExposure`, from the total so far.
unfoldable pub exposure_from : Account → Money → List Entry → Result Money
exposure_from account total [] = ok total
exposure_from account total (e ∷ es) =
    elim (str_eq e.account_id account.id && reduces_balance account e) [
      | true ↦ add total e.amount >>= λ t. exposure_from account t es
      | false ↦ exposure_from account total es
    ]

-- `NetDebitExposure`
unfoldable pub net_debit_exposure : Account → List Entry → Result Money
unfolding exposure_from
net_debit_exposure account entries = exposure_from account zero_sar entries
