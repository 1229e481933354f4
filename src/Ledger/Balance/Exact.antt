-- ===== src/Ledger/Balance/Exact.antt =====
-- The derived balance against the exact signed sum of the account's lines.
use banking_plateform.Base.{
  ℕ, ◌+◌, ◌<◌, ◌≤◌, ◌^◌, ◌≡◌, List, [], ◌∷◌, All, arith, if◌then◌else◌, ◌⊎◌, str_eq,
}
use banking_plateform.Base.Int.{
  ℤ, pos, pos_part, neg_part, ◌+ℤ◌, ◌-ℤ◌, +ℤ_parts, -ℤ_parts, int_laws,
}
use banking_plateform.Shared.Errors.{ok, err, wrapped, plain, invalid_money}
use banking_plateform.Shared.Int64.{InRange}
use banking_plateform.Shared.Money.{Money, currency_sar}
use banking_plateform.Shared.Money.Arith.{add-ExactMoney, sub-ExactMoney}
use banking_plateform.Ledger.Account.{Account, is_debit_normal}
use banking_plateform.Ledger.Entry.{
  Entry, is_debit, is_credit, is_valid_side, IsPosting, halalas_of,
}
use banking_plateform.Ledger.Balance.{post_to, apply_entries}

abbrev pub riyals_ℤ : ℤ → Money
riyals_ℤ z = record { halalas = z; currency = currency_sar }

-- What a line adds to the account's balance, as an integer: the normal side raises it.
abbrev pub effect : Account → Entry → ℤ
effect account e =
    if is_debit_normal account
    then (if is_debit e.side then pos (halalas_of e) else pos 0 -ℤ pos (halalas_of e))
    else (if is_credit e.side then pos (halalas_of e) else pos 0 -ℤ pos (halalas_of e))

-- The exact balance of the account over a journal.
abbrev pub net : Account → List Entry → ℤ
net account [] = pos 0
net account (e ∷ es) =
    (if str_eq e.account_id account.id then effect account e else pos 0) +ℤ net account es

-- All that the account's lines move, in either direction.
abbrev pub volume : Account → List Entry → ℕ
volume account [] = 0
volume account (e ∷ es) =
    (if str_eq e.account_id account.id then halalas_of e else 0) + volume account es

sub_as_add : (z : ℤ) (n : ℕ) → z +ℤ (pos 0 -ℤ pos n) ≡ z -ℤ pos n
sub_as_add z n = omega int_laws

zero_right : (z : ℤ) → z +ℤ pos 0 ≡ z
zero_right z = omega int_laws

zero_left : (z : ℤ) → pos 0 +ℤ z ≡ z
zero_left z = omega int_laws

add_assoc : (a b c : ℤ) → a +ℤ b +ℤ c ≡ a +ℤ (b +ℤ c)
add_assoc a b c = omega int_laws

-- One line is exact, or the overflow error.
pub post_to_exact :
    (account : Account) (z : ℤ) (e : Entry)
    → InRange z
    → IsPosting e
    → (InRange (z +ℤ effect account e)
        × (post_to account (riyals_ℤ z) e ≡ ok (riyals_ℤ (z +ℤ effect account e))))
      ⊎ ¬ (InRange (z +ℤ effect account e))
        × (post_to account (riyals_ℤ z) e ≡ err (wrapped invalid_money plain))
unfolding post_to is_valid_side
post_to_exact account z e r p = ground (
  arith,
  add-ExactMoney (riyals_ℤ z) e.amount,
  sub-ExactMoney (riyals_ℤ z) e.amount,
  sub_as_add z (halalas_of e),
)

-- On posted lines, and while the starting amount and the volume of the account's lines fit an
-- int64, `ApplyEntries` returns the exact balance.
pub apply_entries_exact :
    (account : Account) (z : ℤ) (es : List Entry)
    → All IsPosting es
    → pos_part z + volume account es < 2 ^ 63 + neg_part z
    → neg_part z + volume account es ≤ 2 ^ 63 + pos_part z
    → apply_entries account (riyals_ℤ z) es ≡ ok (riyals_ℤ (z +ℤ net account es))
unfolding apply_entries
apply_entries_exact account z [] p u l = ground (arith, zero_right z)
apply_entries_exact account z (e ∷ es) p u l = ground (
  arith,
  post_to_exact account z e,
  apply_entries_exact account (z +ℤ effect account e) es p.1,
  apply_entries_exact account z es p.1,
  add_assoc z (effect account e) (net account es),
  zero_left (net account es),
  +ℤ_parts z (effect account e),
  -ℤ_parts (pos 0) (pos (halalas_of e)),
)

-- On posted lines and from an amount within int64, whatever the volume: a balance that
-- `ApplyEntries` returns is the exact one, and within int64.
pub apply_entries_sound :
    (account : Account) (z : ℤ) (es : List Entry) {m : Money}
    → InRange z
    → All IsPosting es
    → apply_entries account (riyals_ℤ z) es ≡ ok m
    → (m ≡ riyals_ℤ (z +ℤ net account es)) × InRange m.halalas
unfolding apply_entries
apply_entries_sound account z [] r p h = ground (arith, zero_right z)
apply_entries_sound account z (e ∷ es) {m} r p h = ground (
  arith,
  post_to_exact account z e r p.0,
  apply_entries_sound account (z +ℤ effect account e) es {m = m},
  apply_entries_sound account z es {m = m},
  add_assoc z (effect account e) (net account es),
  zero_left (net account es),
)
