-- ===== src/Ledger/Transaction/Sums.antt =====
-- The checked sums of a journal against the exact sums.
use banking_plateform.Base.{
  ℕ, ◌+◌, ◌<◌, ◌≤◌, ◌^◌, ◌≡◌, Bool, List, [], ◌∷◌, ◌↔◌, All, arith, if◌then◌else◌, ◌⊎◌, ltb, str_eq,
}
use banking_plateform.Base.Int.{pos, negsuc, ◌+ℤ◌}
use banking_plateform.Shared.Errors.{Result, ok, err, wrapped, plain, invalid_money}
use banking_plateform.Shared.Money.{Money, add, cmp, currency_sar}
use banking_plateform.Shared.Money.Arith.{add-ExactMoney}
use banking_plateform.Ledger.Entry.{Entry, EntrySide, is_debit, is_credit, IsPosting, halalas_of}
use banking_plateform.Ledger.Transaction.{sum_from, sum_by_side, validate_balanced}

abbrev pub riyals : ℕ → Money
riyals n = record { halalas = pos n; currency = currency_sar }

-- The exact sum of one side.
abbrev pub side_total : (EntrySide → Bool) → List Entry → ℕ
side_total on_side [] = 0
side_total on_side (e ∷ es) = (if on_side e.side then halalas_of e else 0) + side_total on_side es

pos_add : (a b : ℕ) → pos a +ℤ pos b ≡ pos (a + b)
unfolding ◌+ℤ◌
pos_add a b = ground arith

-- One addition of the loop: exact, or the overflow error.
pub add-posting :
    (n : ℕ) (e : Entry)
    → n < 2 ^ 63
    → IsPosting e
    → (n + halalas_of e < 2 ^ 63) × (add (riyals n) e.amount ≡ ok (riyals (n + halalas_of e)))
      ⊎ (2 ^ 63 ≤ n + halalas_of e) × (add (riyals n) e.amount ≡ err (wrapped invalid_money plain))
add-posting n e l p = ground (arith, add-ExactMoney (riyals n) e.amount, pos_add n (halalas_of e))

-- What a checked sum is: exact while it fits an int64, and else the overflow error.
abbrev pub CheckedSum : ℕ → Result Money → Type 0
CheckedSum n r =
    (n < 2 ^ 63) × (r ≡ ok (riyals n)) ⊎ (2 ^ 63 ≤ n) × (r ≡ err (wrapped invalid_money plain))

pub sum_from-CheckedSum :
    (on_side : EntrySide → Bool) (n : ℕ) (es : List Entry)
    → n < 2 ^ 63
    → All IsPosting es
    → CheckedSum (n + side_total on_side es) (sum_from on_side (riyals n) es)
unfolding sum_from
sum_from-CheckedSum on_side n [] l p = ground arith
sum_from-CheckedSum on_side n (e ∷ es) l p = ground (
  arith,
  add-posting n e l p.0,
  sum_from-CheckedSum on_side (n + halalas_of e) es,
  sum_from-CheckedSum on_side n es,
)

pub sum_by_side-CheckedSum :
    (on_side : EntrySide → Bool) (es : List Entry)
    → All IsPosting es
    → CheckedSum (side_total on_side es) (sum_by_side es on_side)
unfolding sum_by_side
sum_by_side-CheckedSum on_side es p = ground (arith, sum_from-CheckedSum on_side 0 es)

-- The exact reading of the double-entry rule.
pub record IsBalancedBy (es : List Entry) : Type 0 where
  pub equal : side_total is_debit es ≡ side_total is_credit es
  pub fits : side_total is_debit es < 2 ^ 63

cmp-riyals :
    (a b : ℕ)
    → cmp (riyals a) (riyals b)
      ≡ ok (if ltb a b then negsuc 0 else if ltb b a then pos 1 else pos 0)
unfolding cmp str_eq
cmp-riyals a b = ground arith

-- On posted lines `validateBalanced` accepts exactly the journals whose debits equal their credits
-- as integers, and whose sums fit an int64.
pub validate_balanced_iff :
    (es : List Entry) → All IsPosting es → (validate_balanced es ≡ ok tt) ↔ IsBalancedBy es
unfolding validate_balanced
validate_balanced_iff es p = (
  λ h. ground (
    arith,
    sum_by_side-CheckedSum is_debit es p,
    sum_by_side-CheckedSum is_credit es p,
    cmp-riyals (side_total is_debit es) (side_total is_credit es),
  ),
  λ h. ground (
    arith,
    sum_by_side-CheckedSum is_debit es p,
    sum_by_side-CheckedSum is_credit es p,
    cmp-riyals (side_total is_debit es) (side_total is_credit es),
  ),
)
