-- ===== src/Shared/Money/Arith.antt =====
-- Arithmetic of money is exact or refused.
use banking_plateform.Base.{◌≡◌, ◌⊎◌, arith, str_eq_iff, ◌≢◌, ◌↔◌}
use banking_plateform.Base.Int.{ℤ, pos, ◌+ℤ◌, ◌-ℤ◌, int_laws, eq_of_parts}
use banking_plateform.Shared.Errors.{Result, ok, err, plain, domain, wrapped, invalid_money}
use banking_plateform.Shared.Int64.{InRange, wrap64-InRange, max_int64, min_int64}
use banking_plateform.Shared.Money.{Money, safe_add, safe_sub, add, sub, cmp}

-- A refused or an exact result.
abbrev Exact : ℤ → Result ℤ → Type 0
Exact c r = (InRange c × (r ≡ ok c)) ⊎ (¬ (InRange c) × (r ≡ err plain))

pub safe_add-Exact : (a b : ℤ) → InRange a → InRange b → Exact (a +ℤ b) (safe_add a b)
unfolding safe_add
safe_add-Exact a b h k = grind (
  int_laws,
  wrap64-InRange (a +ℤ b),
  wrap64-InRange (max_int64 -ℤ b),
  wrap64-InRange (min_int64 -ℤ b),
)

pub safe_sub-Exact : (a b : ℤ) → InRange a → InRange b → Exact (a -ℤ b) (safe_sub a b)
unfolding safe_sub
safe_sub-Exact a b h k = grind (
  int_laws,
  wrap64-InRange (a -ℤ b),
  wrap64-InRange (max_int64 +ℤ b),
  wrap64-InRange (min_int64 +ℤ b),
)

-- What `Add` and `Sub` promise: the exact amount `c` in the currency of `m`, or an error that names
-- the money code: with no cause on a mismatch of currencies, with one on an overflow.
abbrev pub ExactMoney : ℤ → Money → Money → Result Money → Type 0
ExactMoney c m n r =
    (m.currency ≡ n.currency) × InRange c × (r ≡ ok (record { halalas = c; currency = m.currency }))
    ⊎ (m.currency ≡ n.currency) × ¬ (InRange c) × (r ≡ err (wrapped invalid_money plain))
    ⊎ (m.currency ≢ n.currency) × (r ≡ err (domain invalid_money))

-- On amounts within int64 `Add` is exact or refused: the sum when it fits an int64, the overflow
-- error exactly when it does not, and the mismatch error exactly when the currencies differ.
pub add-ExactMoney :
    (m n : Money)
    → InRange m.halalas
    → InRange n.halalas
    → ExactMoney (m.halalas +ℤ n.halalas) m n (add m n)
unfolding add
add-ExactMoney m n h k =
    ground (arith, safe_add-Exact m.halalas n.halalas h k, str_eq_iff m.currency n.currency)

-- On amounts within int64 `Sub` is exact or refused: the difference when it fits an int64, the
-- overflow error exactly when it does not, and the mismatch error exactly when the currencies
-- differ.
pub sub-ExactMoney :
    (m n : Money)
    → InRange m.halalas
    → InRange n.halalas
    → ExactMoney (m.halalas -ℤ n.halalas) m n (sub m n)
unfolding sub
sub-ExactMoney m n h k =
    ground (arith, safe_sub-Exact m.halalas n.halalas h k, str_eq_iff m.currency n.currency)

-- `Cmp` is the order of the integers, on amounts of one currency.
pub cmp_zero_iff :
    (m n : Money) → m.currency ≡ n.currency → (cmp m n ≡ ok (pos 0)) ↔ (m.halalas ≡ n.halalas)
unfolding cmp
cmp_zero_iff m n h = (
  λ e. ground (arith, str_eq_iff m.currency n.currency, eq_of_parts m.halalas n.halalas),
  λ e. ground (arith, str_eq_iff m.currency n.currency),
)

cancel_add : (a b : ℤ) → a +ℤ b -ℤ b ≡ a
cancel_add a b = omega int_laws

-- On amounts within int64, what `Add` has added `Sub` takes off again.
pub sub-add :
    (m n : Money) {t : Money}
    → InRange m.halalas
    → InRange n.halalas
    → add m n ≡ ok t
    → sub t n ≡ ok m
sub-add m n {t} h k e =
    ground (arith, add-ExactMoney m n h k, sub-ExactMoney t n, cancel_add m.halalas n.halalas)
