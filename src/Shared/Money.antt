-- ===== src/Shared/Money.antt =====
-- internal/shared/domain/money.go: amounts in halalas over int64.
pub mod Arith
pub mod Text
pub mod Digits
pub mod RoundTrip
pub mod Range
pub mod Json
use banking_plateform.Base.{
  ℕ, Option, none, some, Bool, true, false, ◌&&◌, ◌||◌, not, Str, text, ltb, leb, str_eq,
  if◌then◌else◌, ◌^◌, ◌-◌, ◌+◌,
}
use banking_plateform.Base.Int.{ℤ, pos, negsuc, pos_part, neg_part, ltb_ℤ, ◌+ℤ◌, ◌-ℤ◌, ◌*ℤ◌}
use banking_plateform.Shared.Errors.{
  Result, ok, err, Error, plain, domain, invalid_money, ◌>>=◌, ◌>>◌, fail_if, wrap_with,
}
use banking_plateform.Shared.Int64.{wrap64, neg64, max_int64, min_int64}

abbrev pub currency_sar : Str
currency_sar = text "SAR"

abbrev pub halalas_per_sar : ℕ
halalas_per_sar = 100

pub record Money : Type 0 where
  pub halalas : ℤ
  pub currency : Str

unfoldable pub halalas_from_minor_units : ℤ → Str → Result Money
halalas_from_minor_units halalas currency = do
  fail_if (not (str_eq currency currency_sar)) (domain invalid_money)
  ok (record { halalas = halalas; currency = currency })

-- `SAR`: the product and the sum wrap.
unfoldable pub sar : ℤ → ℤ → Result Money
sar riyals halalas = do
  fail_if (ltb_ℤ halalas (pos 0) || not (ltb_ℤ halalas (pos halalas_per_sar)))
      (domain invalid_money)
  fail_if (ltb_ℤ (pos 0) riyals && ltb_ℤ halalas (pos 0)) (domain invalid_money)
  fail_if (ltb_ℤ riyals (pos 0) && ltb_ℤ (pos 0) halalas) (domain invalid_money)
  let total = wrap64 (wrap64 (riyals *ℤ pos halalas_per_sar) +ℤ halalas)
  ok (record { halalas = total; currency = currency_sar })

-- `MustSAR`: `none` is a panic.
unfoldable pub must_sar : ℤ → ℤ → Option Money
unfolding sar
must_sar riyals halalas = elim (sar riyals halalas) [ ok m ↦ some m | err e ↦ none ]

abbrev pub zero_sar : Money
zero_sar = record { halalas = pos 0; currency = currency_sar }

abbrev pub is_zero : Money → Bool
is_zero m = not (ltb_ℤ m.halalas (pos 0)) && not (ltb_ℤ (pos 0) m.halalas)

abbrev pub is_negative : Money → Bool
is_negative m = ltb_ℤ m.halalas (pos 0)

abbrev pub is_positive : Money → Bool
is_positive m = ltb_ℤ (pos 0) m.halalas

unfoldable pub safe_add : ℤ → ℤ → Result ℤ
safe_add a b = do
  fail_if (ltb_ℤ (pos 0) b && ltb_ℤ (wrap64 (max_int64 -ℤ b)) a) plain
  fail_if (ltb_ℤ b (pos 0) && ltb_ℤ a (wrap64 (min_int64 -ℤ b))) plain
  ok (wrap64 (a +ℤ b))

unfoldable pub safe_sub : ℤ → ℤ → Result ℤ
safe_sub a b = do
  fail_if (ltb_ℤ b (pos 0) && ltb_ℤ (wrap64 (max_int64 +ℤ b)) a) plain
  fail_if (ltb_ℤ (pos 0) b && ltb_ℤ a (wrap64 (min_int64 +ℤ b))) plain
  ok (wrap64 (a -ℤ b))

unfoldable pub add : Money → Money → Result Money
add m other = do
  fail_if (not (str_eq m.currency other.currency)) (domain invalid_money)
  sum ← wrap_with invalid_money (safe_add m.halalas other.halalas)
  ok (record { halalas = sum; currency = m.currency })

unfoldable pub sub : Money → Money → Result Money
sub m other = do
  fail_if (not (str_eq m.currency other.currency)) (domain invalid_money)
  diff ← wrap_with invalid_money (safe_sub m.halalas other.halalas)
  ok (record { halalas = diff; currency = m.currency })

unfoldable pub negate : Money → Money
negate m = record { halalas = neg64 m.halalas; currency = m.currency }

unfoldable pub abs : Money → Money
unfolding negate
abs m = if ltb_ℤ m.halalas (pos 0) then negate m else m

unfoldable pub cmp : Money → Money → Result ℤ
cmp m other = do
  fail_if (not (str_eq m.currency other.currency)) (domain invalid_money)
  ok (
      if ltb_ℤ m.halalas other.halalas
      then negsuc 0
      else if ltb_ℤ other.halalas m.halalas
      then pos 1
      else pos 0)

unfoldable pub greater_than : Money → Money → Result Bool
unfolding cmp
greater_than m other = do c ← cmp m other; ok (ltb_ℤ (pos 0) c)

unfoldable pub less_than : Money → Money → Result Bool
unfolding cmp
less_than m other = do c ← cmp m other; ok (ltb_ℤ c (pos 0))
