-- ===== src/Shared/Money/Text.antt =====
-- `ParseSAR` and `Money.String` of internal/shared/domain/money.go.
use banking_plateform.Base.{
  ◌==◌, Bool, true, false, List, [], ◌∷◌, ◌++◌, Str, ltb, is_empty, if◌then◌else◌,
}
use banking_plateform.Base.Int.{ℤ, pos, ltb_ℤ}
use banking_plateform.Shared.Errors.{Result, ok, err, domain, invalid_money, ◌>>=◌, ◌>>◌, fail_if}
use banking_plateform.Shared.Int64.{neg64, quot64, rem64}
use banking_plateform.Shared.GoText.{
  trim_space, split_on, byte_len, parse_int, format_int, format_two,
}
use banking_plateform.Shared.Money.{Money, sar, negate, halalas_per_sar}

-- `strconv.ParseInt`, its error turned into the money code.
unfoldable pub parse_part : Str → Result ℤ
parse_part s = elim (parse_int s) [ ok n ↦ ok n | err e ↦ err (domain invalid_money) ]

-- The sign and the text behind it.
unfoldable pub take_sign : Str → Bool × Str
take_sign [] = (false, [])
take_sign (c ∷ s) =
    if c == b'-' then (true, s) else if c == b'+' then (false, s) else (false, c ∷ s)

-- One or two decimals; a single one stands for tenths.
unfoldable pub parse_fraction : Str → Result ℤ
unfolding parse_part
parse_fraction frac = do
  fail_if (is_empty frac) (domain invalid_money)
  fail_if (ltb 2 (byte_len frac)) (domain invalid_money)
  parse_part (if byte_len frac == 1 then frac ++ b'0' ∷ [] else frac)

abbrev pub with_sign : Bool → Money → Money
with_sign true m = negate m
with_sign false m = m

unfoldable pub parse_parts : Bool → List Str → Result Money
unfolding parse_part parse_fraction
parse_parts negative [] = err (domain invalid_money)
parse_parts negative (whole ∷ []) = do
  riyals ← parse_part whole
  m ← sar riyals (pos 0)
  ok (with_sign negative m)
parse_parts negative (whole ∷ frac ∷ []) = do
  riyals ← parse_part whole
  halalas ← parse_fraction frac
  m ← sar riyals halalas
  ok (with_sign negative m)
parse_parts negative (whole ∷ frac ∷ more ∷ rest) = err (domain invalid_money)

-- `ParseSAR`
unfoldable pub parse_sar : Str → Result Money
unfolding take_sign parse_parts
parse_sar value =
    let v = trim_space value in
    do
      fail_if (is_empty v) (domain invalid_money)
      parse_parts (take_sign v).0 (split_on b'.' (take_sign v).1)

-- `Money.String`
unfoldable pub money_string : Money → Str
money_string m =
    let abs = if ltb_ℤ m.halalas (pos 0) then neg64 m.halalas else m.halalas in
    let sign = if ltb_ℤ m.halalas (pos 0) then b'-' ∷ [] else [] in
    sign
    ++ (format_int (quot64 abs halalas_per_sar) ++ (b'.' ∷ format_two (rem64 abs halalas_per_sar)))
