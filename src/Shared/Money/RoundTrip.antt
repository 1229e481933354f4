-- ===== src/Shared/Money/RoundTrip.antt =====
-- Parsing what was printed.
use banking_plateform.Base.{
  ℕ, suc, ◌+◌, ◌*◌, ◌/◌, ◌%◌, ◌-◌, ◌<◌, ◌^◌, ◌≡◌, refl, Bool, true, false, [], ◌∷◌, ◌++◌, Str, ◌≢◌,
  ap, subst, arith, All,
}
use banking_plateform.Base.Int.{ℤ, pos, negsuc, ◌-ℤ◌}
use mathlib.Core.List.{append_assoc}
use banking_plateform.Shared.Errors.{ok}
use banking_plateform.Shared.Int64.{neg64, quot64, rem64, InRange, wrap64, min_int64}
use banking_plateform.Shared.GoText.{trim_space, split_on, format_int, decimal, is_space}
use banking_plateform.Shared.Money.{Money, negate, currency_sar}
use banking_plateform.Shared.Money.Text.{
  parse_sar, money_string, parse_part, parse_parts, with_sign,
}
use banking_plateform.Shared.Money.Digits.{
  digits_value-decimal, All-IsDigit, decimal_head, split_on-digits, split_on-none, parse_int-digits,
  trim_right-snoc, format_two_lem, parse_fraction-two, sar_exact, money, IsDigit, two_digits,
}

-- Parsing the two printed parts.
parse_parts-printed :
    (negative : Bool) (r h : ℕ)
    → h < 100
    → r * 100 + h < 2 ^ 63
    → parse_parts negative (split_on b'.' (decimal (suc r) r ++ b'.' ∷ two_digits h))
      ≡ ok (with_sign negative (money (pos (r * 100 + h))))
unfolding parse_parts parse_part
parse_parts-printed negative r h b l =
    let (c, s, e) = decimal_head (suc r) r (omega arith) in
    rw
      (
        split_on-digits (decimal (suc r) r) (two_digits h) (All-IsDigit (suc r) r (omega arith)),
        split_on-none (two_digits h) (omega arith),
      )
      (ground (
        arith,
        parse_int-digits (decimal (suc r) r) r (All-IsDigit (suc r) r (omega arith)) (rw e)
            (digits_value-decimal (suc r) r (omega arith)),
        parse_fraction-two h b,
        sar_exact r h b l,
      ))

trim_space-ends :
    (w u s : Str) (c d : ℕ)
    → w ≡ c ∷ s
    → w ≡ u ++ d ∷ []
    → is_space c ≡ false
    → is_space d ≡ false
    → trim_space w ≡ w
unfolding trim_space
trim_space-ends w u s c d e f h k = ground (arith, trim_right-snoc u d k)

-- What is printed of an amount that is not negative.
printed : ℕ → Str
printed n = decimal (suc (n / 100)) (n / 100) ++ b'.' ∷ two_digits (n % 100)

printed_head : (n : ℕ) → (c : ℕ) × (s : Str) × (printed n ≡ c ∷ s) × IsDigit c
unfolding printed
printed_head n =
    let (c, s, e) = decimal_head (suc (n / 100)) (n / 100) (omega arith) in
    (
      c,
      s ++ b'.' ∷ two_digits (n % 100),
      rw e,
      (subst (All IsDigit) e (All-IsDigit (suc (n / 100)) (n / 100) (omega arith))).0,
    )

digit_not_space : (c : ℕ) → IsDigit c → is_space c ≡ false
unfolding is_space
digit_not_space c h = ground arith

trim_space-printed : (n : ℕ) → trim_space (printed n) ≡ printed n
unfolding printed
trim_space-printed n =
    let (c, s, e, d) = printed_head n in
    trim_space-ends (printed n)
      (decimal (suc (n / 100)) (n / 100) ++ b'.' ∷ (b'0' + n % 100 / 10) ∷ []) s c
      (b'0' + n % 100 % 10) e (rw append_assoc) (digit_not_space c d)
      (digit_not_space _ (omega arith))

trim_space-minus : (n : ℕ) → trim_space (b'-' ∷ printed n) ≡ b'-' ∷ printed n
unfolding printed is_space
trim_space-minus n =
    trim_space-ends (b'-' ∷ printed n)
      (b'-' ∷ decimal (suc (n / 100)) (n / 100) ++ b'.' ∷ (b'0' + n % 100 / 10) ∷ []) (printed n)
      b'-' (b'0' + n % 100 % 10) refl (rw append_assoc) refl
      (digit_not_space (b'0' + n % 100 % 10) (omega arith))

parse_parts-whole :
    (negative : Bool) (n : ℕ)
    → n < 2 ^ 63
    → parse_parts negative (split_on b'.' (printed n)) ≡ ok (with_sign negative (money (pos n)))
unfolding printed
parse_parts-whole negative n h =
    rw (parse_parts-printed negative (n / 100) (n % 100) (omega arith) (omega arith))
      (ap (λ k. ok (with_sign negative (money (pos k)))) (omega arith))

parse_sar-printed : (n : ℕ) → n < 2 ^ 63 → parse_sar (printed n) ≡ ok (money (pos n))
unfolding parse_sar
parse_sar-printed n h =
    let (c, s, e, d) = printed_head n in
    ground (arith, trim_space-printed n, parse_parts-whole false n h)

parse_sar-minus :
    (n : ℕ) → suc n < 2 ^ 63 → parse_sar (b'-' ∷ printed (suc n)) ≡ ok (money (negsuc n))
unfolding parse_sar negate neg64 wrap64 ◌-ℤ◌
parse_sar-minus n h = ground (arith, trim_space-minus (suc n), parse_parts-whole true (suc n) h)

money_string-pos : (n : ℕ) → money_string (money (pos n)) ≡ printed n
unfolding money_string printed quot64 rem64 format_int
money_string-pos n = ground (arith, format_two_lem (n % 100))

money_string-neg :
    (n : ℕ) → n < 2 ^ 63 - 1 → money_string (money (negsuc n)) ≡ b'-' ∷ printed (suc n)
unfolding money_string printed quot64 rem64 format_int neg64 wrap64 ◌-ℤ◌
money_string-neg n h = ground (arith, format_two_lem (suc n % 100))

money_eq : (m : Money) → m.currency ≡ currency_sar → m ≡ money m.halalas
money_eq m c = λ i. record { halalas = m.halalas; currency = c i }

-- Every amount of riyals within int64, but the least int64, is read back by `ParseSAR` from its
-- printed form.
pub parse_sar-money_string :
    (m : Money)
    → m.currency ≡ currency_sar
    → InRange m.halalas
    → m.halalas ≢ min_int64
    → parse_sar (money_string m) ≡ ok m
parse_sar-money_string m c r ne = rw (money_eq m c) (by_sign m.halalas r ne)
  where
    by_sign :
        (z : ℤ) → InRange z → z ≢ min_int64 → parse_sar (money_string (money z)) ≡ ok (money z)
    by_sign (pos n) r ne = rw money_string-pos (parse_sar-printed n (omega arith))
    by_sign (negsuc n) r ne =
        let low : n ≢ 2 ^ 63 - 1 = λ e. ne (ap negsuc e) in
        rw (money_string-neg n (omega arith)) (parse_sar-minus n (omega arith))
