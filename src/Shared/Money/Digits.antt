-- ===== src/Shared/Money/Digits.antt =====
-- What a printed number is parsed to.
use banking_plateform.Base.{
  ℕ, zero, suc, ◌+◌, ◌*◌, ◌/◌, ◌%◌, ◌-◌, ◌<◌, ◌≤◌, ◌^◌, ◌≡◌, refl, false, [], ◌∷◌, ◌++◌, Str, text,
  ltb, is_empty, some, arith, All, All-append, Bool-cases, inl, inr,
}
use banking_plateform.Base.Int.{ℤ, pos, ◌+ℤ◌, ◌*ℤ◌}
use banking_plateform.Shared.Errors.{ok}
use banking_plateform.Shared.Int64.{wrap64}
use banking_plateform.Shared.GoText.{
  split_on, byte_len, parse_int, format_two, digits_value, decimal, trim_right, is_space,
}
use banking_plateform.Shared.Money.{Money, sar}
use banking_plateform.Shared.Money.Text.{parse_fraction}

abbrev pub money : ℤ → Money
money z = record { halalas = z; currency = text "SAR" }

pub digits_value-append :
    (n : ℕ) (s t : Str) (m : ℕ)
    → digits_value n s ≡ some m
    → digits_value n (s ++ t) ≡ digits_value m t
unfolding digits_value
digits_value-append n [] t m h = ground arith
digits_value-append n (c ∷ s) t m h =
    ground (arith, digits_value-append (n * 10 + (c - b'0')) s t m)

-- Enough fuel, and the digits stand for the number.
pub digits_value-decimal : (f n : ℕ) → n < f → digits_value 0 (decimal f n) ≡ some n
unfolding decimal digits_value
digits_value-decimal zero n h = elim h [ ]
digits_value-decimal (suc f) n h = ground (
  arith,
  digits_value-append 0 (decimal f (n / 10)) ((b'0' + n % 10) ∷ []) (n / 10),
  digits_value-decimal f (n / 10),
)

abbrev pub IsDigit : ℕ → Type 0
IsDigit c = (b'0' ≤ c) × (c ≤ b'9')

pub All-IsDigit : (f n : ℕ) → n < f → All IsDigit (decimal f n)
unfolding decimal
All-IsDigit zero n h = elim h [ ]
All-IsDigit (suc f) n h =
    ground (
      arith,
      All-append IsDigit (decimal f (n / 10)) ((b'0' + n % 10) ∷ []),
      All-IsDigit f (n / 10),
    )

-- A first digit: `ParseInt` and `take_sign` look at it.
pub decimal_head : (f n : ℕ) → n < f → (c : ℕ) × (s : Str) × (decimal f n ≡ c ∷ s)
unfolding decimal
decimal_head zero n h = elim h [ ]
decimal_head (suc f) n h = elim (Bool-cases (ltb n 10)) [
  | inl small ↦ (b'0' + n, [], ground arith)
  | inr large ↦
      let (c, s, e) = decimal_head f (n / 10) (ground arith) in
      (c, s ++ (b'0' + n % 10) ∷ [], ground arith)
]

pub split_on-digits :
    (s t : Str) → All IsDigit s → split_on b'.' (s ++ b'.' ∷ t) ≡ s ∷ split_on b'.' t
unfolding split_on
split_on-digits [] t h = ground arith
split_on-digits (c ∷ s) t h = ground (arith, split_on-digits s t h.1)

pub split_on-none : (s : Str) → All IsDigit s → split_on b'.' s ≡ s ∷ []
unfolding split_on
split_on-none [] h = refl
split_on-none (c ∷ s) h = ground (arith, split_on-none s h.1)

pub parse_int-digits :
    (s : Str) (n : ℕ)
    → All IsDigit s
    → is_empty s ≡ false
    → digits_value 0 s ≡ some n
    → n < 2 ^ 63
    → parse_int s ≡ ok (pos n)
unfolding parse_int
parse_int-digits [] n h ne e b = ground arith
parse_int-digits (c ∷ s) n h ne e b = ground arith

pub trim_right-snoc :
    (s : Str) (c : ℕ) → is_space c ≡ false → trim_right (s ++ c ∷ []) ≡ s ++ c ∷ []
unfolding trim_right
trim_right-snoc [] c h = ground arith
trim_right-snoc (a ∷ []) c h = ground (arith, trim_right-snoc [] c h)
trim_right-snoc (a ∷ b ∷ s) c h = ground (arith, trim_right-snoc (b ∷ s) c h)

pub decimal_small : (f n : ℕ) → n < 10 → 0 < f → decimal f n ≡ (b'0' + n) ∷ []
unfolding decimal
decimal_small zero n h p = elim p [ ]
decimal_small (suc f) n h p = ground arith

abbrev pub two_digits : ℕ → Str
two_digits h = (b'0' + h / 10) ∷ (b'0' + h % 10) ∷ []

pub format_two_lem : (h : ℕ) → h < 100 → format_two (pos h) ≡ two_digits h
unfolding format_two decimal
format_two_lem h b = ground (arith, decimal_small h (h / 10))

pub parse_fraction-two : (h : ℕ) → h < 100 → parse_fraction (two_digits h) ≡ ok (pos h)
unfolding parse_fraction byte_len parse_int digits_value
parse_fraction-two h b = ground arith

pub sar_exact :
    (r h : ℕ)
    → h < 100
    → r * 100 + h < 2 ^ 63
    → sar (pos r) (pos h) ≡ ok (money (pos (r * 100 + h)))
unfolding sar wrap64 ◌+ℤ◌ ◌*ℤ◌
sar_exact r h b l = ground arith
