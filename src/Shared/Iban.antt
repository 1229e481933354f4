-- ===== src/Shared/Iban.antt =====
-- internal/shared/domain/iban.go: Saudi IBANs.
pub mod Slips
pub mod Reading
pub mod RoundTrip
use banking_plateform.Base.{
  ℕ, zero, suc, ◌+◌, ◌-◌, ◌*◌, ◌/◌, ◌%◌, ◌==◌, Bool, true, not, ◌&&◌, ◌||◌, [], ◌∷◌, ◌++◌, Str,
  text, ltb, if◌then◌else◌,
}
use banking_plateform.Shared.Errors.{Result, ok, domain, invalid_iban, ◌>>◌, fail_if}
use banking_plateform.Shared.GoText.{
  Unicode, trim_space, remove_all, to_upper, byte_len, rune_len, has_prefix, is_digit, is_upper,
  is_ascii_digit,
}

abbrev pub sa_iban_length : ℕ
sa_iban_length = 24

abbrev pub sa_country_code : Str
sa_country_code = text "SA"

pub record Iban : Type 0 where
  pub value : Str

-- Go's decoding of a stray byte.
abbrev rune_error : ℕ
rune_error = 0xfffd

abbrev stray : ℕ → Str
stray zero = []
stray (suc n) = rune_error ∷ stray n

-- `s[:n]` and `s[n:]` by bytes: a character that is cut is decoded byte by byte to `U+FFFD`.
unfoldable pub take_bytes : ℕ → Str → Str
take_bytes n [] = []
take_bytes n (c ∷ s) =
    let rest = take_bytes (n - rune_len c) s in
    if n == 0 then [] else if ltb n (rune_len c) then stray n else c ∷ rest

unfoldable pub drop_bytes : ℕ → Str → Str
drop_bytes n [] = []
drop_bytes n (c ∷ s) =
    let rest = drop_bytes (n - rune_len c) s in
    if n == 0 then c ∷ s else if ltb n (rune_len c) then stray (rune_len c - n) ++ s else rest

-- The body of the loop of `ibanMod97`: a digit, or the two digits of a letter.
unfoldable pub mod97_step : ℕ → ℕ → ℕ
mod97_step remainder r =
    if is_ascii_digit r
    then (remainder * 10 + (r - b'0')) % 97
    else (let val = r - b'A' + 10 in ((remainder * 10 + val / 10) % 97 * 10 + val % 10) % 97)

unfoldable pub mod97_from : ℕ → Str → ℕ
mod97_from remainder [] = remainder
mod97_from remainder (r ∷ s) = mod97_from (mod97_step remainder r) s

unfoldable pub iban_mod97 : Str → ℕ
iban_mod97 iban = mod97_from 0 (drop_bytes 4 iban ++ take_bytes 4 iban)

-- The loop of `Formatted`, at a byte offset.
unfoldable pub format_from : ℕ → Str → Str
format_from idx [] = []
format_from idx (r ∷ s) =
    let rest = format_from (idx + rune_len r) s in
    if ltb 0 idx && idx % 4 == 0 then b' ' ∷ r ∷ rest else r ∷ rest

unfoldable pub formatted : Iban → Str
formatted i = format_from 0 i.value

unfoldable pub bank_code : Iban → Str
bank_code i = if ltb (byte_len i.value) 6 then [] else take_bytes 2 (drop_bytes 4 i.value)

unfoldable pub account_number : Iban → Str
account_number i = if ltb (byte_len i.value) sa_iban_length then [] else drop_bytes 6 i.value

module _ (u : Unicode) where
  unfoldable pub normalize_iban : Str → Str
  normalize_iban raw = to_upper u (remove_all b' ' (trim_space raw))

  unfoldable pub all_valid : Str → Bool
  all_valid [] = true
  all_valid (r ∷ s) = (is_digit u r || is_upper u r) && all_valid s

  -- `ParseSAIBAN`
  unfoldable pub parse_sa_iban : Str → Result Iban
  parse_sa_iban raw =
      let normalized = normalize_iban raw in
      do
        fail_if (not (byte_len normalized == sa_iban_length)) (domain invalid_iban)
        fail_if (not (has_prefix normalized sa_country_code)) (domain invalid_iban)
        fail_if (not (all_valid normalized)) (domain invalid_iban)
        fail_if (not (iban_mod97 normalized == 1)) (domain invalid_iban)
        ok (record { value = normalized })
