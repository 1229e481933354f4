-- ===== src/Tests/Ibans.antt =====
-- IBANs that are displayed, and mistyped.
use banking_plateform.Shared.Iban.{
  mod97_step, take_bytes, drop_bytes, mod97_from, iban_mod97, all_valid, normalize_iban, Iban,
  parse_sa_iban, formatted,
}
use banking_plateform.Shared.GoText.{
  is_upper, is_digit, has_prefix, trim_space, remove_all, to_upper, byte_len,
}
use banking_plateform.Base.{◌≡◌, refl, text, inr, arith}
use banking_plateform.Shared.Errors.{ok, err, domain, invalid_iban}
use banking_plateform.Shared.Iban.Reading.{slip_refused}
use banking_plateform.Shared.Iban.RoundTrip.{IsRegular, parse_sa_iban-formatted}
use banking_plateform.Tests.Books.{ascii}

abbrev rajhi : Iban
rajhi = record { value = text "SA0380000000608010167519" }

ascii-IsRegular : IsRegular ascii
ascii-IsRegular = record { upper = λ c h e. refl; visible = λ c h e. cc }

parse_sa_iban-formatted_example : parse_sa_iban ascii (formatted rajhi) ≡ ok rajhi
unfolding parse_sa_iban byte_len normalize_iban to_upper remove_all trim_space has_prefix all_valid
    is_digit is_upper iban_mod97 mod97_from drop_bytes take_bytes mod97_step
parse_sa_iban-formatted_example =
    parse_sa_iban-formatted ascii ascii-IsRegular (text " sa03 8000 0000 6080 1016 7519") rajhi refl

-- The last two digits are swapped.
slip_refused_example :
    parse_sa_iban ascii (text "SA0380000000608010167591") ≡ err (domain invalid_iban)
unfolding parse_sa_iban byte_len normalize_iban to_upper remove_all trim_space has_prefix all_valid
    is_digit is_upper iban_mod97 mod97_from drop_bytes take_bytes mod97_step
slip_refused_example =
    slip_refused ascii (text "SA0380000000608010167519") (text "SA0380000000608010167591") rajhi
      refl (omega arith) (inr (22, omega arith, ground arith))
