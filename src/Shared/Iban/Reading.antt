-- ===== src/Shared/Iban/Reading.antt =====
-- What `ParseSAIBAN` accepts.
use banking_plateform.Base.{
  ℕ, zero, suc, ◌<◌, ◌≡◌, ◌≢◌, ◌⊎◌, inl, inr, refl, sym, subst, ◌∙◌, true, [], ◌∷◌, Str, All,
  All-append, All-take, All-drop, take, drop, arith,
}
use banking_plateform.Shared.Errors.{ok, err, domain, invalid_iban}
use banking_plateform.Shared.GoText.{Unicode, is_digit, is_upper, rune_len, byte_len, has_prefix}
use banking_plateform.Shared.Iban.{
  Iban, mod97_from, iban_mod97, take_bytes, drop_bytes, all_valid, normalize_iban, parse_sa_iban,
  sa_iban_length, sa_country_code,
}
use banking_plateform.Shared.Iban.Slips.{
  IsSign, OneWrong, SwappedAt, moved, OneWrong-differs, swapped_differs, moved_wrong, moved-Swapped,
}

-- The normal form of what is accepted passes the four tests, and is the value.
pub record Accepted (u : Unicode) (normal : Str) : Type 0 where
  pub size : byte_len normal ≡ sa_iban_length
  pub country : has_prefix normal sa_country_code ≡ true
  pub valid : all_valid u normal ≡ true
  pub check : iban_mod97 normal ≡ 1

module _ (u : Unicode) where
  pub accepted :
      (raw : Str) (i : Iban)
      → parse_sa_iban u raw ≡ ok i
      → (i.value ≡ normalize_iban u raw) × Accepted u i.value
  unfolding parse_sa_iban
  accepted raw i e = ground arith

  pub accepts :
      (raw : Str) (i : Iban)
      → normalize_iban u raw ≡ i.value
      → Accepted u i.value
      → parse_sa_iban u raw ≡ ok i
  unfolding parse_sa_iban
  accepts raw i e a = ground arith

  refuses :
      (raw : Str)
      → iban_mod97 (normalize_iban u raw) ≢ 1
      → parse_sa_iban u raw ≡ err (domain invalid_iban)
  unfolding parse_sa_iban
  refuses raw n = ground arith

abbrev IsAscii : Str → Type 0
IsAscii s = All (λ c. c < 0x80) s

take_ascii : (n : ℕ) (s : Str) → IsAscii s → take_bytes n s ≡ take n s
unfolding take_bytes rune_len
take_ascii zero [] a = refl
take_ascii (suc n) [] a = refl
take_ascii zero (c ∷ s) a = refl
take_ascii (suc n) (c ∷ s) (p, a) = ground (arith, take_ascii n s a)

drop_ascii : (n : ℕ) (s : Str) → IsAscii s → drop_bytes n s ≡ drop n s
unfolding drop_bytes rune_len
drop_ascii zero [] a = refl
drop_ascii (suc n) [] a = refl
drop_ascii zero (c ∷ s) a = refl
drop_ascii (suc n) (c ∷ s) (p, a) = ground (arith, drop_ascii n s a)

mod97_ascii : (s : Str) → IsAscii s → iban_mod97 s ≡ mod97_from 0 (moved s)
unfolding iban_mod97
mod97_ascii s a = rw (take_ascii 4 s a, drop_ascii 4 s a) refl

signs : (u : Unicode) (s : Str) → IsAscii s → all_valid u s ≡ true → All IsSign s
unfolding all_valid is_digit is_upper
signs u [] a v = tt
signs u (c ∷ s) (p, a) v = (ground arith, signs u s a (ground arith))

moved-All : (P : ℕ → Type 0) (s : Str) → All P s → All P (moved s)
moved-All P s a = All-append P (drop 4 s) (take 4 s) (All-drop P 4 s a) (All-take P 4 s a)

wrong-IsAscii : (s t : Str) → OneWrong s t → IsAscii s → IsAscii t
wrong-IsAscii [] t o a = absurd o
wrong-IsAscii (c ∷ s) [] o a = tt
wrong-IsAscii (c ∷ s) (d ∷ t) (inl ((n, w), same)) (p, a) =
    (ground (arith, w), subst IsAscii same a)
wrong-IsAscii (c ∷ s) (d ∷ t) (inr (same, o)) (p, a) =
    (subst (λ x. x < 0x80) same p, wrong-IsAscii s t o a)

swapped-IsAscii : (k : ℕ) (s t : Str) → SwappedAt k s t → IsAscii s → IsAscii t
swapped-IsAscii zero (c ∷ d ∷ s) (d' ∷ c' ∷ t) (n, _, _, ec, ed, same) (p, (q, a)) =
    (subst (λ x. x < 0x80) (sym ed) q, (subst (λ x. x < 0x80) (sym ec) p, subst IsAscii same a))
swapped-IsAscii (suc k) (c ∷ s) (d ∷ t) (same, w) (p, a) =
    (subst (λ x. x < 0x80) same p, swapped-IsAscii k s t w a)
swapped-IsAscii _ _ _ w a = absurd w

-- One character is wrong, a digit for a digit or a letter for a letter, or two digits that differ
-- are swapped, but not the fourth character with the fifth.
abbrev pub IsSlip : Str → Str → Type 0
IsSlip s t = OneWrong s t ⊎ ((k : ℕ) × (k ≢ 3) × SwappedAt k s t)

slip-IsAscii : (s t : Str) → IsSlip s t → IsAscii s → IsAscii t
slip-IsAscii s t (inl o) a = wrong-IsAscii s t o a
slip-IsAscii s t (inr (k, _, w)) a = swapped-IsAscii k s t w a

slip_differs :
    (s t : Str) → All IsSign s → IsSlip s t → mod97_from 0 (moved s) ≢ mod97_from 0 (moved t)
slip_differs s t h (inl o) =
    OneWrong-differs 0 (moved s) (moved t) (moved-All IsSign s h) (omega arith) (moved_wrong s t o)
slip_differs s t h (inr (k, apart, w)) =
    let (j, v) = moved-Swapped k s t apart w in
    swapped_differs j 0 (moved s) (moved t) (moved-All IsSign s h) v

-- When the normal form of a text differs from an accepted ASCII IBAN by one wrong character, a
-- digit for a digit or a letter for a letter, or by two different adjacent digits that are swapped,
-- other than the fourth and the fifth character, `ParseSAIBAN` refuses it with the code for an
-- invalid IBAN.
pub slip_refused :
    (u : Unicode) (raw typed : Str) (i : Iban)
    → parse_sa_iban u raw ≡ ok i
    → All (λ c. c < 0x80) i.value
    → IsSlip i.value (normalize_iban u typed)
    → parse_sa_iban u typed ≡ err (domain invalid_iban)
slip_refused u raw typed i e a slip =
    let t = normalize_iban u typed in
    let (_, p) = accepted u raw i e in
    let differs = slip_differs i.value t (signs u i.value a p.valid) slip in
    refuses u typed λ one. differs (
      sym (mod97_ascii i.value a)
      ∙ p.check
      ∙ sym one
      ∙ mod97_ascii t (slip-IsAscii i.value t slip a))
