-- ===== src/Shared/Iban/RoundTrip.antt =====
-- The displayed form of an IBAN is read back.
use banking_plateform.Base.{
  ℕ, ◌+◌, ◌%◌, ◌≤◌, ◌≡◌, refl, sym, ap, subst, ◌==◌, true, false, ◌||◌, ◌&&◌, [], ◌∷◌, Str, All,
  ltb, Bool-cases, inl, inr, arith,
}
use banking_plateform.Shared.Errors.{ok}
use banking_plateform.Shared.GoText.{
  Unicode, is_space, trim_left, trim_right, trim_space, remove_all, upper_rune, to_upper, is_digit,
  is_upper, rune_len,
}
use banking_plateform.Shared.Iban.{
  Iban, all_valid, normalize_iban, parse_sa_iban, formatted, format_from,
}
use banking_plateform.Shared.Iban.Reading.{accepted, accepts}

-- What the `unicode` tables say beyond ASCII: a digit or an upper-case letter is its own upper case,
-- and no space.
pub record IsRegular (u : Unicode) : Type 0 where
  pub upper :
      (c : ℕ) → 0x80 ≤ c → (u.is_digit_letter c || u.is_upper_letter c) ≡ true → u.upper c ≡ c
  pub visible :
      (c : ℕ) → 0x80 ≤ c → (u.is_digit_letter c || u.is_upper_letter c) ≡ true → is_space c ≡ false

space_blank : is_space b' ' ≡ true
unfolding is_space
space_blank = refl

trim_nothing : trim_right [] ≡ []
unfolding trim_right
trim_nothing = refl

trim_visible : (c : ℕ) (s : Str) → is_space c ≡ false → trim_right (c ∷ s) ≡ c ∷ trim_right s
unfolding trim_right
trim_visible c s v = rw v refl

trim_blank :
    (c : ℕ) (s : Str) → is_space c ≡ false → trim_right (b' ' ∷ c ∷ s) ≡ b' ' ∷ c ∷ trim_right s
unfolding trim_right is_space
trim_blank c s v = rw v refl

module _ (u : Unicode) (regular : IsRegular u) where
  abbrev IsValid : ℕ → Type 0
  IsValid c = (is_digit u c || is_upper u c) ≡ true

  valid_upper : (c : ℕ) → IsValid c → upper_rune u c ≡ c
  unfolding is_digit is_upper upper_rune
  valid_upper c v = ground (arith, regular.upper c)

  valid_visible : (c : ℕ) → IsValid c → is_space c ≡ false
  unfolding is_digit is_upper is_space
  valid_visible c v = ground (arith, regular.visible c)

  IsValid-chars : (s : Str) → all_valid u s ≡ true → All IsValid s
  unfolding all_valid
  IsValid-chars [] v = tt
  IsValid-chars (c ∷ s) v = (ground arith, IsValid-chars s (ground arith))

  to_upper_valid : (s : Str) → All IsValid s → to_upper u s ≡ s
  unfolding to_upper
  to_upper_valid [] v = refl
  to_upper_valid (c ∷ s) (p, v) = λ i. valid_upper c p i ∷ to_upper_valid s v i

  valid_solid : (c : ℕ) → IsValid c → (c == b' ') ≡ false
  valid_solid c v = elim (Bool-cases (c == b' ')) [
    | inr e ↦ e
    | inl e ↦
        let blank : c ≡ b' ' = ground (arith, e) in
        let space : is_space c ≡ true = subst (λ x. is_space x ≡ true) (sym blank) space_blank in
        let seen = valid_visible c v in cc
  ]

  remove-format : (idx : ℕ) (s : Str) → All IsValid s → remove_all b' ' (format_from idx s) ≡ s
  unfolding remove_all format_from
  remove-format idx [] v = refl
  remove-format idx (c ∷ s) (p, v) =
      let rest = remove-format (idx + rune_len c) s v in
      elim (Bool-cases (ltb 0 idx && idx % 4 == 0)) [
        | inl e ↦ rw (e, valid_solid c p) (ap (λ l. c ∷ l) rest)
        | inr e ↦ rw (e, valid_solid c p) (ap (λ l. c ∷ l) rest)
      ]

  trim-format :
      (idx : ℕ) (s : Str) → All IsValid s → trim_right (format_from idx s) ≡ format_from idx s
  unfolding format_from
  trim-format idx [] v = trim_nothing
  trim-format idx (c ∷ s) (p, v) =
      let rest = trim-format (idx + rune_len c) s v in
      elim (Bool-cases (ltb 0 idx && idx % 4 == 0)) [
        | inl e ↦ rw (e, trim_blank c _ (valid_visible c p)) (ap (λ l. b' ' ∷ c ∷ l) rest)
        | inr e ↦ rw (e, trim_visible c _ (valid_visible c p)) (ap (λ l. c ∷ l) rest)
      ]

  trim_start : (s : Str) → All IsValid s → trim_left (format_from 0 s) ≡ format_from 0 s
  unfolding trim_left format_from
  trim_start [] v = refl
  trim_start (c ∷ s) (p, v) = rw (valid_visible c p) refl

  normalize_formatted :
      (s : Str) → All IsValid s → normalize_iban u (formatted (record { value = s })) ≡ s
  unfolding normalize_iban formatted trim_space
  normalize_formatted s v =
      rw (trim_start s v, trim-format 0 s v, remove-format 0 s v) (to_upper_valid s v)

  -- When `ParseSAIBAN` has returned an IBAN, it reads the grouped form of `Formatted` back as the
  -- same IBAN. Beyond ASCII, the `unicode` tables hold a digit or an upper-case letter for its own
  -- upper case, and for no space.
  pub parse_sa_iban-formatted :
      (raw : Str) (i : Iban) → parse_sa_iban u raw ≡ ok i → parse_sa_iban u (formatted i) ≡ ok i
  parse_sa_iban-formatted raw i e =
      let (_, a) = accepted u raw i e in
      accepts u (formatted i) i (normalize_formatted i.value (IsValid-chars i.value a.valid)) a
