-- ===== src/Shared/Iban/Slips.antt =====
-- The check digits of an IBAN find a wrong character, and two digits that are swapped.
use banking_plateform.Base.{
  ℕ, zero, suc, ◌<◌, ◌≡◌, ◌≢◌, ◌⊎◌, inl, inr, refl, sym, ap, subst, ◌∙◌, Bool, true, [], ◌∷◌, ◌++◌,
  Str, All, take, drop, leb, arith, ◌&&◌,
}
use banking_plateform.Shared.GoText.{is_ascii_digit}
use banking_plateform.Shared.Iban.{mod97_step, mod97_from}

abbrev pub is_letter : ℕ → Bool
is_letter c = leb b'A' c && leb c b'Z'

-- A digit for another digit, or a letter for another letter.
abbrev pub Wrong : ℕ → ℕ → Type 0
Wrong c d =
    (c ≢ d)
    × ((is_ascii_digit c ≡ true) × (is_ascii_digit d ≡ true)
        ⊎ (is_letter c ≡ true) × (is_letter d ≡ true))

-- The texts differ in one character.
abbrev pub OneWrong : Str → Str → Type 0
OneWrong [] ys = ⊥
OneWrong (c ∷ xs) [] = ⊥
OneWrong (c ∷ xs) (d ∷ ys) = Wrong c d × (xs ≡ ys) ⊎ (c ≡ d) × OneWrong xs ys

-- What a step of the check reads: a digit or a letter.
abbrev pub IsSign : ℕ → Type 0
IsSign c = (is_ascii_digit c ≡ true) ⊎ (is_letter c ≡ true)

step_bounded : (a c : ℕ) → mod97_step a c < 97
unfolding mod97_step
step_bounded a c = ground arith

step_injective : (a b c : ℕ) → IsSign c → a < 97 → b < 97 → mod97_step a c ≡ mod97_step b c → a ≡ b
unfolding mod97_step
step_injective a b c h p q e = ground arith

step_tells : (a c d : ℕ) → Wrong c d → mod97_step a c ≢ mod97_step a d
unfolding mod97_step
step_tells a c d h e = ground arith

steps_tell_swap :
    (a c d : ℕ)
    → is_ascii_digit c ≡ true
    → is_ascii_digit d ≡ true
    → c ≢ d
    → mod97_step (mod97_step a c) d ≢ mod97_step (mod97_step a d) c
unfolding mod97_step
steps_tell_swap a c d h k n e = ground arith

-- Two remainders that differ stay different.
from_differs :
    (a b : ℕ) (xs : Str)
    → All IsSign xs
    → a < 97
    → b < 97
    → a ≢ b
    → mod97_from a xs ≢ mod97_from b xs
unfolding mod97_from
from_differs a b [] h p q n e = n e
from_differs a b (c ∷ xs) (s, h) p q n e =
    from_differs (mod97_step a c) (mod97_step b c) xs h (step_bounded a c) (step_bounded b c)
      (λ e'. n (step_injective a b c s p q e')) e

pub OneWrong-differs :
    (a : ℕ) (xs ys : Str)
    → All IsSign xs
    → a < 97
    → OneWrong xs ys
    → mod97_from a xs ≢ mod97_from a ys
unfolding mod97_from
OneWrong-differs a [] ys h p o e = o
OneWrong-differs a (c ∷ xs) [] h p o e = o
OneWrong-differs a (c ∷ xs) (d ∷ ys) (s, h) p (inl (w, same)) e =
    from_differs (mod97_step a c) (mod97_step a d) xs h (step_bounded a c) (step_bounded a d)
      (step_tells a c d w) (e ∙ ap (mod97_from (mod97_step a d)) (sym same))
OneWrong-differs a (c ∷ xs) (d ∷ ys) (s, h) p (inr (same, o)) e =
    OneWrong-differs (mod97_step a c) xs ys h (step_bounded a c) o
      (e ∙ ap (λ x. mod97_from (mod97_step a x) ys) (sym same))

-- The texts differ in the order of two digits, the first of them at position `k`.
abbrev pub SwappedAt : ℕ → Str → Str → Type 0
SwappedAt zero (c ∷ d ∷ xs) (d' ∷ c' ∷ ys) =
    (c ≢ d)
    × (is_ascii_digit c ≡ true)
    × (is_ascii_digit d ≡ true)
    × (c' ≡ c)
    × (d' ≡ d)
    × (xs ≡ ys)
SwappedAt (suc k) (c ∷ xs) (d ∷ ys) = (c ≡ d) × SwappedAt k xs ys
SwappedAt _ _ _ = ⊥

pub swapped_differs :
    (k a : ℕ) (xs ys : Str) → All IsSign xs → SwappedAt k xs ys → mod97_from a xs ≢ mod97_from a ys
unfolding mod97_from
swapped_differs zero a (c ∷ d ∷ xs) (d' ∷ c' ∷ ys) (_, (_, h)) (n, p, q, ec, ed, same) e =
    from_differs (mod97_step (mod97_step a c) d) (mod97_step (mod97_step a d) c) xs h
      (step_bounded (mod97_step a c) d) (step_bounded (mod97_step a d) c)
      (steps_tell_swap a c d p q n)
      (e
        ∙ ap (λ x. mod97_from (mod97_step (mod97_step a x) c') ys) ed
        ∙ ap (λ x. mod97_from (mod97_step (mod97_step a d) x) ys) ec
        ∙ ap (mod97_from (mod97_step (mod97_step a d) c)) (sym same))
swapped_differs (suc k) a (c ∷ xs) (d ∷ ys) (_, h) (same, w) e =
    swapped_differs k (mod97_step a c) xs ys h w
      (e ∙ ap (λ x. mod97_from (mod97_step a x) ys) (sym same))
swapped_differs _ a _ _ h w e = w

-- The check moves the first four characters behind the others: so do both relations.
abbrev pub moved : Str → Str
moved xs = drop 4 xs ++ take 4 xs

wrong_before : (xs ys zs : Str) → OneWrong xs ys → OneWrong (xs ++ zs) (ys ++ zs)
wrong_before [] ys zs o = absurd o
wrong_before (c ∷ xs) [] zs o = absurd o
wrong_before (c ∷ xs) (d ∷ ys) zs (inl (w, same)) = inl (w, ap (λ l. l ++ zs) same)
wrong_before (c ∷ xs) (d ∷ ys) zs (inr (same, o)) = inr (same, wrong_before xs ys zs o)

wrong_behind : (zs xs ys : Str) → OneWrong xs ys → OneWrong (zs ++ xs) (zs ++ ys)
wrong_behind [] xs ys o = o
wrong_behind (z ∷ zs) xs ys o = inr (refl, wrong_behind zs xs ys o)

wrong_split :
    (n : ℕ) (xs ys : Str)
    → OneWrong xs ys
    → OneWrong (take n xs) (take n ys) × (drop n xs ≡ drop n ys)
      ⊎ (take n xs ≡ take n ys) × OneWrong (drop n xs) (drop n ys)
wrong_split zero xs ys o = inr (refl, o)
wrong_split (suc n) [] ys o = absurd o
wrong_split (suc n) (c ∷ xs) [] o = absurd o
wrong_split (suc n) (c ∷ xs) (d ∷ ys) (inl (w, same)) =
    inl (inl (w, ap (take n) same), ap (drop n) same)
wrong_split (suc n) (c ∷ xs) (d ∷ ys) (inr (same, o)) = elim (wrong_split n xs ys o) [
  | inl (p, q) ↦ inl (inr (same, p), q)
  | inr (p, q) ↦ inr ((λ i. same i ∷ p i), q)
]

pub moved_wrong : (xs ys : Str) → OneWrong xs ys → OneWrong (moved xs) (moved ys)
moved_wrong xs ys o = elim (wrong_split 4 xs ys o) [
  | inl (p, q) ↦
      subst (λ l. OneWrong (moved xs) (l ++ take 4 ys)) q
        (wrong_behind (drop 4 xs) (take 4 xs) (take 4 ys) p)
  | inr (p, q) ↦
      subst (λ l. OneWrong (moved xs) (drop 4 ys ++ l)) p
        (wrong_before (drop 4 xs) (drop 4 ys) (take 4 xs) q)
]

abbrev pub Swapped : Str → Str → Type 0
Swapped xs ys = (k : ℕ) × SwappedAt k xs ys

swapped_before : (k : ℕ) (xs ys zs : Str) → SwappedAt k xs ys → SwappedAt k (xs ++ zs) (ys ++ zs)
swapped_before zero (c ∷ d ∷ xs) (d' ∷ c' ∷ ys) zs (n, p, q, ec, ed, same) =
    (n, p, q, ec, ed, ap (λ l. l ++ zs) same)
swapped_before (suc k) (c ∷ xs) (d ∷ ys) zs (same, w) = (same, swapped_before k xs ys zs w)
swapped_before _ _ _ zs w = absurd w

Swapped-behind : (zs xs ys : Str) → Swapped xs ys → Swapped (zs ++ xs) (zs ++ ys)
Swapped-behind [] xs ys w = w
Swapped-behind (z ∷ zs) xs ys w = let (k, s) = Swapped-behind zs xs ys w in (suc k, (refl, s))

Swapped-split :
    (n k : ℕ) (xs ys : Str)
    → suc k ≢ n
    → SwappedAt k xs ys
    → SwappedAt k (take n xs) (take n ys) × (drop n xs ≡ drop n ys)
      ⊎ (take n xs ≡ take n ys) × Swapped (drop n xs) (drop n ys)
Swapped-split zero k xs ys apart w = inr (refl, (k, w))
Swapped-split (suc zero) zero (c ∷ d ∷ xs) (d' ∷ c' ∷ ys) apart w = absurd (apart refl)
Swapped-split (suc (suc n)) zero (c ∷ d ∷ xs) (d' ∷ c' ∷ ys) apart (ne, p, q, ec, ed, same) =
    inl ((ne, p, q, ec, ed, ap (take n) same), ap (drop n) same)
Swapped-split (suc n) (suc k) (c ∷ xs) (d ∷ ys) apart (same, w) =
    elim (Swapped-split n k xs ys (λ e. apart (ap suc e)) w) [
      | inl (p, q) ↦ inl ((same, p), q)
      | inr (p, q) ↦ inr ((λ i. same i ∷ p i), q)
    ]
Swapped-split (suc n) _ _ _ apart w = absurd w

pub moved-Swapped :
    (k : ℕ) (xs ys : Str) → k ≢ 3 → SwappedAt k xs ys → Swapped (moved xs) (moved ys)
moved-Swapped k xs ys apart w = elim (Swapped-split 4 k xs ys (λ e. apart (omega (arith, e))) w) [
  | inl (p, q) ↦
      subst (λ l. Swapped (moved xs) (l ++ take 4 ys)) q
        (Swapped-behind (drop 4 xs) (take 4 xs) (take 4 ys) (k, p))
  | inr (p, q) ↦
      subst (λ l. Swapped (moved xs) (drop 4 ys ++ l)) p
        (q.0, swapped_before q.0 (drop 4 xs) (drop 4 ys) (take 4 xs) q.1)
]
