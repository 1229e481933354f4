-- ===== src/Shared/Money/Range.antt =====
-- What `ParseSAR` and `SAR` return beyond the printed amounts.
use banking_plateform.Base.{
  ℕ, ◌+◌, ◌*◌, ◌<◌, ◌≤◌, ◌^◌, ◌≡◌, ◌≢◌, Bool, true, false, List, [], ◌∷◌, Str, inl, inr, subst,
  arith,
}
use banking_plateform.Base.Int.{ℤ, pos, ◌+ℤ◌, ◌*ℤ◌}
use banking_plateform.Shared.Errors as Errors
use banking_plateform.Shared.Errors.{Error, Result, ok, err, Result-cases}
use banking_plateform.Shared.Int64.{InRange, wrap64, InRange-wrap64, neg64}
use banking_plateform.Shared.GoText.{split_on, trim_space}
use banking_plateform.Shared.Money.{Money, sar, negate, currency_sar}
use banking_plateform.Shared.Money.Text.{
  parse_sar, parse_parts, parse_part, parse_fraction, take_sign, with_sign,
}

-- A riyal amount within int64.
pub record IsRiyals (m : Money) : Type 0 where
  pub currency : m.currency ≡ currency_sar
  pub range : InRange m.halalas

sar-IsRiyals : (r h : ℤ) (m : Money) → sar r h ≡ ok m → IsRiyals m
unfolding sar
sar-IsRiyals r h m e = ground (arith, InRange-wrap64 (wrap64 (r *ℤ pos 100) +ℤ h))

with_sign-IsRiyals : (s : Bool) (m : Money) → IsRiyals m → IsRiyals (with_sign s m)
unfolding negate neg64
with_sign-IsRiyals true m h = record { currency = h.currency; range = InRange-wrap64 _ }
with_sign-IsRiyals false m h = h

signed_sar-IsRiyals :
    (s : Bool) (r h : ℤ) (m : Money)
    → Errors.◌>>=◌ (sar r h) (λ n. ok (with_sign s n)) ≡ ok m
    → IsRiyals m
signed_sar-IsRiyals s r h m e = elim (Result-cases (sar r h)) [
  | inl (n, q) ↦ subst IsRiyals (ground arith) (with_sign-IsRiyals s n (sar-IsRiyals r h n q))
  | inr (x, q) ↦ ground arith
]

parse_parts-IsRiyals :
    (s : Bool) (parts : List Str) (m : Money) → parse_parts s parts ≡ ok m → IsRiyals m
unfolding parse_parts
parse_parts-IsRiyals s [] m e = cc
parse_parts-IsRiyals s (w ∷ []) m e = elim (Result-cases (parse_part w)) [
  | inl (r, q) ↦ signed_sar-IsRiyals s r (pos 0) m (ground arith)
  | inr (x, q) ↦ ground arith
]
parse_parts-IsRiyals s (w ∷ f ∷ []) m e = elim (Result-cases (parse_part w)) [
  | inr (x, q) ↦ ground arith
  | inl (r, q) ↦ elim (Result-cases (parse_fraction f)) [
    | inl (h, p) ↦ signed_sar-IsRiyals s r h m (ground arith)
    | inr (x, p) ↦ ground arith
  ]
]
parse_parts-IsRiyals s (w ∷ f ∷ g ∷ more) m e = cc

-- Whatever text it is given, an amount that `ParseSAR` returns is one of riyals within int64.
pub parse_sar-IsRiyals : (s : Str) (m : Money) → parse_sar s ≡ ok m → IsRiyals m
unfolding parse_sar
parse_sar-IsRiyals s m e =
    let v = trim_space s in
    parse_parts-IsRiyals (take_sign v).0 (split_on b'.' (take_sign v).1) m (ground arith)

-- `SAR` accepts every amount of whole riyals within int64 and of less than a hundred halalas that
-- does not fit an int64 in all, with no error, and returns another amount.
pub sar_wraps :
    (r h : ℕ)
    → r < 2 ^ 63
    → h < 100
    → 2 ^ 63 ≤ r * 100 + h
    → (m : Money) × (sar (pos r) (pos h) ≡ ok m) × (m.halalas ≢ pos (r * 100 + h))
unfolding sar
sar_wraps r h b l o =
    let total = wrap64 (wrap64 (pos r *ℤ pos 100) +ℤ pos h) in
    (
      record { halalas = total; currency = currency_sar },
      ground arith,
      λ e. out_of_range (subst InRange e (InRange-wrap64 (wrap64 (pos r *ℤ pos 100) +ℤ pos h))),
    )
  where
    out_of_range : InRange (pos (r * 100 + h)) → ⊥
    out_of_range q = omega arith
