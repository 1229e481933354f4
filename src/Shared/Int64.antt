-- ===== src/Shared/Int64.antt =====
-- Go's int64: an integer with the wrap-around of two's complement written out.
use banking_plateform.Base.{ℕ, ◌+◌, ◌-◌, ◌/◌, ◌%◌, ◌^◌, ◌≡◌, ltb, if◌then◌else◌, arith}
use banking_plateform.Base.Int.{ℤ, pos, negsuc, ◌-ℤ◌, ◌≤ℤ◌}

abbrev pub max_int64 : ℤ
max_int64 = pos (2 ^ 63 - 1)

abbrev pub min_int64 : ℤ
min_int64 = negsuc (2 ^ 63 - 1)

-- The values of an int64.
abbrev pub InRange : ℤ → Type 0
InRange a = (min_int64 ≤ℤ a) × (a ≤ℤ max_int64)

-- The int64 with the same residue modulo 2^64.
unfoldable pub wrap64 : ℤ → ℤ
wrap64 (pos n) = let m = n % 2 ^ 64 in if ltb m (2 ^ 63) then pos m else negsuc (2 ^ 64 - 1 - m)
wrap64 (negsuc n) = let m = n % 2 ^ 64 in if ltb m (2 ^ 63) then negsuc m else pos (2 ^ 64 - 1 - m)

-- `-a`
unfoldable pub neg64 : ℤ → ℤ
neg64 a = wrap64 (pos 0 -ℤ a)

-- `a / b` and `a % b` for a positive constant b: Go truncates towards zero.
unfoldable pub quot64 : ℤ → ℕ → ℤ
quot64 (pos n) b = pos (n / b)
quot64 (negsuc n) b = pos 0 -ℤ pos ((n + 1) / b)

unfoldable pub rem64 : ℤ → ℕ → ℤ
rem64 (pos n) b = pos (n % b)
rem64 (negsuc n) b = pos 0 -ℤ pos ((n + 1) % b)

-- In range there is nothing to wrap.
pub wrap64-InRange : (a : ℤ) → InRange a → wrap64 a ≡ a
unfolding wrap64
wrap64-InRange (pos n) h = ground arith
wrap64-InRange (negsuc n) h = ground arith

-- A wrapped value is in range.
pub InRange-wrap64 : (a : ℤ) → InRange (wrap64 a)
unfolding wrap64
InRange-wrap64 (pos n) = ground arith
InRange-wrap64 (negsuc n) = ground arith
