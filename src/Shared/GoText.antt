-- ===== src/Shared/GoText.antt =====
-- The functions of Go's `strings`, `strconv`, `unicode` and `fmt` that the program calls, on the
-- code points of a text. ASCII is written out; the tables beyond ASCII are an argument.
use banking_plateform.Base.{
  ℕ, zero, suc, ◌+◌, ◌-◌, ◌*◌, ◌/◌, ◌%◌, ◌^◌, Bool, true, false, ◌&&◌, ◌||◌, Option, none, some,
  List, [], ◌∷◌, ◌++◌, map, Str, ltb, leb, ◌==◌, is_empty, if◌then◌else◌,
}
use banking_plateform.Base.Int.{ℤ, pos, negsuc}
use banking_plateform.Shared.Errors.{Result, ok, err, plain}

-- The `unicode` tables at code points beyond ASCII.
pub record Unicode : Type 0 where
  pub upper : ℕ → ℕ
  pub is_upper_letter : ℕ → Bool
  pub is_digit_letter : ℕ → Bool

-- `unicode.IsSpace`
unfoldable pub is_space : ℕ → Bool
is_space c =
    (leb 9 c && leb c 13)
    || c == 32
    || c == 0x85
    || c == 0xa0
    || c == 0x1680
    || (leb 0x2000 c && leb c 0x200a)
    || c == 0x2028
    || c == 0x2029
    || c == 0x202f
    || c == 0x205f
    || c == 0x3000

unfoldable pub trim_left : Str → Str
trim_left [] = []
trim_left (c ∷ s) = if is_space c then trim_left s else c ∷ s

unfoldable pub trim_right : Str → Str
trim_right [] = []
trim_right (c ∷ s) = let r = trim_right s in if is_space c && is_empty r then [] else c ∷ r

-- `strings.TrimSpace`
unfoldable pub trim_space : Str → Str
unfolding trim_left trim_right is_space
trim_space s = trim_right (trim_left s)

-- `utf8.RuneLen`
unfoldable pub rune_len : ℕ → ℕ
rune_len c = if ltb c 0x80 then 1 else if ltb c 0x800 then 2 else if ltb c 0x10000 then 3 else 4

-- `len(s)`, in bytes
unfoldable pub byte_len : Str → ℕ
unfolding rune_len
byte_len [] = 0
byte_len (c ∷ s) = rune_len c + byte_len s

-- `strings.HasPrefix`
unfoldable pub has_prefix : Str → Str → Bool
has_prefix s [] = true
has_prefix [] (b ∷ p) = false
has_prefix (a ∷ s) (b ∷ p) = a == b && has_prefix s p

abbrev add_to_head : ℕ → List Str → List Str
add_to_head c [] = (c ∷ []) ∷ []
add_to_head c (p ∷ ps) = (c ∷ p) ∷ ps

-- `strings.Split` by one character
unfoldable pub split_on : ℕ → Str → List Str
split_on sep [] = [] ∷ []
split_on sep (c ∷ s) = let ps = split_on sep s in if c == sep then [] ∷ ps else add_to_head c ps

-- `strings.ReplaceAll(s, c, "")` for one character
unfoldable pub remove_all : ℕ → Str → Str
remove_all c [] = []
remove_all c (d ∷ s) = let r = remove_all c s in if d == c then r else d ∷ r

abbrev pub is_ascii_digit : ℕ → Bool
is_ascii_digit c = leb b'0' c && leb c b'9'

unfoldable pub digits_value : ℕ → Str → Option ℕ
digits_value n [] = some n
digits_value n (c ∷ s) = elim (is_ascii_digit c) [
  | true ↦ digits_value (n * 10 + (c - b'0')) s
  | false ↦ none
]

abbrev in_range_pos : Option ℕ → Result ℤ
in_range_pos none = err plain
in_range_pos (some n) = if ltb n (2 ^ 63) then ok (pos n) else err plain

abbrev in_range_neg : Option ℕ → Result ℤ
in_range_neg none = err plain
in_range_neg (some zero) = ok (pos 0)
in_range_neg (some (suc n)) = if ltb n (2 ^ 63) then ok (negsuc n) else err plain

unfoldable pub unsigned : Str → Option ℕ
unfolding digits_value
unsigned [] = none
unsigned (c ∷ s) = digits_value 0 (c ∷ s)

-- `strconv.ParseInt(s, 10, 64)`: syntax and range errors alike.
unfoldable pub parse_int : Str → Result ℤ
unfolding unsigned
parse_int [] = err plain
parse_int (c ∷ s) =
    if c == b'-'
    then in_range_neg (unsigned s)
    else if c == b'+'
    then in_range_pos (unsigned s)
    else in_range_pos (unsigned (c ∷ s))

-- Decimal digits; more fuel than the number is enough.
unfoldable pub decimal : ℕ → ℕ → Str
decimal zero n = []
decimal (suc f) n = elim (ltb n 10) [
  | true ↦ (b'0' + n) ∷ []
  | false ↦ decimal f (n / 10) ++ (b'0' + n % 10) ∷ []
]

-- `fmt.Sprintf("%d", n)`
unfoldable pub format_int : ℤ → Str
unfolding decimal
format_int (pos n) = decimal (suc n) n
format_int (negsuc n) = b'-' ∷ decimal (suc (suc n)) (suc n)

-- `fmt.Sprintf("%02d", n)`
unfoldable pub format_two : ℤ → Str
unfolding format_int
format_two (pos n) = if ltb n 10 then b'0' ∷ format_int (pos n) else format_int (pos n)
format_two (negsuc n) = format_int (negsuc n)

module _ (u : Unicode) where
  -- `unicode.IsDigit`, `unicode.IsUpper`, `unicode.ToUpper`
  unfoldable pub is_digit : ℕ → Bool
  is_digit c = if ltb c 0x80 then is_ascii_digit c else u.is_digit_letter c

  unfoldable pub is_upper : ℕ → Bool
  is_upper c = if ltb c 0x80 then leb b'A' c && leb c b'Z' else u.is_upper_letter c

  unfoldable pub upper_rune : ℕ → ℕ
  upper_rune c = if ltb c 0x80 then (if leb b'a' c && leb c b'z' then c - 32 else c) else u.upper c

  -- `strings.ToUpper`
  unfoldable pub to_upper : Str → Str
  unfolding upper_rune
  to_upper s = map upper_rune s
