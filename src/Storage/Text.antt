-- ===== src/Storage/Text.antt =====
-- The order of Go's strings and of SQL's text columns, and sets of strings.
use banking_plateform.Base.{
  Bool, true, false, List, [], ◌∷◌, Str, ltb, ◌==◌, str_eq, exists, if◌then◌else◌, ◌||◌, ◌&&◌,
}

unfoldable pub str_ltb : Str → Str → Bool
str_ltb s [] = false
str_ltb [] (b ∷ t) = true
str_ltb (a ∷ s) (b ∷ t) = ltb a b || (a == b && str_ltb s t)

abbrev pub elem : Str → List Str → Bool
elem s l = exists (λ t. str_eq t s) l

-- The distinct members of a list.
unfoldable pub unique : List Str → List Str
unique [] = []
unique (s ∷ l) = let rest = unique l in if elem s rest then rest else s ∷ rest
