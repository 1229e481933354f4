-- ===== src/Shared/Json.antt =====
-- What the program uses of `encoding/json`: objects whose fields are texts, and bytes that do not
-- decode. The bytes of an encoded object are not modelled.
use banking_plateform.Base.{
  ℕ, ◌+◌, ◌==◌, ◌&&◌, leb, map, Bool, true, false, List, [], ◌∷◌, Str, str_eq, is_empty,
  if◌then◌else◌,
}
use banking_plateform.Shared.Errors.{Result, ok, err, plain}

pub data Json : Type 0 where
  object : List (Str × Str) → Json
  malformed : Str → Json

-- The lower case of the ASCII letters, with the long s and the Kelvin sign, which `encoding/json`
-- takes for letters when it matches names.
abbrev fold_rune : ℕ → ℕ
fold_rune c =
    if c == 383
    then b's'
    else if c == 8490
    then b'k'
    else if leb b'A' c && leb c b'Z'
    then c + 32
    else c

abbrev same_name : Str → Str → Bool
same_name j k = str_eq (map fold_rune j) k

abbrev last_field : Str → Str → List (Str × Str) → Str
last_field found k [] = found
last_field found k ((j, v) ∷ fs) = last_field (if same_name j k then v else found) k fs

-- A field of a struct, by its name in lower case: the last one of that name counts, and the case of
-- its letters does not. A field that is absent is decoded to the empty text.
unfoldable pub field : Str → List (Str × Str) → Str
field k fs = last_field [] k fs

-- `json.Unmarshal`
abbrev pub unmarshal : Json → Result (List (Str × Str))
unmarshal (object fs) = ok fs
unmarshal (malformed s) = err plain

-- `json.Valid`
abbrev pub is_valid_json : Json → Bool
is_valid_json (object fs) = true
is_valid_json (malformed s) = false

-- `len(payload) == 0`
abbrev pub is_empty_json : Json → Bool
is_empty_json (object fs) = false
is_empty_json (malformed s) = is_empty s
