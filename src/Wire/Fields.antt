-- ===== src/Wire/Fields.antt =====
-- `_fields` of wire.py, and the reads of a field.
use fuddy_duddy.Prelude.{List, [], ◌∷◌, none, some, list_eq}
use fuddy_duddy.Int.{ℤ}
use fuddy_duddy.Text.{Str}
use fuddy_duddy.Text.Numeral.{parse_int}
use fuddy_duddy.Text.Split.{partition}
use fuddy_duddy.Dict.{Dict, lookup, insert}
use fuddy_duddy.Wire.{Result, ok, err, malformed_field, missing_field, bad_int, ◌>>=◌, or_raise}

-- The fields of the tokens behind those that are read already.
unfoldable pub read_fields : Dict Str Str → List Str → Result (Dict Str Str)
unfolding partition
read_fields fields [] = ok fields
read_fields fields (token ∷ tokens) = elim (partition b'=' token) [
  | none ↦ err malformed_field
  | some (key, value) ↦ read_fields (insert key value fields) tokens
]

unfoldable pub fields_of : List Str → Result (Dict Str Str)
unfolding read_fields
fields_of = read_fields []

-- fields[key]
unfoldable pub field : Dict Str Str → Str → Result Str
unfolding lookup
field fields key = or_raise (lookup key fields) missing_field

-- int(s) and int(s, 16)
unfoldable pub int : Str → Result ℤ
int s = or_raise (parse_int 10 s) bad_int

unfoldable pub hex : Str → Result ℤ
hex s = or_raise (parse_int 16 s) bad_int

-- int(fields[key])
unfoldable pub int_field : Dict Str Str → Str → Result ℤ
unfolding field int
int_field fields key = do value ← field fields key; int value
