-- ===== src/Tests/Wire.antt =====
-- The theorems on the collector's lines, at a few lines.
use fuddy_duddy.Text.{Str}
use fuddy_duddy.Text.{codes}
use fuddy_duddy.Text.Split.{strip_prefix}
use fuddy_duddy.Wire.Parse.{parse_line}
use fuddy_duddy.Wire.Parse.Order.{Reordered, swaps, parse_line-Reordered}
use fuddy_duddy.Wire.Tracer.{line}
use fuddy_duddy.Wire.Tracer.Lines.{IsWord}
use fuddy_duddy.Wire.Tracer.RoundTrip.{IsField}
use fuddy_duddy.Prelude.{refl, inl, All, list_beq}
use fuddy_duddy.Text.Utf8.Encode.{encode}
use fuddy_duddy.Wire.Tracer.Kept.{costs, unescape-IsLongest}
use fuddy_duddy.Prelude.{suc, length, take, ◌<◌, ◌≤◌, ◌⊎◌, ℕ, ◌≡◌, List, [], ◌∷◌, ◌++◌, arith}
use fuddy_duddy.Wire.{ok}
use fuddy_duddy.Wire.Unescape.{unescape}
use fuddy_duddy.Wire.Tracer.{escape}

-- "/a b%", with a space and a byte of a multibyte sequence
abbrev name_bytes : List ℕ
name_bytes = 47 ∷ 97 ∷ 32 ∷ 98 ∷ 37 ∷ 195 ∷ []

-- The buffer ends within the bytes.
unescape-IsLongest_example :
    (text : Str) × (unescape (escape 5 name_bytes) ≡ ok text)
    × ((rest : List ℕ) × (name_bytes ≡ encode text ++ rest)
        × (costs (encode text) < 5)
        × ((rest ≡ []) ⊎ (5 ≤ costs (take (suc (length (encode text))) name_bytes))))
unescape-IsLongest_example = unescape-IsLongest 5 name_bytes (omega arith) (omega arith)

abbrev in_order : List (Str × Str)
in_order = (codes "pid", codes "7") ∷ (codes "ts", codes "12") ∷ (codes "code", codes "0") ∷ []

abbrev ts_first : List (Str × Str)
ts_first = (codes "ts", codes "12") ∷ (codes "pid", codes "7") ∷ (codes "code", codes "0") ∷ []

ts_first-Reordered : Reordered in_order ts_first
unfolding list_beq strip_prefix
ts_first-Reordered = swaps (codes "pid") (codes "7") (codes "ts") (codes "12") refl (inl refl)

in_order-IsField : All IsField in_order
in_order-IsField =
    ((omega arith, omega arith), ((omega arith, omega arith), ((omega arith, omega arith), tt)))

exited-IsWord : IsWord (codes "EXITED")
exited-IsWord = (omega arith, cc)

parse_line-Reordered_example :
    parse_line (line (codes "EXITED") in_order) ≡ parse_line (line (codes "EXITED") ts_first)
parse_line-Reordered_example =
    parse_line-Reordered (codes "EXITED") in_order ts_first exited-IsWord in_order-IsField
      ts_first-Reordered
