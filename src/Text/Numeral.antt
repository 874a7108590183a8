-- ===== src/Text/Numeral.antt =====
-- Python's `int(s)` and `int(s, 16)` on a text of ASCII characters without white space: a sign, the
-- prefix `0x` to base 16, and digits that single underscores may separate. `none` is a `ValueError`.
pub mod RoundTrip
pub mod Length
use mathlib.Core.Option
use fuddy_duddy.Prelude.{
  ℕ, ◌+◌, ◌-◌, ◌*◌, List, [], ◌∷◌, Bool, true, false, not, ◌&&◌, ◌||◌, Option, none, some, ltb, leb,
  ◌==◌, nat_eq, if◌then◌else◌,
}
use fuddy_duddy.Int.{ℤ, pos, negate}

-- The value of a digit, capital or not.
unfoldable pub digit_value : ℕ → Option ℕ
digit_value c =
    if leb b'0' c && leb c b'9'
    then some (c - b'0')
    else if leb b'a' c && leb c b'z'
    then some (c - b'a' + 10)
    else if leb b'A' c && leb c b'Z'
    then some (c - b'A' + 10)
    else none

unfoldable pub digit_in : ℕ → ℕ → Option ℕ
unfolding digit_value
digit_in base c = elim (digit_value c) [
  | none ↦ none
  | some d ↦ if ltb d base then some d else none
]

-- Digits behind the value `n`. `wants` says that a digit has to come next: at the start, and behind
-- an underscore.
unfoldable pub scan : ℕ → Bool → ℕ → List ℕ → Option ℕ
unfolding digit_in
scan base true n [] = none
scan base false n [] = some n
scan base wants n (c ∷ s) =
    let underscore = scan base true n s in
    elim (digit_in base c) [
      | some d ↦ scan base false (n * base + d) s
      | none ↦ if c == b'_' && not wants then underscore else none
    ]

-- The prefix of base 16, with the one underscore that may follow it.
unfoldable pub skip_prefix : List ℕ → List ℕ
skip_prefix (z ∷ x ∷ u ∷ s) =
    if z == b'0' && (x == b'x' || x == b'X')
    then (if u == b'_' then s else u ∷ s)
    else z ∷ x ∷ u ∷ s
skip_prefix (z ∷ x ∷ []) = if z == b'0' && (x == b'x' || x == b'X') then [] else z ∷ x ∷ []
skip_prefix s = s

-- int(s, base) behind the sign.
unfoldable pub parse_ℕ : ℕ → List ℕ → Option ℕ
parse_ℕ base s = scan base true 0 (if base == 16 then skip_prefix s else s)

unfoldable pub parse_int : ℕ → List ℕ → Option ℤ
parse_int base [] = none
parse_int base (c ∷ s) =
    if c == b'-'
    then Option.map (λ n. negate (pos n)) (parse_ℕ base s)
    else if c == b'+'
    then Option.map pos (parse_ℕ base s)
    else Option.map pos (parse_ℕ base (c ∷ s))
