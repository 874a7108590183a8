-- ===== src/Text.antt =====
-- Python's `str` as the list of its code points, so that the lone surrogates which a decoded path may
-- hold are there too. The printing of numbers is that of `str(n)` and of the format `:x`.
pub mod Numeral
pub mod Strip
pub mod Split
pub mod Utf8
use Prim.Native.Char.{code}
use Prim.Native.String.{String}
use fuddy_duddy.Prelude.{ℕ, zero, suc, ◌+◌, ◌/◌, ◌%◌, List, [], ◌∷◌, Bool, ltb, ◌==◌, if◌then◌else◌}
use fuddy_duddy.Int.{ℤ, pos, negsuc}

abbrev pub Str : Type 0
Str = List ℕ

-- The code points of a literal.
abbrev pub codes : String → Str
codes String.[] = []
codes (String.◌∷◌ c s) = code c ∷ codes s

-- `a` is ten.
unfoldable pub digit_char : ℕ → ℕ
digit_char d = if ltb d 10 then 48 + d else 87 + d

-- The digits of `n` to a base, before `out`. A round for each digit: `n` rounds are enough.
unfoldable pub digits : ℕ → ℕ → ℕ → Str → Str
digits base zero n out = digit_char (n % base) ∷ out
digits base (suc fuel) n out =
    let rest = digits base fuel (n / base) (digit_char (n % base) ∷ out) in
    if ltb n base then digit_char n ∷ out else rest

-- str(n)
unfoldable pub print_ℕ : ℕ → Str
unfolding digits digit_char
print_ℕ n = digits 10 n n []

unfoldable pub print_ℤ : ℤ → Str
unfolding print_ℕ
print_ℤ (pos n) = print_ℕ n
print_ℤ (negsuc n) = b'-' ∷ print_ℕ (suc n)

-- f"{n:x}"
unfoldable pub print_hex : ℕ → Str
unfolding digits digit_char
print_hex n = digits 16 n n []
