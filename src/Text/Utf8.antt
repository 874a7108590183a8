-- ===== src/Text/Utf8.antt =====
-- Python's `bytes.decode("utf-8", "surrogateescape")`: a well-formed sequence gives its code point, and
-- any other byte `b` the lone surrogate 0xdc00 + b.
pub mod Encode
use fuddy_duddy.Prelude.{
  ℕ, zero, suc, ◌+◌, ◌-◌, ◌*◌, List, [], ◌∷◌, Bool, ◌&&◌, ltb, leb, ◌==◌, nat_eq, if◌then◌else◌,
}

abbrev pub between : ℕ → ℕ → ℕ → Bool
between lo hi b = leb lo b && leb b hi

abbrev pub continues : ℕ → Bool
continues = between 0x80 0xbf

-- The second byte excludes overlong forms, surrogates and what lies above U+10FFFF.
unfoldable pub second : ℕ → ℕ → Bool
second a b =
    between (if a == 0xe0 then 0xa0 else if a == 0xf0 then 0x90 else 0x80)
      (if a == 0xed then 0x9f else if a == 0xf4 then 0x8f else 0xbf) b

-- The byte at a position; 0, which continues nothing, behind the end.
unfoldable pub byte_at : List ℕ → ℕ → ℕ
byte_at [] i = 0
byte_at (b ∷ bs) zero = b
byte_at (b ∷ bs) (suc i) = byte_at bs i

-- The code point at the head of the input, and how many more bytes it takes.
unfoldable pub head_code : ℕ → ℕ → ℕ → ℕ → ℕ × ℕ
unfolding second
head_code a b c d =
    if ltb a 0x80
    then (a, 0)
    else if between 0xc2 0xdf a && continues b
    then ((a - 0xc0) * 64 + (b - 0x80), 1)
    else if between 0xe0 0xef a && second a b && continues c
    then ((a - 0xe0) * 4096 + (b - 0x80) * 64 + (c - 0x80), 2)
    else if between 0xf0 0xf4 a && second a b && continues c && continues d
    then ((a - 0xf0) * 262144 + (b - 0x80) * 4096 + (c - 0x80) * 64 + (d - 0x80), 3)
    else (0xdc00 + a, 0)

-- The first argument counts the bytes that the code point before has taken.
unfoldable pub decode_from : ℕ → List ℕ → List ℕ
unfolding head_code byte_at
decode_from taken [] = []
decode_from (suc k) (b ∷ bs) = decode_from k bs
decode_from zero (b ∷ bs) =
    let (c, more) = head_code b (byte_at bs 0) (byte_at bs 1) (byte_at bs 2) in
    c ∷ decode_from more bs

unfoldable pub decode : List ℕ → List ℕ
unfolding decode_from
decode = decode_from 0
