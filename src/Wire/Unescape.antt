-- ===== src/Wire/Unescape.antt =====
-- `unescape` of wire.py.
use fuddy_duddy.Prelude.{ℕ, List, [], ◌∷◌, ltb, ◌==◌, nat_eq, if◌then◌else◌}
use fuddy_duddy.Int.{ℤ, pos, negsuc}
use fuddy_duddy.Text.{Str}
use fuddy_duddy.Text.Numeral.{parse_int}
use fuddy_duddy.Text.Utf8
use fuddy_duddy.Wire.{Result, ok, err, bad_int, bad_byte, truncated_escape, ◌>>=◌, or_raise}

-- bytearray.append refuses what is no byte.
unfoldable pub byte : ℤ → Result ℕ
byte (pos n) = if ltb n 256 then ok n else err bad_byte
byte (negsuc n) = err bad_byte

-- int(token[i + 1 : i + 3], 16)
unfoldable pub escaped_byte : ℕ → ℕ → Result ℕ
unfolding byte
escaped_byte h l = do n ← or_raise (parse_int 16 (h ∷ l ∷ [])) bad_int; byte n

-- A byte before the bytes of the rest.
unfoldable pub before : Result ℕ → Result (List ℕ) → Result (List ℕ)
before r rest = do b ← r; bs ← rest; ok (b ∷ bs)

-- The loop over the token, for the bytes that it collects.
unfoldable pub bytes : Str → Result (List ℕ)
unfolding escaped_byte byte before
bytes [] = ok []
bytes (c ∷ []) = if c == b'%' then err truncated_escape else before (byte (pos c)) (ok [])
bytes (c ∷ h ∷ []) =
    let rest = bytes (h ∷ []) in
    if c == b'%' then err truncated_escape else before (byte (pos c)) rest
bytes (c ∷ h ∷ l ∷ s) =
    let skip = bytes s in
    let rest = bytes (h ∷ l ∷ s) in
    if c == b'%' then before (escaped_byte h l) skip else before (byte (pos c)) rest

unfoldable pub unescape : Str → Result Str
unfolding bytes
unescape token = do bs ← bytes token; ok (Utf8.decode bs)
