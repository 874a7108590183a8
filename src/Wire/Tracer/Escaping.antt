-- ===== src/Wire/Tracer/Escaping.antt =====
-- `unescape` on what the collector has escaped.
use fuddy_duddy.Prelude.{
  ℕ, ◌-◌, ◌*◌, ◌/◌, ◌%◌, ◌<◌, ◌≡◌, refl, ap, false, List, [], ◌∷◌, ◌++◌, length, All, if_cases,
  if_intro, leb, ◌==◌, nat_eq, arith,
}
use fuddy_duddy.Text.{Str, digit_char}
use fuddy_duddy.Text.Numeral.RoundTrip.{parse_int-two_digits}
use fuddy_duddy.Text.Utf8
use fuddy_duddy.Wire.{ok}
use fuddy_duddy.Wire.Unescape.{escaped_byte, bytes, unescape}
use fuddy_duddy.Wire.Tracer.{is_special, escape}

abbrev pub IsByte : ℕ → Type 0
IsByte b = b < 256

escaped_byte_lem :
    (c : ℕ) → IsByte c → escaped_byte (digit_char (c / 16)) (digit_char (c % 16)) ≡ ok c
unfolding escaped_byte
escaped_byte_lem c h =
    rw (parse_int-two_digits (c / 16) (c % 16) (omega arith) (omega arith)) (ground arith)

pub bytes_quoted :
    (c : ℕ) (s : Str) (bs : List ℕ)
    → IsByte c
    → bytes s ≡ ok bs
    → bytes (b'%' ∷ digit_char (c / 16) ∷ digit_char (c % 16) ∷ s) ≡ ok (c ∷ bs)
unfolding bytes
bytes_quoted c s bs h e = rw (escaped_byte_lem c h, e)

pub bytes_plain :
    (c : ℕ) (s : Str) (bs : List ℕ)
    → IsByte c
    → (c == b'%') ≡ false
    → bytes s ≡ ok bs
    → bytes (c ∷ s) ≡ ok (c ∷ bs)
unfolding bytes
bytes_plain c [] bs h n e = ground arith
bytes_plain c (x ∷ []) bs h n e = ground arith
bytes_plain c (x ∷ y ∷ s) bs h n e = ground arith

pub plain_char : (c : ℕ) → is_special c ≡ false → (c == b'%') ≡ false
unfolding is_special
plain_char c h = ground arith

-- Where the buffer has room for the escapes of all bytes, every byte is read back.
bytes-escape :
    (room : ℕ) (bs : List ℕ) → All IsByte bs → 3 * length bs < room → bytes (escape room bs) ≡ ok bs
unfolding escape
bytes-escape room [] h fits = unfold bytes in refl
bytes-escape room (c ∷ bs) (h, hs) fits =
    if_cases (λ s. bytes s ≡ ok (c ∷ bs)) (is_special c) _ _
      (λ special.
        if_cases (λ s. bytes s ≡ ok (c ∷ bs)) (leb room 3) _ _ (λ full. absurd (ground arith))
          (λ _.
            bytes_quoted c (escape (room - 3) bs) bs h
              (bytes-escape (room - 3) bs hs (omega arith))))
      (λ plain.
        if_cases (λ s. bytes s ≡ ok (c ∷ bs)) (leb room 1) _ _ (λ full. absurd (ground arith))
          (λ _.
            bytes_plain c (escape (room - 1) bs) bs h (plain_char c plain)
              (bytes-escape (room - 1) bs hs (omega arith))))

-- What is read back when the buffer is short: a prefix of the bytes, never an error.
ReadsPrefix : List ℕ → Str → Type 0
ReadsPrefix bs s = (p : List ℕ) × (q : List ℕ) × (bs ≡ p ++ q) × (bytes s ≡ ok p)

-- Whatever the room of the buffer, the bytes that `unescape` collects from the collector's escape
-- of a string of bytes are a prefix of that string, and there is no error.
pub escape-ReadsPrefix :
    (room : ℕ) (bs : List ℕ)
    → All IsByte bs
    → (p : List ℕ) × (q : List ℕ) × (bs ≡ p ++ q) × (bytes (escape room bs) ≡ ok p)
unfolding escape ReadsPrefix
escape-ReadsPrefix room [] h = ([], [], refl, unfold bytes in refl)
escape-ReadsPrefix room (c ∷ bs) (h, hs) =
    let cut : ReadsPrefix (c ∷ bs) [] = ([], c ∷ bs, refl, unfold bytes in refl) in
    let (p, q, split, quoted) = escape-ReadsPrefix (room - 3) bs hs in
    let (p', q', split', plain) = escape-ReadsPrefix (room - 1) bs hs in
    if_cases (ReadsPrefix (c ∷ bs)) (is_special c) _ _
      (λ special.
        if_intro (ReadsPrefix (c ∷ bs)) (leb room 3) _ _ cut
          (c ∷ p, q, ap (λ l. c ∷ l) split, bytes_quoted c (escape (room - 3) bs) p h quoted))
      (λ ordinary. if_intro (ReadsPrefix (c ∷ bs)) (leb room 1) _ _ cut (
        c ∷ p',
        q',
        ap (λ l. c ∷ l) split',
        bytes_plain c (escape (room - 1) bs) p' h (plain_char c ordinary) plain,
      ))

-- A string of bytes, three times whose number is less than the room of the buffer, is unescaped
-- from the collector's escape to what its bytes decode to.
pub unescape-escape :
    (room : ℕ) (bs : List ℕ)
    → All IsByte bs
    → 3 * length bs < room
    → unescape (escape room bs) ≡ ok (Utf8.decode bs)
unfolding unescape
unescape-escape room bs h fits = rw (bytes-escape room bs h fits)
