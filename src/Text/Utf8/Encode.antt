-- ===== src/Text/Utf8/Encode.antt =====
-- `str.encode("utf-8", "surrogateescape")`, by which a decoded text gives back its bytes.
use fuddy_duddy.Prelude.{
  ℕ, zero, suc, ◌+◌, ◌-◌, ◌*◌, ◌/◌, ◌%◌, ◌≤◌, ◌<◌, ◌≡◌, refl, ◌∙◌, ap, List, [], ◌∷◌, ◌++◌, true,
  ◌&&◌, ltb, leb, nat_eq, if◌then◌else◌, if_cases, All, arith,
}
use fuddy_duddy.Text.Utf8.{between, continues, second, byte_at, head_code, decode_from, decode}

unfoldable pub encode_code : ℕ → List ℕ
encode_code v =
    if ltb v 0x80
    then v ∷ []
    else if ltb v 0x800
    then (0xc0 + v / 64) ∷ (0x80 + v % 64) ∷ []
    else if leb 0xdc80 v && leb v 0xdcff
    then (v - 0xdc00) ∷ []
    else if ltb v 0x10000
    then (0xe0 + v / 4096) ∷ (0x80 + v / 64 % 64) ∷ (0x80 + v % 64) ∷ []
    else (0xf0 + v / 262144) ∷ (0x80 + v / 4096 % 64) ∷ (0x80 + v / 64 % 64) ∷ (0x80 + v % 64) ∷ []

unfoldable pub encode : List ℕ → List ℕ
unfolding encode_code
encode [] = []
encode (v ∷ vs) = encode_code v ++ encode vs

abbrev drop : ℕ → List ℕ → List ℕ
drop n [] = []
drop zero (b ∷ bs) = b ∷ bs
drop (suc n) (b ∷ bs) = drop n bs

one : (a : ℕ) → a < 0x80 → encode_code a ≡ a ∷ []
unfolding encode_code
one a h = ground arith

escaped : (a : ℕ) → 0x80 ≤ a → a < 256 → encode_code (0xdc00 + a) ≡ a ∷ []
unfolding encode_code
escaped a h g = ground arith

two :
    (a b : ℕ)
    → between 0xc2 0xdf a && continues b ≡ true
    → encode_code ((a - 0xc0) * 64 + (b - 0x80)) ≡ a ∷ b ∷ []
unfolding encode_code
two a b h = ground arith

three :
    (a b c : ℕ)
    → between 0xe0 0xef a && second a b && continues c ≡ true
    → encode_code ((a - 0xe0) * 4096 + (b - 0x80) * 64 + (c - 0x80)) ≡ a ∷ b ∷ c ∷ []
unfolding encode_code second
three a b c h = ground arith

four :
    (a b c d : ℕ)
    → between 0xf0 0xf4 a && second a b && continues c && continues d ≡ true
    → encode_code ((a - 0xf0) * 262144 + (b - 0x80) * 4096 + (c - 0x80) * 64 + (d - 0x80))
      ≡ a ∷ b ∷ c ∷ d ∷ []
unfolding encode_code second
four a b c d h = ground arith

-- The bytes that a head takes are there: a byte behind the end continues nothing.
Taken : ℕ → List ℕ → ℕ × ℕ → Type 0
Taken a bs (v, more) = encode_code v ++ drop more bs ≡ a ∷ bs

take_two :
    (a : ℕ) (bs : List ℕ)
    → between 0xc2 0xdf a && continues (byte_at bs 0) ≡ true
    → Taken a bs ((a - 0xc0) * 64 + (byte_at bs 0 - 0x80), 1)
unfolding byte_at Taken
take_two a [] h = absurd (ground arith)
take_two a (b ∷ []) h = rw (two a b h) refl
take_two a (b ∷ c ∷ bs) h = rw (two a b h) refl

take_three :
    (a : ℕ) (bs : List ℕ)
    → between 0xe0 0xef a && second a (byte_at bs 0) && continues (byte_at bs 1) ≡ true
    → Taken a bs ((a - 0xe0) * 4096 + (byte_at bs 0 - 0x80) * 64 + (byte_at bs 1 - 0x80), 2)
unfolding byte_at Taken
take_three a [] h = absurd (ground arith)
take_three a (b ∷ []) h = absurd (ground arith)
take_three a (b ∷ c ∷ []) h = rw (three a b c h) refl
take_three a (b ∷ c ∷ d ∷ bs) h = rw (three a b c h) refl

take_four :
    (a : ℕ) (bs : List ℕ)
    → between 0xf0 0xf4 a
        && second a (byte_at bs 0)
        && continues (byte_at bs 1)
        && continues (byte_at bs 2)
      ≡ true
    → Taken a bs (
      (a - 0xf0) * 262144
          + (byte_at bs 0 - 0x80) * 4096
          + (byte_at bs 1 - 0x80) * 64
          + (byte_at bs 2 - 0x80),
      3,
    )
unfolding byte_at Taken
take_four a [] h = absurd (ground arith)
take_four a (b ∷ []) h = absurd (ground arith)
take_four a (b ∷ c ∷ []) h = absurd (ground arith)
take_four a (b ∷ c ∷ d ∷ []) h = rw (four a b c d h) refl
take_four a (b ∷ c ∷ d ∷ e ∷ bs) h = rw (four a b c d h) refl

drop_none : (bs : List ℕ) → drop 0 bs ≡ bs
drop_none [] = refl
drop_none (b ∷ bs) = refl

head_code-Taken :
    (a : ℕ) (bs : List ℕ)
    → a < 256
    → Taken a bs (head_code a (byte_at bs 0) (byte_at bs 1) (byte_at bs 2))
unfolding head_code Taken
head_code-Taken a bs h =
    if_cases (Taken a bs) (ltb a 0x80) _ _
      (λ small. rw (one a (ground arith)) (ap (λ l. a ∷ l) (drop_none bs)))
      (λ big. if_cases (Taken a bs) _ _ _ (take_two a bs) (λ _.
        if_cases (Taken a bs) _ _ _ (take_three a bs) (λ _.
          if_cases (Taken a bs) _ _ _ (take_four a bs)
            (λ _. rw (escaped a (ground arith) h) (ap (λ l. a ∷ l) (drop_none bs))))))

encode-decode_from :
    (taken : ℕ) (bs : List ℕ)
    → All (λ b. b < 256) bs
    → encode (decode_from taken bs) ≡ drop taken bs
unfolding decode_from encode Taken
encode-decode_from taken [] _ = refl
encode-decode_from (suc k) (b ∷ bs) (_, hs) = encode-decode_from k bs hs
encode-decode_from zero (b ∷ bs) (h, hs) =
    let (v, more) = head_code b (byte_at bs 0) (byte_at bs 1) (byte_at bs 2) in
    ap (λ l. encode_code v ++ l) (encode-decode_from more bs hs) ∙ head_code-Taken b bs h

-- The text that any bytes decode to encodes to the same bytes.
pub encode-decode : (bs : List ℕ) → All (λ b. b < 256) bs → encode (decode bs) ≡ bs
unfolding decode
encode-decode bs h = encode-decode_from 0 bs h ∙ drop_none bs
