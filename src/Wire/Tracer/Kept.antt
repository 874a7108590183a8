-- ===== src/Wire/Tracer/Kept.antt =====
-- The bytes that the collector's escape keeps where its buffer is short.
use fuddy_duddy.Prelude.{
  ℕ, suc, ◌+◌, ◌-◌, ◌*◌, ◌≤◌, ◌<◌, ◌≡◌, refl, sym, ap, ◌⊎◌, inl, inr, Bool-cases, List, [], ◌∷◌,
  ◌++◌, length, take, All, if_cases, if_intro, if◌then◌else◌, leb, nat_eq, arith,
}
use mathlib.Core.Path.{subst}
use fuddy_duddy.Text.{Str}
use fuddy_duddy.Text.Utf8
use fuddy_duddy.Text.Utf8.Encode.{encode, encode-decode}
use fuddy_duddy.Wire.{ok}
use fuddy_duddy.Wire.Unescape.{bytes, unescape}
use fuddy_duddy.Wire.Tracer.{is_special, escape}
use fuddy_duddy.Wire.Tracer.Escaping.{IsByte, bytes_quoted, bytes_plain, plain_char}

-- The characters that a byte takes in the buffer.
unfoldable pub cost : ℕ → ℕ
unfolding is_special
cost c = if is_special c then 3 else 1

pub costs : List ℕ → ℕ
costs [] = 0
costs (c ∷ bs) = cost c + costs bs

-- The bytes from the front whose escapes fit the room with a NUL behind them.
unfoldable pub kept : ℕ → List ℕ → List ℕ
kept room [] = []
kept room (c ∷ bs) =
    let rest = kept (room - cost c) bs in if leb room (cost c) then [] else c ∷ rest

cost_bound : (c : ℕ) → (1 ≤ cost c) × (cost c ≤ 3)
unfolding cost
cost_bound c = ground arith

bytes-escape-kept :
    (room : ℕ) (bs : List ℕ) → All IsByte bs → bytes (escape room bs) ≡ ok (kept room bs)
unfolding escape kept cost
bytes-escape-kept room [] _ = unfold bytes in refl
bytes-escape-kept room (c ∷ bs) (h, hs) = elim (Bool-cases (is_special c)) [
  | inl special ↦ rw special (elim (Bool-cases (leb room 3)) [
    | inl full ↦ rw full (unfold bytes in refl)
    | inr free ↦
        rw free (bytes_quoted c (escape (room - 3) bs) _ h (bytes-escape-kept (room - 3) bs hs))
  ])
  | inr plain ↦ rw plain (elim (Bool-cases (leb room 1)) [
    | inl full ↦ rw full (unfold bytes in refl)
    | inr free ↦ rw free (
        bytes_plain c (escape (room - 1) bs) _ h (plain_char c plain)
          (bytes-escape-kept (room - 1) bs hs))
  ])
]

-- The front part is the longest one whose escapes, with a NUL, fit the room.
abbrev IsLongest : ℕ → List ℕ → List ℕ → Type 0
IsLongest room bs front =
    (rest : List ℕ) × (bs ≡ front ++ rest)
    × (costs front < room)
    × ((rest ≡ []) ⊎ (room ≤ costs (take (suc (length front)) bs)))

kept-IsLongest : (room : ℕ) (bs : List ℕ) → 0 < room → IsLongest room bs (kept room bs)
unfolding kept costs
kept-IsLongest room [] h = ([], refl, h, inl refl)
kept-IsLongest room (c ∷ bs) h =
    if_cases (IsLongest room (c ∷ bs)) (leb room (cost c)) _ _
      (λ full. (c ∷ bs, refl, h, inr (ground arith)))
      (λ free.
        let (rest, split, fits, ends) = kept-IsLongest (room - cost c) bs (ground arith) in
        (
          rest,
          ap (λ l. c ∷ l) split,
          ground arith,
          elim ends [ inl all ↦ inl all | inr over ↦ inr (ground arith) ],
        ))

pub kept_all : (room : ℕ) (bs : List ℕ) → 3 * length bs < room → kept room bs ≡ bs
unfolding kept
kept_all room [] h = refl
kept_all room (c ∷ bs) h =
    if_cases (λ l. l ≡ c ∷ bs) (leb room (cost c)) _ _
      (λ full. absurd (ground (arith, cost_bound c)))
      (λ _. ap (λ l. c ∷ l) (kept_all (room - cost c) bs (omega (arith, cost_bound c))))

pub unescape-escape-kept :
    (room : ℕ) (bs : List ℕ)
    → All IsByte bs
    → unescape (escape room bs) ≡ ok (Utf8.decode (kept room bs))
unfolding unescape
unescape-escape-kept room bs h = rw (bytes-escape-kept room bs h) refl

kept-IsByte : (room : ℕ) (bs : List ℕ) → All IsByte bs → All IsByte (kept room bs)
unfolding kept
kept-IsByte room [] _ = tt
kept-IsByte room (c ∷ bs) (h, hs) =
    if_intro (All IsByte) (leb room (cost c)) _ _ tt (h, kept-IsByte (room - cost c) bs hs)

-- Whatever the room of the buffer, if not 0, the collector's escape of a string of bytes is
-- unescaped, without an error, to a text whose encoding to UTF-8, with lone surrogates for the
-- bytes that are no UTF-8, is the longest front part of the string whose escapes (three characters
-- for a special byte and one for any other) fit the room with a NUL.
pub unescape-IsLongest :
    (room : ℕ) (bs : List ℕ)
    → 0 < room
    → All IsByte bs
    → (text : Str) × (unescape (escape room bs) ≡ ok text)
      × ((rest : List ℕ) × (bs ≡ encode text ++ rest)
          × (costs (encode text) < room)
          × ((rest ≡ []) ⊎ (room ≤ costs (take (suc (length (encode text))) bs))))
unescape-IsLongest room bs h all =
    let same = encode-decode (kept room bs) (kept-IsByte room bs all) in
    (
      Utf8.decode (kept room bs),
      unescape-escape-kept room bs all,
      subst (IsLongest room bs) (sym same) (kept-IsLongest room bs h),
    )
