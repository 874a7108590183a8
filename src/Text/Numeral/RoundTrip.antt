-- ===== src/Text/Numeral/RoundTrip.antt =====
-- Numbers printed and read.
use mathlib.Core.Option
use mathlib.Core.Option.{some-injective}
use fuddy_duddy.Prelude.{
  ℕ, zero, suc, ◌+◌, ◌*◌, ◌/◌, ◌%◌, ◌≤◌, ◌<◌, ◌≡◌, refl, sym, ◌∙◌, ap, Bool, true, false,
  Bool-cases, inl, inr, some, List, [], ◌∷◌, ltb, ltb→lt, ◌≢◌, All, if_cases, if_intro, ◌==◌,
  nat_eq, arith,
}
use fuddy_duddy.Int.{ℤ, pos, negsuc, negate}
use fuddy_duddy.Text.{digit_char, digits, print_ℕ, print_ℤ, print_hex}
use fuddy_duddy.Text.Numeral.{digit_value, digit_in, scan, skip_prefix, parse_ℕ, parse_int}

digit_in-digit_char : (b d : ℕ) → b ≤ 16 → d < b → digit_in b (digit_char d) ≡ some d
unfolding digit_in digit_value digit_char
digit_in-digit_char b d small h = ground arith

scan_digit :
    (b : ℕ) (wants : Bool) (n d : ℕ) (s : List ℕ)
    → b ≤ 16
    → d < b
    → scan b wants n (digit_char d ∷ s) ≡ scan b false (n * b + d) s
unfolding scan
scan_digit b true n d s small h = rw (digit_in-digit_char b d small h, scan)
scan_digit b false n d s small h = rw (digit_in-digit_char b d small h, scan)

module _ (b : ℕ) (big : 2 ≤ b) (small : b ≤ 16) where
  remainder-lt : (m : ℕ) → m % b < b
  remainder-lt m = grind arith

  rejoin : (m : ℕ) → m / b * b + m % b ≡ m
  rejoin m = grind arith

  quotient-le : (m f : ℕ) → m ≤ suc f → b ≤ m → m / b ≤ f
  quotient-le m f h g = grind arith

  scan-digits :
      (fuel : ℕ) (wants : Bool) (m : ℕ) (out : List ℕ)
      → m ≤ fuel
      → scan b wants 0 (digits b fuel m out) ≡ scan b false m out
  unfolding digits
  scan-digits zero wants m out h =
      scan_digit b wants 0 (m % b) out small (remainder-lt m)
      ∙ ap (λ k. scan b false k out) (grind arith)
  scan-digits (suc f) wants m out h = elim (Bool-cases (ltb m b)) [
    | inl last ↦ rw last (
        scan_digit b wants 0 m out small (ltb→lt m b last)
        ∙ ap (λ k. scan b false k out) (omega arith))
    | inr more ↦ rw more (
        scan-digits f wants (m / b) (digit_char (m % b) ∷ out) (quotient-le m f h (ground arith))
        ∙ scan_digit b false (m / b) (m % b) out small (remainder-lt m)
        ∙ ap (λ k. scan b false k out) (rejoin m))
  ]

-- What is neither a sign nor white space nor the `x` of a prefix: the digits are so.
abbrev pub IsPlain : ℕ → Type 0
IsPlain c = (48 ≤ c) × (c ≤ 102) × (c ≢ b'X')

pub digit_char-IsPlain : (d : ℕ) → d < 16 → IsPlain (digit_char d)
unfolding digit_char
digit_char-IsPlain d h = ground arith

module _ (b : ℕ) (big : 2 ≤ b) (small : b ≤ 16) where
  pub digits-IsPlain :
      (fuel m : ℕ) (out : List ℕ) → All IsPlain out → All IsPlain (digits b fuel m out)
  unfolding digits
  digits-IsPlain zero m out h =
      (digit_char-IsPlain (m % b) (omega (arith, remainder-lt b big small m)), h)
  digits-IsPlain (suc f) m out h =
      if_cases (All IsPlain) (ltb m b) _ _
        (λ last. (digit_char-IsPlain m (omega (arith, ltb→lt m b last)), h))
        (λ _.
          digits-IsPlain f (m / b) (digit_char (m % b) ∷ out)
            (digit_char-IsPlain (m % b) (omega (arith, remainder-lt b big small m)), h))

skip_prefix_plain : (s : List ℕ) → All IsPlain s → skip_prefix s ≡ s
unfolding skip_prefix
skip_prefix_plain [] h = refl
skip_prefix_plain (a ∷ []) h = refl
skip_prefix_plain (a ∷ x ∷ []) h = ground arith
skip_prefix_plain (a ∷ x ∷ u ∷ s) h = ground arith

parse_ℕ_plain : (b : ℕ) (s : List ℕ) → All IsPlain s → parse_ℕ b s ≡ scan b true 0 s
unfolding parse_ℕ
parse_ℕ_plain b s h =
    ap (scan b true 0) (if_intro (λ t. t ≡ s) (b == 16) _ _ (skip_prefix_plain s h) refl)

parse_int_plain :
    (b : ℕ) (s : List ℕ) → All IsPlain s → parse_int b s ≡ Option.map pos (scan b true 0 s)
unfolding parse_int
parse_int_plain b [] h = unfold scan in refl
parse_int_plain b (c ∷ s) h = ground (arith, parse_ℕ_plain b (c ∷ s) h)

scan_done : (b n : ℕ) → scan b false n [] ≡ some n
unfolding scan
scan_done b n = refl

module _ (b : ℕ) (big : 2 ≤ b) (small : b ≤ 16) where
  read_digits : (n : ℕ) → parse_ℕ b (digits b n n []) ≡ some n
  read_digits n =
      parse_ℕ_plain b (digits b n n []) (digits-IsPlain b big small n n [] tt)
      ∙ scan-digits b big small n true n [] (omega arith)
      ∙ scan_done b n

  read_int : (n : ℕ) → parse_int b (digits b n n []) ≡ some (pos n)
  read_int n =
      parse_int_plain b (digits b n n []) (digits-IsPlain b big small n n [] tt)
      ∙ ap (Option.map pos) (scan-digits b big small n true n [] (omega arith) ∙ scan_done b n)

-- A printed integer reads back to base 10.
pub parse_int-print_ℤ : (n : ℤ) → parse_int 10 (print_ℤ n) ≡ some n
unfolding print_ℤ print_ℕ
parse_int-print_ℤ (pos n) = read_int 10 (omega arith) (omega arith) n
parse_int-print_ℤ (negsuc n) =
    unfold parse_int in
    ap (Option.map (λ n. negate (pos n))) (read_digits 10 (omega arith) (omega arith) (suc n))
    ∙ ap some (ground arith)

-- A number printed in hexadecimal reads back to base 16.
pub parse_int-print_hex : (n : ℕ) → parse_int 16 (print_hex n) ≡ some (pos n)
unfolding print_hex
parse_int-print_hex n = read_int 16 (omega arith) (omega arith) n

-- Different integers are printed differently.
pub print_ℤ-injective : (m n : ℤ) → print_ℤ m ≡ print_ℤ n → m ≡ n
print_ℤ-injective m n h =
    some-injective m n (sym (parse_int-print_ℤ m) ∙ ap (parse_int 10) h ∙ parse_int-print_ℤ n)

-- Two hexadecimal digits are a byte.
pub parse_int-two_digits :
    (h l : ℕ)
    → h < 16
    → l < 16
    → parse_int 16 (digit_char h ∷ digit_char l ∷ []) ≡ some (pos (h * 16 + l))
parse_int-two_digits h l p q =
    parse_int_plain 16 (digit_char h ∷ digit_char l ∷ [])
      (digit_char-IsPlain h p, (digit_char-IsPlain l q, tt))
    ∙ ap (Option.map pos) (
        scan_digit 16 true 0 h _ (omega arith) p
        ∙ scan_digit 16 false (0 * 16 + h) l [] (omega arith) q
        ∙ scan_done 16 ((0 * 16 + h) * 16 + l))
    ∙ ap (λ n. some (pos n)) (omega arith)
