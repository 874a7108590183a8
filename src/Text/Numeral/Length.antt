-- ===== src/Text/Numeral/Length.antt =====
-- The lengths of printed numbers.
use native.Mathlib.Nat.{div-lt_iff_lt-mul}
use fuddy_duddy.Prelude.{
  ℕ, zero, suc, ◌+◌, ◌*◌, ◌/◌, ◌%◌, ◌≤◌, ◌<◌, [], ◌∷◌, length, ltb, if_cases, arith,
}
use fuddy_duddy.Int.{ℤ, pos, negsuc}
use fuddy_duddy.Text.{Str, digit_char, digits, print_ℕ, print_ℤ, print_hex}

-- The number of values of 64 bits.
abbrev pub words : ℕ
words = 0x10000000000000000

-- A value of the C type `int`.
abbrev pub IsInt : ℤ → Type 0
IsInt (pos n) = n < 0x80000000
IsInt (negsuc n) = n < 0x80000000

power : ℕ → ℕ → ℕ
power b zero = 1
power b (suc k) = power b k * b

-- A number below b ^ (k + 1) has at most k + 1 digits to the base b.
length-digits :
    (b k fuel n : ℕ) (out : Str)
    → 0 < b
    → n < power b (suc k)
    → length (digits b fuel n out) ≤ suc k + length out
unfolding digits power
length-digits b k zero n out h small = omega arith
length-digits b zero (suc fuel) n out h small =
    if_cases (λ (s : Str). length s ≤ suc zero + length out) (ltb n b) _ _ (λ _. omega arith)
      (λ big. absurd (ground arith))
length-digits b (suc k) (suc fuel) n out h small =
    if_cases (λ (s : Str). length s ≤ suc (suc k) + length out) (ltb n b) _ _ (λ _. omega arith)
      (λ big.
        let less : n / b < power b (suc k) = (div-lt_iff_lt-mul h).1 small in
        let more = length-digits b k fuel (n / b) (digit_char (n % b) ∷ out) h less in omega arith)

-- A 64-bit number has at most 16 hexadecimal and 20 decimal digits, a 32-bit number at most 10 decimal ones.
pub hex_digits : (n : ℕ) → n < words → length (print_hex n) ≤ 16
unfolding print_hex
hex_digits n h =
    omega (arith, length-digits 16 15 n n [] (omega arith) (unfold power in omega arith))

pub long_digits : (n : ℕ) → n < words → length (print_ℕ n) ≤ 20
unfolding print_ℕ
long_digits n h =
    omega (arith, length-digits 10 19 n n [] (omega arith) (unfold power in omega arith))

int_digits : (n : ℕ) → n ≤ 0x80000000 → length (print_ℕ n) ≤ 10
unfolding print_ℕ
int_digits n h =
    omega (arith, length-digits 10 9 n n [] (omega arith) (unfold power in omega arith))

pub pid_digits : (pid : ℤ) → IsInt pid → length (print_ℤ pid) ≤ 11
unfolding print_ℤ
pid_digits (pos n) h = omega (arith, int_digits n (omega arith))
pid_digits (negsuc n) h = omega (arith, int_digits (suc n) (omega arith))
