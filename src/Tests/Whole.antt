-- ===== src/Tests/Whole.antt =====
-- Floating point numbers for the tests: whole numbers, with the quotient rounded down.
use native.Mathlib.Nat.{div_self, div-eq_of_lt}
use fuddy_duddy.Prelude.{ap, ℕ, ◌<◌, ◌≡◌, refl}
use fuddy_duddy.Int.{ℤ, pos, negsuc, ◌+ℤ◌, ◌-ℤ◌, ◌*ℤ◌, int_leb, int_ltb, floor_div}
use fuddy_duddy.Floats.{Floats, IsExact}

-- a / b for a b above 0
unfoldable pub quotient : ℤ → ℤ → ℤ
quotient a (pos n) = floor_div a n
quotient a (negsuc n) = pos 0

abbrev pub whole : Floats
whole = record {
  Float = ℤ;
  of_int = λ n. n;
  add = λ a b. a +ℤ b;
  sub = λ a b. a -ℤ b;
  mul = λ a b. a *ℤ b;
  div = quotient;
  lt = int_ltb;
  le = int_leb;
  trunc = λ a. a;
  round = λ a. a;
}

quotient_self : (n : ℕ) → 0 < n → quotient (pos n) (pos n) ≡ pos 1
unfolding quotient floor_div
quotient_self n h = ap pos (div_self h)

quotient_small : (m n : ℕ) → m < n → quotient (pos m) (pos n) ≡ pos 0
unfolding quotient floor_div
quotient_small m n h = ap pos (div-eq_of_lt h)

pub whole-IsExact : IsExact whole
unfolding int_ltb int_leb
whole-IsExact = record {
  add_int = λ a b _ _. refl;
  sub_int = λ a b _ _. refl;
  mul_int = λ a b _ _. refl;
  lt_int = λ a b _ _. refl;
  le_int = λ a b _ _. refl;
  trunc_int = λ a _. refl;
  div_self = λ n h _. quotient_self n h;
  div_lt = λ m n h _. rw (quotient_small m n h) refl;
  le_div = λ m n h _. rw (quotient_small m n h) refl;
}
