-- ===== src/Floats.antt =====
-- Python's `float`. The type and its operations are a parameter, since there are no floating point
-- numbers here; `IsExact` is what IEEE 754 says of binary64 on small integers.
use fuddy_duddy.Prelude.{ℕ, ◌<◌, ◌≡◌, Bool, true}
use fuddy_duddy.Int.{ℤ, pos, negsuc, ◌+ℤ◌, ◌-ℤ◌, ◌*ℤ◌, int_leb, int_ltb}

pub record Floats : Type 1 where
  pub Float : Type 0
  -- float(n), which is also what an int becomes beside a float
  pub of_int : ℤ → Float
  pub add : Float → Float → Float
  pub sub : Float → Float → Float
  pub mul : Float → Float → Float
  pub div : Float → Float → Float
  -- x < y and x <= y
  pub lt : Float → Float → Bool
  pub le : Float → Float → Bool
  -- int(x), towards 0
  pub trunc : Float → ℤ
  -- round(x), to the nearest integer, and to the even one of two
  pub round : Float → ℤ

-- Less than 2^20, up to the sign.
abbrev pub IsSmall : ℤ → Type 0
IsSmall (pos n) = n < 1048576
IsSmall (negsuc n) = n < 1048576

-- Sums, differences, products and comparisons of small integers are exact; a quotient of equal
-- numbers is 1, and one of a smaller number by a larger stays below 1.
pub record IsExact (F : Floats) : Type 0 where
  pub add_int :
      (a b : ℤ) → IsSmall a → IsSmall b → F.add (F.of_int a) (F.of_int b) ≡ F.of_int (a +ℤ b)
  pub sub_int :
      (a b : ℤ) → IsSmall a → IsSmall b → F.sub (F.of_int a) (F.of_int b) ≡ F.of_int (a -ℤ b)
  pub mul_int :
      (a b : ℤ) → IsSmall a → IsSmall b → F.mul (F.of_int a) (F.of_int b) ≡ F.of_int (a *ℤ b)
  pub lt_int : (a b : ℤ) → IsSmall a → IsSmall b → F.lt (F.of_int a) (F.of_int b) ≡ int_ltb a b
  pub le_int : (a b : ℤ) → IsSmall a → IsSmall b → F.le (F.of_int a) (F.of_int b) ≡ int_leb a b
  pub trunc_int : (a : ℤ) → IsSmall a → F.trunc (F.of_int a) ≡ a
  pub div_self :
      (n : ℕ) → 0 < n → n < 1048576 → F.div (F.of_int (pos n)) (F.of_int (pos n)) ≡ F.of_int (pos 1)
  pub div_lt :
      (m n : ℕ)
      → m < n
      → n < 1048576
      → F.lt (F.div (F.of_int (pos m)) (F.of_int (pos n))) (F.of_int (pos 1)) ≡ true
  -- The same quotient is no NaN, so the comparison the other way round fails.
  pub le_div :
      (m n : ℕ)
      → m < n
      → n < 1048576
      → F.le (F.of_int (pos 1)) (F.div (F.of_int (pos m)) (F.of_int (pos n))) ≡ Bool.false
