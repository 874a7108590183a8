-- ===== src/Int.antt =====
-- Python's `int`: signed integers over the native numbers.
use fuddy_duddy.Prelude.{
  ℕ, suc, ◌+◌, ◌-◌, ◌*◌, ◌/◌, leb, ◌≡◌, ◌↔◌, Bool, false, not, List, [], ◌∷◌, arith, nat_beq, Eq,
  if◌then◌else◌,
}

-- `negsuc n` is -(n + 1).
pub data ℤ : Type 0 where
  pos : ℕ → ℤ
  negsuc : ℕ → ℤ

unfoldable pub int_beq : ℤ → ℤ → Bool
int_beq (pos a) (pos b) = nat_beq a b
int_beq (negsuc a) (negsuc b) = nat_beq a b
int_beq _ _ = false

pub int_beq_iff : (a b : ℤ) → (int_beq a b ≡ Bool.true) ↔ (a ≡ b)
unfolding int_beq
int_beq_iff (pos a) (pos b) = ground arith
int_beq_iff (pos a) (negsuc b) = ground arith
int_beq_iff (negsuc a) (pos b) = ground arith
int_beq_iff (negsuc a) (negsuc b) = ground arith

instance abbrev pub int_eq : Eq ℤ
int_eq = record { same = int_beq; same_iff = int_beq_iff }

-- a < 0
abbrev pub is_negative : ℤ → Bool
is_negative (pos n) = false
is_negative (negsuc n) = Bool.true

-- -a
abbrev pub negate : ℤ → ℤ
negate (pos n) = if nat_beq n 0 then pos 0 else negsuc (n - 1)
negate (negsuc n) = pos (suc n)

-- m - n
unfoldable pub minus : ℕ → ℕ → ℤ
minus m n = if leb n m then pos (m - n) else negsuc (n - m - 1)

infixl 60 ◌+ℤ◌
unfoldable pub ◌+ℤ◌ : ℤ → ℤ → ℤ
unfolding minus
pos m +ℤ pos n = pos (m + n)
pos m +ℤ negsuc n = minus m (suc n)
negsuc m +ℤ pos n = minus n (suc m)
negsuc m +ℤ negsuc n = negsuc (suc (m + n))

-- k * n
unfoldable pub scale : ℕ → ℤ → ℤ
scale k (pos n) = pos (k * n)
scale k (negsuc n) = negate (pos (k * suc n))

-- a // n, for n that is not 0
unfoldable pub floor_div : ℤ → ℕ → ℤ
floor_div (pos a) n = pos (a / n)
floor_div (negsuc a) n = negsuc (a / n)

-- a - b
infixl 60 ◌-ℤ◌
unfoldable pub ◌-ℤ◌ : ℤ → ℤ → ℤ
unfolding ◌+ℤ◌
a -ℤ b = a +ℤ negate b

unfoldable pub int_leb : ℤ → ℤ → Bool
int_leb (pos a) (pos b) = leb a b
int_leb (pos a) (negsuc b) = false
int_leb (negsuc a) (pos b) = Bool.true
int_leb (negsuc a) (negsuc b) = leb b a

unfoldable pub int_ltb : ℤ → ℤ → Bool
unfolding int_leb
int_ltb a b = not (int_leb b a)

-- min(a, b) and max(a, b), which prefer their first argument
unfoldable pub int_min : ℤ → ℤ → ℤ
unfolding int_ltb
int_min a b = if int_ltb b a then b else a

unfoldable pub int_max : ℤ → ℤ → ℤ
unfolding int_ltb
int_max a b = if int_ltb a b then b else a

-- sorted(numbers)
unfoldable pub insert_int : ℤ → List ℤ → List ℤ
insert_int x [] = x ∷ []
insert_int x (y ∷ ys) = let rest = insert_int x ys in if int_leb x y then x ∷ y ∷ ys else y ∷ rest

unfoldable pub sort_ints : List ℤ → List ℤ
unfolding insert_int int_leb
sort_ints [] = []
sort_ints (x ∷ xs) = insert_int x (sort_ints xs)

-- a * b
infixl 70 ◌*ℤ◌
unfoldable pub ◌*ℤ◌ : ℤ → ℤ → ℤ
unfolding scale
pos m *ℤ b = scale m b
negsuc m *ℤ b = negate (scale (suc m) b)
