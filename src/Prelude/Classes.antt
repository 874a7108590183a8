-- ===== src/Prelude/Classes.antt =====
-- Types with a Boolean equality, and their instances at numbers and at lists.
use Prim.Native.Nat.{ℕ}
use mathlib.Core.Path.{◌≡◌, refl}
use mathlib.Core.Logic.{◌↔◌}
use mathlib.Core.Bool.{Bool, true, false, ◌&&◌}
use mathlib.Core.List.{List, [], ◌∷◌}
use native.Mathlib.Omega.{arith}
use fuddy_duddy.Prelude.Tests.{nat_beq, nat_beq_iff}

-- Lists of numbers: texts.
unfoldable pub list_beq : List ℕ → List ℕ → Bool
list_beq [] [] = true
list_beq (x ∷ xs) (y ∷ ys) = nat_beq x y && list_beq xs ys
list_beq _ _ = false

pub list_beq_iff : (xs ys : List ℕ) → (list_beq xs ys ≡ true) ↔ (xs ≡ ys)
unfolding list_beq
list_beq_iff [] [] = ground arith
list_beq_iff [] (y ∷ ys) = ground arith
list_beq_iff (x ∷ xs) [] = ground arith
list_beq_iff (x ∷ xs) (y ∷ ys) = ground (arith, list_beq_iff xs ys)

-- Python's `==` on a type of keys or texts.
pub record Eq {ℓ} (A : Type ℓ) : Type ℓ where
  pub same : A → A → Bool
  pub same_iff : (x y : A) → (same x y ≡ true) ↔ (x ≡ y)

instance abbrev pub nat_eq : Eq ℕ
nat_eq = record { same = nat_beq; same_iff = nat_beq_iff }

instance abbrev pub list_eq : Eq (List ℕ)
list_eq = record { same = list_beq; same_iff = list_beq_iff }

infix 50 ◌==◌
abbrev pub ◌==◌ {ℓ} : {A : Type ℓ} ⦃e : Eq A⦄ → A → A → Bool
◌==◌ ⦃e⦄ = e.same

-- A test of a value against itself passes.
pub eq_self {ℓ} : {A : Type ℓ} ⦃e : Eq A⦄ (a : A) → (a == a) ≡ true
eq_self ⦃e⦄ a = (e.same_iff a a).1 refl

pub of_eq_true {ℓ} : {A : Type ℓ} ⦃e : Eq A⦄ (a b : A) → (a == b) ≡ true → a ≡ b
of_eq_true ⦃e⦄ a b h = (e.same_iff a b).0 h

pub of_eq_false {ℓ} : {A : Type ℓ} ⦃e : Eq A⦄ (a b : A) → (a == b) ≡ false → ¬ (a ≡ b)
of_eq_false ⦃e⦄ a b h p = cc ((e.same_iff a b).1 p)

pub eq_true_of {ℓ} : {A : Type ℓ} ⦃e : Eq A⦄ (a b : A) → a ≡ b → (a == b) ≡ true
eq_true_of ⦃e⦄ a b p = (e.same_iff a b).1 p
