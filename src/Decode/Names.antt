-- ===== src/Decode/Names.antt =====
-- The name that the decoder gives to a syscall number.
use mathlib.Core.Option.{some-injective, none-ne-some}
use fuddy_duddy.Prelude.{
  ◌≡◌, refl, ◌∙◌, sym, ap, Bool, true, false, Option, none, some, Option-cases, inl, inr, [], ◌∷◌,
  ◌++◌, ◌==◌, list_eq, list_beq, if◌then◌else◌, arith,
}
use fuddy_duddy.Int.{ℤ, int_eq}
use fuddy_duddy.Text.{Str, codes, print_ℤ}
use fuddy_duddy.Text.Numeral.RoundTrip.{print_ℤ-injective}
use fuddy_duddy.Dict.{Dict, lookup}
use fuddy_duddy.Syscalls.{names}
use fuddy_duddy.Syscalls.Injective.{number_of_name}
use fuddy_duddy.Decode.{name_of}

-- What follows the prefix of a name that is made from its number.
after_sys : Str → Option Str
after_sys (a ∷ b ∷ c ∷ d ∷ s) = if (a ∷ b ∷ c ∷ d ∷ []) == codes "sys_" then some s else none
after_sys s = none

-- No name of a table has that prefix.
all_proper : Dict ℤ Str → Bool
all_proper [] = true
all_proper ((k, s) ∷ d) = elim (after_sys s) [ some _ ↦ false | none ↦ all_proper d ]

names_proper : all_proper names ≡ true
unfolding all_proper names after_sys list_beq
names_proper = refl

lookup_proper :
    (s : Str) (k : ℤ) (d : Dict ℤ Str)
    → all_proper d ≡ true
    → lookup k d ≡ some s
    → after_sys s ≡ none
unfolding all_proper lookup
lookup_proper s k [] h found = cc
lookup_proper s k ((j, t) ∷ d) h found = ground (arith, some-injective t s, lookup_proper s k d)

after_sys-made : (s : Str) → after_sys (codes "sys_" ++ s) ≡ some s
unfolding after_sys list_beq
after_sys-made s = refl

-- The two forms of a name.
name_of_known : (k : ℤ) (s : Str) → lookup k names ≡ some s → name_of k ≡ s
unfolding name_of
name_of_known k s h = rw (name_of, h) refl

name_of_unknown : (k : ℤ) → lookup k names ≡ none → name_of k ≡ codes "sys_" ++ print_ℤ k
unfolding name_of
name_of_unknown k h = rw (name_of, h) refl

known_is_proper : (k : ℤ) (s : Str) → lookup k names ≡ some s → after_sys (name_of k) ≡ none
known_is_proper k s h = ap after_sys (name_of_known k s h) ∙ lookup_proper s k names names_proper h

unknown_is_made : (k : ℤ) → lookup k names ≡ none → after_sys (name_of k) ≡ some (print_ℤ k)
unknown_is_made k h = ap after_sys (name_of_unknown k h) ∙ after_sys-made (print_ℤ k)

-- Two syscall numbers that are shown under the same name are the same, whether the table has them
-- or not.
pub name_of-injective : (j k : ℤ) → name_of j ≡ name_of k → j ≡ k
name_of-injective j k same = elim (Option-cases (lookup j names)) [
  | inl no_j ↦ elim (Option-cases (lookup k names)) [
    | inl no_k ↦ print_ℤ-injective j k (
        some-injective _ _
          (sym (unknown_is_made j no_j) ∙ ap after_sys same ∙ unknown_is_made k no_k))
    | inr k_in ↦ absurd (
        none-ne-some (print_ℤ j) (
          sym (known_is_proper k k_in.0 k_in.1) ∙ sym (ap after_sys same) ∙ unknown_is_made j no_j))
  ]
  | inr j_in ↦ elim (Option-cases (lookup k names)) [
    | inl no_k ↦ absurd (
        none-ne-some (print_ℤ k)
          (sym (known_is_proper j j_in.0 j_in.1) ∙ ap after_sys same ∙ unknown_is_made k no_k))
    | inr k_in ↦ number_of_name j_in.0 j k j_in.1 (
        k_in.1
        ∙ ap some (sym (name_of_known k k_in.0 k_in.1) ∙ sym same ∙ name_of_known j j_in.0 j_in.1))
  ]
]
