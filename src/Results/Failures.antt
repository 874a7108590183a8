-- ===== src/Results/Failures.antt =====
-- `format_result` on negative results.
use fuddy_duddy.Prelude.{
  ℕ, suc, ◌≡◌, ◌≢◌, refl, ◌∙◌, ap, Bool, true, false, some, Option-cases, none, ◌++◌, inl, inr, [],
  ◌∷◌, list_eq, arith,
}
use fuddy_duddy.Int.{ℤ, pos, negsuc, int_eq}
use fuddy_duddy.Text.{Str, codes, print_ℤ}
use fuddy_duddy.Dict.{Dict, lookup}
use fuddy_duddy.Errno.{errno_names, name_of_errno, errno_name}
use fuddy_duddy.Results.{format_result, or_error}

-- No name in the table is empty.
all_full : Dict ℤ Str → Bool
all_full [] = true
all_full ((k, []) ∷ d) = false
all_full ((k, c ∷ s) ∷ d) = all_full d

lookup_full : (k : ℤ) (d : Dict ℤ Str) → all_full d ≡ true → lookup k d ≢ some []
unfolding all_full lookup
lookup_full k [] h = cc
lookup_full k ((j, []) ∷ d) h = cc
lookup_full k ((j, c ∷ s) ∷ d) h = ground (arith, lookup_full k d h)

errno_names_full : all_full errno_names ≡ true
unfolding all_full errno_names
errno_names_full = refl

or_error_full : (s : Str) → s ≢ [] → or_error (some s) ≡ s
unfolding or_error
or_error_full [] h = absurd (h refl)
or_error_full (c ∷ s) h = refl

name_of_errno_full : (n : ℤ) → name_of_errno n ≢ []
unfolding name_of_errno
name_of_errno_full n = elim (Option-cases (lookup n errno_names)) [
  | inl missing ↦ rw (name_of_errno, missing) cc
  | inr found ↦
      rw (name_of_errno, found.1)
        (λ empty. lookup_full n errno_names errno_names_full (found.1 ∙ ap some empty))
]

-- A negative result is shown as the name that the table of names has for its error number, or as
-- `errno `, with a space, and the printed number where the table has none, whatever the syscall.
pub failure_is_named :
    (name : Str) (n : ℕ)
    → format_result name (negsuc n) ≡ elim (lookup (pos (suc n)) errno_names) [
      | some s ↦ s
      | none ↦ codes "errno " ++ print_ℤ (pos (suc n))
    ]
unfolding format_result errno_name name_of_errno
failure_is_named name n =
    or_error_full (name_of_errno (pos (suc n))) (name_of_errno_full (pos (suc n)))
