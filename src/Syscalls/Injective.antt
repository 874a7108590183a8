-- ===== src/Syscalls/Injective.antt =====
-- The names of the table, compared with each other.
use mathlib.Core.Option.{some-injective}
use fuddy_duddy.Prelude.{
  ◌≡◌, ◌≢◌, refl, Bool, true, not, ◌&&◌, some, [], ◌∷◌, ◌==◌, list_eq, list_beq, list_beq_iff,
  arith,
}
use fuddy_duddy.Int.{ℤ, int_eq, int_beq_iff}
use fuddy_duddy.Text.{Str}
use fuddy_duddy.Dict.{Dict, lookup}
use fuddy_duddy.Syscalls.{names}

-- The name is none of the names of a table.
unfoldable pub absent : Str → Dict ℤ Str → Bool
absent s [] = true
absent s ((k, t) ∷ d) = not (t == s) && absent s d

unfoldable pub distinct : Dict ℤ Str → Bool
distinct [] = true
distinct ((k, t) ∷ d) = absent t d && distinct d

pub names-distinct : distinct names ≡ true
unfolding distinct absent names list_beq
names-distinct = refl

absent-lookup :
    (t s : Str) (k : ℤ) (d : Dict ℤ Str) → absent t d ≡ true → lookup k d ≡ some s → t ≢ s
unfolding absent lookup
absent-lookup t s k [] h found = cc
absent-lookup t s k ((j, u) ∷ d) h found =
    ground (arith, list_beq_iff u t, some-injective u s, absent-lookup t s k d)

lookup-injective :
    (s : Str) (j k : ℤ) (d : Dict ℤ Str)
    → distinct d ≡ true
    → lookup j d ≡ some s
    → lookup k d ≡ some s
    → j ≡ k
unfolding distinct lookup
lookup-injective s j k [] h first second = cc
lookup-injective s j k ((i, t) ∷ d) h first second = ground (
  arith,
  int_beq_iff i j,
  int_beq_iff i k,
  some-injective t s,
  absent-lookup t s j d,
  absent-lookup t s k d,
  lookup-injective s j k d,
)

-- Two syscall numbers of the table that have the same name are the same.
pub number_of_name : (s : Str) (j k : ℤ) → lookup j names ≡ some s → lookup k names ≡ some s → j ≡ k
number_of_name s j k = lookup-injective s j k names names-distinct
