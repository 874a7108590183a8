-- ===== src/Syscalls/Inverse.antt =====
-- The two tables, of the names by number and of the numbers by name.
use mathlib.Core.Option.{some-injective}
use fuddy_duddy.Prelude.{
  ◌≡◌, refl, ◌↔◌, ◌⊎◌, inl, inr, Bool, true, not, ◌&&◌, some, [], ◌∷◌, list_eq, list_beq_iff, arith,
}
use fuddy_duddy.Int.{ℤ, int_eq, int_beq_iff, int_beq}
use fuddy_duddy.Text.{Str}
use fuddy_duddy.Dict.{Dict, lookup, contains, insert}
use fuddy_duddy.Dict.Laws.{lookup-insert}
use fuddy_duddy.Syscalls.{names, invert, numbers}
use fuddy_duddy.Syscalls.Injective.{absent, distinct, names-distinct}

distinct_keys : Dict ℤ Str → Bool
distinct_keys [] = true
distinct_keys ((k, s) ∷ d) = not (contains k d) && distinct_keys d

names-distinct_keys : distinct_keys names ≡ true
unfolding distinct_keys contains lookup names int_beq
names-distinct_keys = refl

-- A name that the table lacks keeps what stands under it.
invert-absent :
    (s : Str) (d : Dict ℤ Str) (acc : Dict Str ℤ)
    → absent s d ≡ true
    → lookup s (invert d acc) ≡ lookup s acc
unfolding absent invert
invert-absent s [] acc h = refl
invert-absent s ((k, t) ∷ d) acc h =
    ground (arith, list_beq_iff t s, lookup-insert t s k acc, invert-absent s d (insert t k acc))

lookup-invert :
    (k : ℤ) (s : Str) (d : Dict ℤ Str) (acc : Dict Str ℤ)
    → distinct d ≡ true
    → lookup k d ≡ some s
    → lookup s (invert d acc) ≡ some k
unfolding distinct invert lookup
lookup-invert k s [] acc h found = cc
lookup-invert k s ((i, t) ∷ d) acc h found = ground (
  arith,
  int_beq_iff i k,
  list_beq_iff t s,
  some-injective t s,
  lookup-insert t s i acc,
  invert-absent s d (insert t i acc),
  lookup-invert k s d (insert t i acc),
)

lookup_of_invert :
    (k : ℤ) (s : Str) (d : Dict ℤ Str) (acc : Dict Str ℤ)
    → distinct_keys d ≡ true
    → lookup s (invert d acc) ≡ some k
    → (lookup k d ≡ some s) ⊎ (lookup s acc ≡ some k)
unfolding distinct_keys invert lookup contains
lookup_of_invert k s [] acc h found = inr found
lookup_of_invert k s ((i, t) ∷ d) acc h found = ground (
  arith,
  int_beq_iff i k,
  list_beq_iff t s,
  some-injective i k,
  lookup-insert t s i acc,
  lookup_of_invert k s d (insert t i acc),
)

-- A number has a name in the table of the names of syscalls exactly if the name has the number in
-- the inverse table.
pub names-numbers : (k : ℤ) (s : Str) → (lookup k names ≡ some s) ↔ (lookup s numbers ≡ some k)
unfolding numbers
names-numbers k s = (
  λ found. lookup-invert k s names [] names-distinct found,
  λ found. elim (lookup_of_invert k s names [] names-distinct_keys found) [
    | inl named ↦ named
    | inr nowhere ↦ absurd (unfold lookup in cc nowhere)
  ],
)
