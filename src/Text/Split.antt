-- ===== src/Text/Split.antt =====
-- Python's `str.split()`, `str.split(sep)`, `str.partition(sep)`, `str.startswith(prefix)` and
-- `s.rsplit(sep, 1)[-1]`.
pub mod Laws
use fuddy_duddy.Prelude.{
  ℕ, List, [], ◌∷◌, Bool, false, ◌&&◌, ◌||◌, Option, none, some, leb, ◌==◌, nat_eq, if◌then◌else◌,
}

-- str.isspace
unfoldable pub is_space : ℕ → Bool
is_space c =
    leb 9 c && leb c 13
    || leb 28 c && leb c 32
    || c == 0x85
    || c == 0xa0
    || c == 0x1680
    || leb 0x2000 c && leb c 0x200a
    || c == 0x2028
    || c == 0x2029
    || c == 0x202f
    || c == 0x205f
    || c == 0x3000

-- A character before the first token, or a token that ends.
unfoldable pub begin : ℕ → List (List ℕ) → List (List ℕ)
begin c [] = (c ∷ []) ∷ []
begin c (t ∷ ts) = (c ∷ t) ∷ ts

-- The parts between separators, the empty ones too: there is always a part.
unfoldable pub split_by : (ℕ → Bool) → List ℕ → List (List ℕ)
unfolding begin
split_by sep [] = [] ∷ []
split_by sep (c ∷ s) = let rest = split_by sep s in if sep c then [] ∷ rest else begin c rest

unfoldable pub non_empty : List (List ℕ) → List (List ℕ)
non_empty [] = []
non_empty ([] ∷ ts) = non_empty ts
non_empty ((c ∷ t) ∷ ts) = (c ∷ t) ∷ non_empty ts

-- s.split(): the parts between white space that are not empty
unfoldable pub split : List ℕ → List (List ℕ)
unfolding split_by non_empty is_space
split s = non_empty (split_by is_space s)

-- s.split(sep)
unfoldable pub split_on : ℕ → List ℕ → List (List ℕ)
unfolding split_by
split_on sep s = split_by (λ c. c == sep) s

-- s.partition(sep): `none` where `sep` is not in `s`
unfoldable pub partition : ℕ → List ℕ → Option (List ℕ × List ℕ)
partition sep [] = none
partition sep (c ∷ s) =
    let rest = partition sep s in
    if c == sep then some ([], s) else elim rest [ none ↦ none | some (a, b) ↦ some (c ∷ a, b) ]

-- s[len(p):] where s.startswith(p)
unfoldable pub strip_prefix : List ℕ → List ℕ → Option (List ℕ)
strip_prefix [] s = some s
strip_prefix (p ∷ ps) [] = none
strip_prefix (p ∷ ps) (c ∷ s) = let rest = strip_prefix ps s in if p == c then rest else none

unfoldable pub contains_char : ℕ → List ℕ → Bool
contains_char c [] = false
contains_char c (d ∷ s) = d == c || contains_char c s

-- s.rsplit(sep, 1)[-1]
unfoldable pub after_last : ℕ → List ℕ → List ℕ
unfolding contains_char
after_last sep [] = []
after_last sep (c ∷ s) =
    let rest = after_last sep s in
    if contains_char sep s then rest else if c == sep then s else c ∷ s
