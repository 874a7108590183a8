-- ===== src/Text/Split/Laws.antt =====
-- What `rsplit` returns.
use fuddy_duddy.Prelude.{
  All, ◌≢◌, ℕ, List, [], ◌∷◌, ◌++◌, ◌≡◌, refl, ap, true, false, Bool-cases, inl, inr, nat_eq, arith,
}
use fuddy_duddy.Text.Split.{contains_char, after_last}

contains_char-append : (c : ℕ) (s t : List ℕ) → contains_char c (s ++ c ∷ t) ≡ true
unfolding contains_char
contains_char-append c [] t = ground arith
contains_char-append c (d ∷ s) t = ground (arith, contains_char-append c s t)

-- Behind the last separator stands what follows it, if the separator is not in that.
pub after_last-append :
    (c : ℕ) (dir base : List ℕ)
    → contains_char c base ≡ false
    → after_last c (dir ++ c ∷ base) ≡ base
unfolding after_last contains_char
after_last-append c [] base h = ground arith
after_last-append c (d ∷ dir) base h =
    ground (arith, after_last-append c dir base h, contains_char-append c dir base)

-- Without a separator, all of the string stands behind the last one.
pub after_last_whole : (c : ℕ) (s : List ℕ) → contains_char c s ≡ false → after_last c s ≡ s
unfolding after_last contains_char
after_last_whole c [] h = refl
after_last_whole c (d ∷ s) h = ground (arith, after_last_whole c s)

-- A string with a separator is split at the last one.
pub last_split :
    (c : ℕ) (s : List ℕ)
    → contains_char c s ≡ true
    → (dir base : List ℕ) × (s ≡ dir ++ c ∷ base) × (contains_char c base ≡ false)
unfolding contains_char
last_split c [] h = cc
last_split c (d ∷ s) h = elim (Bool-cases (contains_char c s)) [
  | inl later ↦
      let (dir, base, split, plain) = last_split c s later in
      (d ∷ dir, base, ap (λ t. d ∷ t) split, plain)
  | inr last ↦ let here : d ≡ c = ground arith in ([], s, ap (λ k. k ∷ s) here, last)
]

-- A string that does not contain the separator has none among its characters.
pub contains_char-none : (c : ℕ) (s : List ℕ) → contains_char c s ≡ false → All (λ d. d ≢ c) s
unfolding contains_char
contains_char-none c [] h = tt
contains_char-none c (d ∷ s) h = ground (arith, contains_char-none c s)
