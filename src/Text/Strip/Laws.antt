-- ===== src/Text/Strip/Laws.antt =====
-- `split` on text with white space around it.
use fuddy_duddy.Prelude.{
  ℕ, ◌≡◌, refl, sym, ◌∙◌, ap, true, List, [], ◌∷◌, ◌++◌, Bool-cases, inl, inr, if_cases,
}
use fuddy_duddy.Text.{Str}
use fuddy_duddy.Text.Split.{is_space, begin, split_by, non_empty, split}
use fuddy_duddy.Text.Strip.{lstrip, keep_before, rstrip, strip}

-- Two results of a split that begin alike and differ in empty parts only.
abbrev Alike : List Str → List Str → Type 0
Alike [] us = ⊥
Alike (t ∷ ts) [] = ⊥
Alike (t ∷ ts) (u ∷ us) = (t ≡ u) × (non_empty ts ≡ non_empty us)

non_empty-Alike : (ts us : List Str) → Alike ts us → non_empty ts ≡ non_empty us
unfolding non_empty
non_empty-Alike [] us h = absurd h
non_empty-Alike (t ∷ ts) [] h = absurd h
non_empty-Alike ([] ∷ ts) ([] ∷ us) (_, h) = h
non_empty-Alike ([] ∷ ts) ((d ∷ u) ∷ us) (p, h) = cc
non_empty-Alike ((c ∷ t) ∷ ts) ([] ∷ us) (p, h) = cc
non_empty-Alike ((c ∷ t) ∷ ts) ((d ∷ u) ∷ us) (p, h) = cc

begin-Alike : (c : ℕ) (ts us : List Str) → Alike ts us → Alike (begin c ts) (begin c us)
unfolding begin
begin-Alike c [] us h = absurd h
begin-Alike c (t ∷ ts) [] h = absurd h
begin-Alike c (t ∷ ts) (u ∷ us) (p, h) = (ap (◌∷◌ c) p, h)

split_by-Alike :
    (c : ℕ) (s r : Str)
    → Alike (split_by is_space s) (split_by is_space r)
    → Alike (split_by is_space (c ∷ s)) (split_by is_space (c ∷ r))
unfolding split_by
split_by-Alike c s r h = elim (Bool-cases (is_space c)) [
  | inl space ↦ rw space (refl, non_empty-Alike _ _ h)
  | inr other ↦ rw other (begin-Alike c _ _ h)
]

-- The same, where the rest has been stripped.
keep_before-Alike :
    (c : ℕ) (s r : Str)
    → Alike (split_by is_space s) (split_by is_space r)
    → Alike (split_by is_space (c ∷ s)) (split_by is_space (keep_before c r))
unfolding keep_before split_by non_empty
keep_before-Alike c s [] h =
    if_cases (λ (r : Str). Alike (split_by is_space (c ∷ s)) (split_by is_space r)) (is_space c) []
      (c ∷ []) (λ space. rw space (refl, non_empty-Alike _ _ h)) (λ _. split_by-Alike c s [] h)
keep_before-Alike c s (d ∷ r) h = split_by-Alike c s (d ∷ r) h

rstrip-Alike : (s : Str) → Alike (split_by is_space s) (split_by is_space (rstrip s))
unfolding rstrip split_by
rstrip-Alike [] = (refl, refl)
rstrip-Alike (c ∷ s) = keep_before-Alike c s (rstrip s) (rstrip-Alike s)

split-rstrip : (s : Str) → split (rstrip s) ≡ split s
unfolding split
split-rstrip s = sym (non_empty-Alike _ _ (rstrip-Alike s))

skipped : (c : ℕ) (s : Str) → is_space c ≡ true → split s ≡ split (c ∷ s)
unfolding split split_by non_empty
skipped c s space = rw space refl

split-lstrip : (s : Str) → split (lstrip s) ≡ split s
unfolding lstrip
split-lstrip [] = refl
split-lstrip (c ∷ s) =
    if_cases (λ (r : Str). split r ≡ split (c ∷ s)) (is_space c) (lstrip s) (c ∷ s)
      (λ space. split-lstrip s ∙ skipped c s space) (λ _. refl)

pub split-strip : (s : Str) → split (strip s) ≡ split s
unfolding strip
split-strip s = split-rstrip (lstrip s) ∙ split-lstrip s

rstrip-line_end : (s : Str) → rstrip (s ++ 10 ∷ []) ≡ rstrip s
unfolding rstrip is_space keep_before
rstrip-line_end [] = refl
rstrip-line_end (c ∷ s) = ap (keep_before c) (rstrip-line_end s)

-- The end of a line is white space.
pub split-line_end : (s : Str) → split (s ++ 10 ∷ []) ≡ split s
split-line_end s = sym (split-rstrip (s ++ 10 ∷ [])) ∙ ap split (rstrip-line_end s) ∙ split-rstrip s
