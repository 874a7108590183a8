-- ===== src/Text/Strip.antt =====
-- Python's `str.strip()`.
pub mod Laws
use fuddy_duddy.Prelude.{ℕ, List, [], ◌∷◌, if◌then◌else◌}
use fuddy_duddy.Text.{Str}
use fuddy_duddy.Text.Split.{is_space}

unfoldable pub lstrip : Str → Str
lstrip [] = []
lstrip (c ∷ s) = let rest = lstrip s in if is_space c then rest else c ∷ s

-- A character in front of a text that has been stripped on its right.
unfoldable pub keep_before : ℕ → Str → Str
keep_before c [] = if is_space c then [] else c ∷ []
keep_before c (d ∷ s) = c ∷ d ∷ s

unfoldable pub rstrip : Str → Str
unfolding keep_before
rstrip [] = []
rstrip (c ∷ s) = keep_before c (rstrip s)

unfoldable pub strip : Str → Str
unfolding lstrip rstrip
strip s = rstrip (lstrip s)
