-- ===== src/Scene/Tree.antt =====
-- The tree of processes on the screen: the row of a box is the depth of its process.
use fuddy_duddy.Prelude.{
  ℕ, suc, ◌<◌, ◌≡◌, refl, sym, false, some, List, [], ◌∷◌, length, leb, All, arith,
}
use mathlib.Core.Path.{subst}
use mathlib.Core.Option.{some-injective}
use fuddy_duddy.Int.{ℤ, pos, int_eq}
use fuddy_duddy.Dict.{Dict, lookup}
use fuddy_duddy.Dict.Entries.{Entries, Entries-nil, Entries-insert}
use fuddy_duddy.Model.{World}
use fuddy_duddy.Scene.Layout.{
  depth_of, Box, box_pids, Rows, place_row, place_rows, layout, row_y, tree_box_h,
}
use fuddy_duddy.Scene.Cover.{AreSorted, rows_of-Gathers, box_pids-All}

module _ (w : World) where
  -- The box lies on the row of the process.
  abbrev pub IsOnRow : ℤ → Box → Type 0
  IsOnRow pid b =
      (n : ℕ) × (depth_of pid w ≡ some n) × (b.y ≡ pos (row_y n)) × (b.h ≡ pos tree_box_h)

  place_row-IsOnRow :
      (n depth i : ℕ) (row : List ℤ) (rects : Dict ℤ Box)
      → All (λ pid. depth_of pid w ≡ some depth) row
      → Entries IsOnRow rects
      → Entries IsOnRow (place_row n depth i row rects)
  unfolding place_row
  place_row-IsOnRow n depth i [] rects _ hr = hr
  place_row-IsOnRow n depth i (pid ∷ pids) rects (h, hs) hr =
      place_row-IsOnRow n depth (suc i) pids _ hs
        (Entries-insert IsOnRow pid _ rects (depth, h, refl, refl) hr)

  place_rows-IsOnRow :
      (rows : Rows) (rects : Dict ℤ Box)
      → AreSorted w rows
      → Entries IsOnRow rects
      → Entries IsOnRow (place_rows rows rects)
  unfolding place_rows
  place_rows-IsOnRow [] rects _ hr = hr
  place_rows-IsOnRow ((depth, row) ∷ rows) rects (h, hs) hr =
      place_rows-IsOnRow rows _ hs (place_row-IsOnRow (length row) depth 0 row rects h hr)

-- In the layout of a world with more than one process, the box of every pid lies on the row of the
-- pid's depth in the process tree, and has the height of the boxes of the tree (R12).
pub layout-IsOnRow :
    (w : World) (rects : Dict ℤ Box) (pid : ℤ) (b : Box)
    → layout w ≡ some rects
    → 1 < length (box_pids w)
    → lookup pid rects ≡ some b
    → IsOnRow w pid b
unfolding layout
layout-IsOnRow w rects pid b made many found =
    let (rows, gathered, (sorted, _)) = rows_of-Gathers w (box_pids w) [] (box_pids-All w) tt in
    let more : leb (length (box_pids w)) 1 ≡ false = ground arith in
    let same : place_rows rows [] ≡ rects =
      some-injective _ _ (rw (sym made, more, gathered) refl) in
    subst (Entries (IsOnRow w)) same (place_rows-IsOnRow w rows [] sorted (Entries-nil (IsOnRow w)))
      pid b found
