-- ===== src/Scene/Layout.antt =====
-- The boxes of the processes, scene.py: the row of a box in the tree of processes, the place of a box in
-- its row, and the layout.
use fuddy_duddy.Prelude.{
  nat_eq, map, ◌++◌, leb, ℕ, zero, suc, ◌+◌, ◌*◌, Bool, true, false, ◌||◌, Option, none, some, List,
  [], ◌∷◌, ◌==◌, length, ◌-◌, ltb, if◌then◌else◌,
}
use fuddy_duddy.Int.{ℤ, pos, negsuc, int_eq, minus, ◌+ℤ◌, scale, floor_div, sort_ints}
use fuddy_duddy.Dict.{Dict, lookup, insert, keys}
use fuddy_duddy.Render.{width}
use fuddy_duddy.Model.{World}

-- x in seen
unfoldable pub is_seen : ℤ → List ℤ → Bool
is_seen x [] = false
is_seen x (y ∷ seen) = y == x || is_seen x seen

-- The loop of `_depth_of`, on fuel: `none` says that the fuel did not suffice.
unfoldable pub walk : ℕ → World → List ℤ → ℤ → ℕ → Option ℕ
unfolding is_seen
walk zero w seen cur depth = none
walk (suc fuel) w seen cur depth = elim (cur == pos 0) [
  | true ↦ some depth
  | false ↦ elim (lookup cur w.processes) [
    | none ↦ some depth
    | some p ↦ elim (is_seen cur seen) [
      | true ↦ some depth
      | false ↦ walk fuel w (cur ∷ seen) p.ppid (suc depth)
    ]
  ]
]

-- Scene._depth_of; `none` is a `KeyError`. As many turns as there are processes are enough.
unfoldable pub depth_of : ℤ → World → Option ℕ
unfolding walk
depth_of pid w = elim (lookup pid w.processes) [
  | none ↦ none
  | some p ↦ walk (length w.processes) w (pid ∷ []) p.ppid 0
]

abbrev pub row_x : ℕ
row_x = 6

abbrev pub row_w : ℕ
row_w = width - 2 * row_x

abbrev pub box_gap : ℕ
box_gap = 6

-- _PROC_W
abbrev pub max_box_w : ℕ
max_box_w = 80

-- slot, for a row of `n` boxes
unfoldable pub slot : ℕ → ℤ
slot n = floor_div (minus row_w ((n - 1) * box_gap)) n

-- max(24, min(_MAX_BOX_W, slot))
unfoldable pub clamp_width : ℤ → ℕ
clamp_width (negsuc s) = 24
clamp_width (pos s) = let v = if ltb s max_box_w then s else max_box_w in if ltb 24 v then v else 24

unfoldable pub box_w : ℕ → ℕ
unfolding slot clamp_width
box_w n = clamp_width (slot n)

-- The x of the box at place `i`.
unfoldable pub box_x : ℕ → ℕ → ℤ
unfolding slot
box_x n i = pos row_x +ℤ scale i (slot n +ℤ pos box_gap)

abbrev pub proc_y : ℕ
proc_y = 40

abbrev pub tree_box_h : ℕ
tree_box_h = 28

abbrev pub row_step : ℕ
row_step = 30

-- The y of the boxes of a depth.
unfoldable pub row_y : ℕ → ℕ
row_y depth = proc_y + depth * row_step

-- x, y, w, h
pub record Box : Type 0 where
  pub x : ℤ
  pub y : ℤ
  pub w : ℤ
  pub h : ℤ

abbrev pub proc_x : ℕ
proc_x = 88

abbrev pub proc_w : ℕ
proc_w = max_box_w

abbrev pub proc_h : ℕ
proc_h = 34

-- The box of a lone process.
abbrev pub lone_box : Box
lone_box = record { x = pos proc_x; y = pos proc_y; w = pos proc_w; h = pos proc_h }

-- Scene._box_pids
unfoldable pub box_pids : World → List ℤ
box_pids w = sort_ints (keys w.processes)

abbrev pub Rows : Type 0
Rows = Dict ℕ (List ℤ)

-- rows.setdefault(depth, []).append(pid)
unfoldable pub add_to_row : ℕ → ℤ → Rows → Rows
add_to_row depth pid rows = elim (lookup depth rows) [
  | none ↦ insert depth (pid ∷ []) rows
  | some row ↦ insert depth (row ++ pid ∷ []) rows
]

-- The rows of the pids behind those that are read already.
unfoldable pub rows_of : World → List ℤ → Rows → Option Rows
unfolding depth_of add_to_row
rows_of w [] rows = some rows
rows_of w (pid ∷ pids) rows = elim (depth_of pid w) [
  | none ↦ none
  | some depth ↦ rows_of w pids (add_to_row depth pid rows)
]

-- The boxes of a row of `n`, from the place `i` on.
unfoldable pub place_row : ℕ → ℕ → ℕ → List ℤ → Dict ℤ Box → Dict ℤ Box
unfolding box_x box_w row_y
place_row n depth i [] rects = rects
place_row n depth i (pid ∷ pids) rects =
    let box : Box = record {
      x = box_x n i;
      y = pos (row_y depth);
      w = pos (box_w n);
      h = pos tree_box_h;
    } in
    place_row n depth (suc i) pids (insert pid box rects)

unfoldable pub place_rows : Rows → Dict ℤ Box → Dict ℤ Box
unfolding place_row
place_rows [] rects = rects
place_rows ((depth, row) ∷ rows) rects = place_rows rows (place_row (length row) depth 0 row rects)

-- Scene._layout; `none` is the `KeyError` of `_depth_of`.
unfoldable pub layout : World → Option (Dict ℤ Box)
unfolding box_pids rows_of place_rows
layout w =
    let pids = box_pids w in
    if leb (length pids) 1
    then some (map (λ pid. (pid, lone_box)) pids)
    else elim (rows_of w pids []) [ none ↦ none | some rows ↦ some (place_rows rows []) ]

-- Scene._box_rect
unfoldable pub box_rect : ℤ → Dict ℤ Box → Box
box_rect pid rects = elim (lookup pid rects) [ some box ↦ box | none ↦ lone_box ]
