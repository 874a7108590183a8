-- ===== src/Scene/Layers.antt =====
-- The layers of a frame that take no floating point numbers, scene.py: each is the list of the commands
-- that it appends.
use fuddy_duddy.Prelude.{
  ℕ, zero, suc, ◌+◌, ◌-◌, ◌*◌, ◌/◌, ◌%◌, Bool, true, false, ◌&&◌, ◌||◌, Option, none, some, List,
  [], ◌∷◌, ◌++◌, ltb, leb, ◌==◌, nat_eq, length, if◌then◌else◌,
}
use fuddy_duddy.Int.{
  ℤ, pos, negsuc, int_eq, ◌+ℤ◌, ◌-ℤ◌, floor_div, minus, int_leb, int_ltb, int_min, int_max,
  sort_ints,
}
use fuddy_duddy.Dict.{keys}
use fuddy_duddy.Text.{Str, codes, print_ℤ}
use fuddy_duddy.Dict.{Dict, lookup}
use fuddy_duddy.Model.{Fd, Process}
use fuddy_duddy.Render.{
  width, boundary_y, fd_bar_y, zone_label, zone_bounds, Command, rect, line, circle, text,
}
use fuddy_duddy.Subsystems.{Subsystem, memory}
use fuddy_duddy.Scene.Layout.{Box}
use fuddy_duddy.Scene.State.{Ring, col_dim, col_pulse}

abbrev pub col_kernel_bg : ℕ
col_kernel_bg = 1

abbrev pub col_box_bg : ℕ
col_box_bg = 1

abbrev pub col_box_edge : ℕ
col_box_edge = 12

abbrev pub col_boundary : ℕ
col_boundary = 13

abbrev pub col_label : ℕ
col_label = 6

abbrev pub col_text : ℕ
col_text = 7

abbrev pub col_name : ℕ
col_name = 9

abbrev pub col_mem : ℕ
col_mem = 3

abbrev pub fd_sep_y : ℕ
fd_sep_y = fd_bar_y - 8

abbrev pub fail_result_ttl : ℕ
fail_result_ttl = 30

abbrev pub status_ttl : ℕ
status_ttl = 90

abbrev pub dash : ℕ
dash = 8

abbrev pub char_w : ℕ
char_w = 4

-- _BOB
abbrev pub bob : ℕ → ℤ
bob i = if i == 0 || i == 3 then pos 0 else if i == 1 || i == 2 then negsuc 0 else pos 1

-- _centered
abbrev pub centered : Str → ℕ → Command
centered s y = text (floor_div (minus width (length s * char_w)) 2) (pos y) s col_label

-- The dash that begins at `x`, cut at the edges of the screen.
unfoldable pub dash_at : ℤ → List Command
unfolding int_min int_max int_leb ◌+ℤ◌ ◌-ℤ◌
dash_at x =
    let x1 = int_max (pos 0) x in
    let x2 = int_min (pos (width - 1)) (x +ℤ pos dash -ℤ pos 1) in
    if int_leb x1 x2 then line x1 (pos boundary_y) x2 (pos boundary_y) col_boundary ∷ [] else []

-- `n` dashes from `x` on: range(x, WIDTH, _DASH * 2) has so many members.
unfoldable pub dashes : ℕ → ℤ → List Command
unfolding dash_at ◌+ℤ◌
dashes zero x = []
dashes (suc n) x = dash_at x ++ dashes n (x +ℤ pos (dash * 2))

-- The tick and the label of a zone. Every subsystem of `zone_order` has a label.
unfoldable pub draw_zone : Option ℤ → Subsystem → List Command
unfolding zone_bounds int_leb int_ltb
draw_zone active sub =
    let (x0, w) = zone_bounds sub in
    let hot : Bool = elim active [
      | none ↦ false
      | some x ↦ int_leb (pos x0) x && int_ltb x (pos (x0 + w))
    ] in
    (if ltb 0 x0
      then line (pos x0) (pos (boundary_y + 14)) (pos x0) (pos (boundary_y + 22)) col_dim ∷ []
      else [])
    ++ elim (zone_label sub) [
      | none ↦ []
      | some label ↦
          text (pos (x0 + 4)) (pos (boundary_y + 16)) label (if hot then col_name else col_dim) ∷ []
    ]

unfoldable pub draw_zone_list : Option ℤ → List Subsystem → List Command
unfolding draw_zone
draw_zone_list active [] = []
draw_zone_list active (sub ∷ subs) = draw_zone active sub ++ draw_zone_list active subs

-- The size of a block of memory, and the gap behind it.
abbrev pub block : ℕ
block = 6

abbrev pub gap : ℕ
gap = 2

abbrev pub pad : ℕ
pad = 4

abbrev pub cols : ℕ
cols =
    let n = (zone_bounds memory).1 - 2 * pad in
    if ltb 1 (n / (block + gap)) then n / (block + gap) else 1

-- The blocks from the index `i` on, up to the separator of the descriptor bar.
unfoldable pub region_blocks : ℕ → List ℤ → List Command
unfolding zone_bounds
region_blocks i [] = []
region_blocks i (start ∷ starts) =
    let rest = region_blocks (suc i) starts in
    let bx = (zone_bounds memory).0 + pad + i % cols * (block + gap) in
    let by = boundary_y + 24 + i / cols * (block + gap) in
    if leb fd_sep_y (by + block)
    then []
    else rect (pos bx) (pos by) (pos block) (pos block) col_mem true ∷ rest

-- A marker for each thread, up to the edge of the box.
unfoldable pub thread_marks : ℤ → ℤ → ℤ → List ℤ → List Command
unfolding ◌+ℤ◌ int_ltb
thread_marks cx edge y [] = []
thread_marks cx edge y (tid ∷ tids) =
    let rest = thread_marks (cx +ℤ pos 6) edge y tids in
    if int_ltb edge cx then [] else circle cx y (pos 2) col_pulse true ∷ rest

-- Scene._draw_threads
unfoldable pub draw_threads : Process → Box → List Command
unfolding thread_marks int_min ◌+ℤ◌ ◌-ℤ◌
draw_threads p b =
    thread_marks (b.x +ℤ pos 6) (b.x +ℤ b.w -ℤ pos 4)
      (int_min (b.y +ℤ b.h -ℤ pos 5) (pos (boundary_y - 3))) (sort_ints p.threads)

-- The commands of one box.
unfoldable pub draw_box : Process → Box → List Command
unfolding draw_threads ◌+ℤ◌ ◌-ℤ◌
draw_box p b =
    rect b.x b.y b.w b.h col_box_bg true
    ∷ rect b.x b.y b.w b.h col_box_edge false
    ∷ text (b.x +ℤ pos 5) (b.y +ℤ pos 5) p.name col_text
    ∷ text (b.x +ℤ pos 5) (b.y +ℤ pos 13) (codes "pid " ++ print_ℤ p.pid) col_dim
    ∷ (elim p.in_syscall [
      | none ↦ []
      | some name ↦ text (b.x +ℤ pos 5) (b.y +ℤ b.h -ℤ pos 8) (name ++ codes "()") col_pulse ∷ []
    ]
        ++ draw_threads p b)

-- The text of a descriptor.
unfoldable pub fd_label : Fd → Str
fd_label fd = elim fd.target [
  | some target ↦ print_ℤ fd.number ++ b' ' ∷ target
  | none ↦ print_ℤ fd.number
]

-- The entries of the descriptor bar from `x` on; a number that is not a key is a `KeyError`, but the
-- numbers are the keys.
unfoldable pub fd_entries : ℕ → Dict ℤ Fd → List ℤ → List Command
unfolding fd_label
fd_entries x fds [] = []
fd_entries x fds (number ∷ numbers) = elim (lookup number fds) [
  | none ↦ fd_entries x fds numbers
  | some fd ↦
      let w = length (fd_label fd) * 4 + 6 in
      rect (pos x) (pos fd_bar_y) (pos w) (pos 11) col_box_edge false
      ∷ text (pos (x + 4)) (pos (fd_bar_y + 3)) (fd_label fd) col_text
      ∷ fd_entries (x + w + 6) fds numbers
]

-- Scene._draw_rings
unfoldable pub draw_rings : List Ring → List Command
draw_rings [] = []
draw_rings (r ∷ rs) = circle r.x r.y (pos (2 + r.age)) r.color false ∷ draw_rings rs

-- Scene._draw_fd_bar, for the initial process
unfoldable pub draw_fd_bar : Process → List Command
unfolding fd_entries
draw_fd_bar p =
    line (pos 0) (pos fd_sep_y) (pos (width - 1)) (pos fd_sep_y) col_dim
    ∷ text (pos 5) (pos (fd_sep_y + 4)) (codes "FDS") col_label
    ∷ fd_entries 26 p.fds (sort_ints (keys p.fds))
