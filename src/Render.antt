-- ===== src/Render.antt =====
-- render.py: the screen, the columns of kernel space and the drawing commands.
pub mod Zones
use fuddy_duddy.Prelude.{ℕ, ◌+◌, ◌*◌, ◌/◌, ◌≤◌, ◌<◌, Bool, Option, none, some, List, [], ◌∷◌}
use fuddy_duddy.Int.{ℤ}
use fuddy_duddy.Text.{Str, codes}
use fuddy_duddy.Subsystems.{Subsystem, file, memory, process, net, other}

abbrev pub width : ℕ
width = 256

-- FPS
abbrev pub fps : ℕ
fps = 75

abbrev pub height : ℕ
height = 256

abbrev pub boundary_y : ℕ
boundary_y = 128

abbrev pub fd_bar_y : ℕ
fd_bar_y = 232

abbrev pub col_ok : ℕ
col_ok = 11

abbrev pub col_fail : ℕ
col_fail = 8

abbrev pub zone_w : ℕ
zone_w = width / 4

abbrev pub zone_order : List Subsystem
zone_order = file ∷ memory ∷ process ∷ net ∷ []

-- ZONE_LABELS; `none` is a missing key
abbrev pub zone_label : Subsystem → Option Str
zone_label file = some (codes "FILE")
zone_label memory = some (codes "MEM")
zone_label process = some (codes "PROC")
zone_label net = some (codes "NET")
zone_label other = none

-- The x and the width of a subsystem's column, at its place in `ZONE_ORDER`.
unfoldable pub zone_bounds : Subsystem → ℕ × ℕ
zone_bounds file = (0 * zone_w, zone_w)
zone_bounds memory = (1 * zone_w, zone_w)
zone_bounds process = (2 * zone_w, zone_w)
zone_bounds net = (3 * zone_w, zone_w)
zone_bounds other = (0, width)

unfoldable pub zone_center : Subsystem → ℕ
unfolding zone_bounds
zone_center sub = let (x, w) = zone_bounds sub in x + w / 2

pub data Command : Type 0 where
  rect : ℤ → ℤ → ℤ → ℤ → ℕ → Bool → Command
  line : ℤ → ℤ → ℤ → ℤ → ℕ → Command
  circle : ℤ → ℤ → ℤ → ℕ → Bool → Command
  text : ℤ → ℤ → Str → ℕ → Command
  pixel : ℤ → ℤ → ℕ → Command
