-- ===== src/Scene/Blocks.antt =====
-- The blocks of memory regions on the screen.
use fuddy_duddy.Prelude.{
  ℕ, suc, ◌+◌, ◌-◌, ◌*◌, ◌/◌, ◌≤◌, ◌<◌, ◌≡◌, refl, true, List, [], ◌∷◌, All, length, leb, arith,
  if◌then◌else◌, if_cases,
}
use fuddy_duddy.Int.{ℤ, pos}
use fuddy_duddy.Render.{Command, rect, boundary_y, zone_bounds}
use fuddy_duddy.Subsystems.{memory}
use fuddy_duddy.Scene.Layers.{region_blocks, fd_sep_y, block, col_mem}

-- A filled block of the color of memory in the column MEM, below the boundary and above the separator.
abbrev pub IsBlock : Command → Type 0
IsBlock c =
    (x : ℕ) × (y : ℕ) × (c ≡ rect (pos x) (pos y) (pos block) (pos block) col_mem true)
    × ((zone_bounds memory).0 ≤ x)
    × (x + block ≤ (zone_bounds memory).0 + (zone_bounds memory).1)
    × (boundary_y < y)
    × (y + block < fd_sep_y)

region_blocks-IsBlock : (i : ℕ) (starts : List ℤ) → All IsBlock (region_blocks i starts)
unfolding region_blocks zone_bounds
region_blocks-IsBlock i [] = tt
region_blocks-IsBlock i (start ∷ starts) =
    if_cases (All IsBlock) (leb fd_sep_y (boundary_y + 24 + i / 7 * 8 + block)) _ _ (λ _. tt)
      (λ room. (
        (_, _, refl, omega arith, omega arith, omega arith, ground arith),
        region_blocks-IsBlock (suc i) starts,
      ))

length-region_blocks :
    (i : ℕ) (starts : List ℤ)
    → length (region_blocks i starts)
      ≡ (if leb (length starts) (63 - i) then length starts else 63 - i)
unfolding region_blocks
length-region_blocks i [] = ground arith
length-region_blocks i (start ∷ starts) = ground (arith, length-region_blocks (suc i) starts)

-- Of any list of memory regions as many blocks are drawn as there are regions, but at most 63, and
-- each block lies within the column MEM, below the boundary and above the separator of the
-- descriptor bar (R10).
pub region_blocks_fit :
    (starts : List ℤ)
    → All IsBlock (region_blocks 0 starts)
      × (length (region_blocks 0 starts) ≡ (if leb (length starts) 63 then length starts else 63))
region_blocks_fit starts = (region_blocks-IsBlock 0 starts, length-region_blocks 0 starts)
