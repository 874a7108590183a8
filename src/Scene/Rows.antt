-- ===== src/Scene/Rows.antt =====
-- The boxes of one row.
use fuddy_duddy.Prelude.{ℕ, zero, suc, ◌+◌, ◌*◌, ◌≤◌, ◌<◌, ◌≡◌, refl, arith}
use fuddy_duddy.Int.{int_eq, pos, minus, ◌+ℤ◌, scale, floor_div}
use fuddy_duddy.Render.{width}
use fuddy_duddy.Scene.Layout.{slot, clamp_width, box_w, box_x}

-- In a row of at most 10 boxes, the box at each place ends before the x of the next place and
-- within the width of the screen, and no x is negative.
pub row_fits :
    (n i : ℕ)
    → n ≤ 10
    → i < n
    → (x : ℕ) × (next : ℕ) × (box_x n i ≡ pos x)
      × (box_x n (suc i) ≡ pos next)
      × (x + box_w n ≤ next)
      × (x + box_w n ≤ width)
unfolding box_x box_w slot clamp_width minus ◌+ℤ◌ scale floor_div
row_fits zero i h lt = absurd (omega arith)
row_fits (suc zero) i h lt = (6 + i * 250, 6 + suc i * 250, refl, refl, omega arith, omega arith)
row_fits (suc (suc zero)) i h lt =
    (6 + i * 125, 6 + suc i * 125, refl, refl, omega arith, omega arith)
row_fits (suc (suc (suc zero))) i h lt =
    (6 + i * 83, 6 + suc i * 83, refl, refl, omega arith, omega arith)
row_fits (suc (suc (suc (suc zero)))) i h lt =
    (6 + i * 62, 6 + suc i * 62, refl, refl, omega arith, omega arith)
row_fits (suc (suc (suc (suc (suc zero))))) i h lt =
    (6 + i * 50, 6 + suc i * 50, refl, refl, omega arith, omega arith)
row_fits (suc (suc (suc (suc (suc (suc zero)))))) i h lt =
    (6 + i * 41, 6 + suc i * 41, refl, refl, omega arith, omega arith)
row_fits (suc (suc (suc (suc (suc (suc (suc zero))))))) i h lt =
    (6 + i * 35, 6 + suc i * 35, refl, refl, omega arith, omega arith)
row_fits (suc (suc (suc (suc (suc (suc (suc (suc zero)))))))) i h lt =
    (6 + i * 31, 6 + suc i * 31, refl, refl, omega arith, omega arith)
row_fits (suc (suc (suc (suc (suc (suc (suc (suc (suc zero))))))))) i h lt =
    (6 + i * 27, 6 + suc i * 27, refl, refl, omega arith, omega arith)
row_fits (suc (suc (suc (suc (suc (suc (suc (suc (suc (suc zero)))))))))) i h lt =
    (6 + i * 25, 6 + suc i * 25, refl, refl, omega arith, omega arith)
row_fits (suc (suc (suc (suc (suc (suc (suc (suc (suc (suc (suc n))))))))))) i h lt =
    absurd (omega arith)
