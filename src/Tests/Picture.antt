-- ===== src/Tests/Picture.antt =====
-- The theorems on the picture, at a few scenes.
use mathlib.Core.List.{Memᴰ}
use fuddy_duddy.Prelude.{
  ◌*◌, inl, true, Option, ◌∙◌, ◌≤◌, ◌↔◌, ap, sym, false, ◌==◌, ℕ, ◌+◌, ◌-◌, ◌<◌, ◌≡◌, refl, none,
  some, length, List, [], ◌∷◌, ◌++◌, All, arith, if◌then◌else◌,
}
use fuddy_duddy.Int.{
  ℤ, pos, negsuc, is_negative, int_eq, int_beq, int_beq_iff, ◌+ℤ◌, sort_ints, floor_div, scale,
}
use fuddy_duddy.Text.{codes, print_ℤ}
use fuddy_duddy.Dict.{Dict, lookup, contains, insert}
use fuddy_duddy.Event.{Event, syscall}
use fuddy_duddy.Model.{Fd, Process, World, fresh_process}
use fuddy_duddy.Subsystems.{classify}
use fuddy_duddy.Render.{Command, text, line, col_ok, col_fail, boundary_y, zone_center}
use fuddy_duddy.Scene.Layout.{row_step, Box, box_rect, box_pids, layout}
use fuddy_duddy.Scene.State.{Pulse, Scene, empty, notify, begin_pulse, col_dim}
use fuddy_duddy.Scene.Layers.{fd_sep_y, col_label, region_blocks, draw_fd_bar}
use fuddy_duddy.Scene.Draw.{draw_pulse, draw_result}
use fuddy_duddy.Scene.Pulse.{steps}
use fuddy_duddy.Scene.Return.{exit_clears}
use fuddy_duddy.Scene.Waiting.{picture, waiting_is_shown}
use fuddy_duddy.Scene.Arrival.{is_due, result_arrives}
use fuddy_duddy.Scene.Fading.{failure_hidden}
use fuddy_duddy.Scene.Cover.{layout_covers}
use fuddy_duddy.Scene.Userland.{first, later, box_in_userland}
use fuddy_duddy.Scene.Below.{IsRanked, child_below_parent}
use fuddy_duddy.Scene.Blocks.{IsBlock, region_blocks_fit}
use fuddy_duddy.Scene.Listing.{entry, IsOpenEntry, fd_bar_lists}
use fuddy_duddy.App.Safety.{render_total}
use fuddy_duddy.Tests.Whole.{whole, whole-IsExact}
use fuddy_duddy.Tests.Samples.{shell, world, world-IsValid, entering, leaving}

abbrev reads : Event
reads = syscall (entering (codes "read") none (some (pos 0)) [])

abbrev blocked : Scene whole
blocked = notify whole reads (empty whole)

waiting_is_shown_example :
    let v = steps whole whole-IsExact 40 blocked in
    (p : Pulse whole) × (y : ℕ) × (v.pulse ≡ some p)
    × (boundary_y < y - 2)
    × (y < fd_sep_y)
    × (draw_pulse whole v.frame p
        ≡ picture whole whole-IsExact p.origin_x
            (zone_center (classify (codes "read")))
            y
            p.t
            (codes "read"))
waiting_is_shown_example =
    waiting_is_shown whole whole-IsExact (entering (codes "read") none (some (pos 0)) [])
      (empty whole) 40 refl (omega arith)

exit_clears_example :
    let v =
      steps whole whole-IsExact 24
        (notify whole (syscall (leaving (codes "read") (pos 5))) blocked) in
    (v.pulse ≡ none) × (v.rings ≡ []) × (v.splits ≡ [])
exit_clears_example =
    exit_clears whole whole-IsExact (leaving (codes "read") (pos 5)) blocked 24 refl (omega arith)

blocked_pulse :
    blocked.pulse
    ≡ some (begin_pulse whole (entering (codes "read") none (some (pos 0)) []) (empty whole))
unfolding notify
blocked_pulse = refl

abbrev failed : Process
failed = record shell { last_result = some (negsuc 1) }

result_arrives_example :
    let v =
      steps whole whole-IsExact 44
        (notify whole (syscall (leaving (codes "read") (negsuc 1))) blocked) in
    let b = box_rect (pos 100) v.rects in
    draw_result whole v failed ≡ (
      if is_due 44 (negsuc 1)
      then text
          (b.x +ℤ b.w +ℤ pos 6)
          (b.y +ℤ pos 13)
          (codes "= " ++ print_ℤ (negsuc 1))
          (if is_negative (negsuc 1) then col_fail else col_ok)
        ∷ []
      else [])
result_arrives_example =
    result_arrives whole whole-IsExact (leaving (codes "read") (negsuc 1)) blocked
      (begin_pulse whole (entering (codes "read") none (some (pos 0)) []) (empty whole)) 44 failed
      (negsuc 1) refl blocked_pulse refl

-- A blocked syscall long behind the last landing.
abbrev late : Scene whole
late = record blocked { frame = 100; result_shown_since = some 5 }

late_pulse :
    late.pulse
    ≡ some (begin_pulse whole (entering (codes "read") none (some (pos 0)) []) (empty whole))
unfolding notify
late_pulse = refl

failure_hidden_example :
    let v =
      steps whole whole-IsExact 6
        (notify whole (syscall (leaving (codes "read") (negsuc 1))) late) in
    (draw_result whole v failed ≡ [])
    × (draw_result whole (steps whole whole-IsExact 10 (notify whole reads v)) failed ≡ [])
failure_hidden_example =
    failure_hidden whole whole-IsExact (leaving (codes "read") (negsuc 1))
      (entering (codes "read") none (some (pos 0)) []) late
      (begin_pulse whole (entering (codes "read") none (some (pos 0)) []) (empty whole)) 5 6 10
      failed 1 refl refl late_pulse refl (omega arith) (omega arith) refl

-- A parent and its child.
abbrev family : World
family = record {
  processes =
      (pos 5, fresh_process (pos 5) (codes "a"))
      ∷ (pos 6, record (fresh_process (pos 6) (codes "b")) { ppid = pos 5 })
      ∷ [];
  initial_pid = pos 5;
  pending = [];
}

layout_covers_example :
    (rects : Dict ℤ Box) × (layout family ≡ some rects)
    × (contains (pos 6) rects ≡ contains (pos 6) family.processes)
layout_covers_example = layout_covers family (pos 6)

abbrev child_box : Box
child_box = record { x = pos 6; y = pos 70; w = pos 80; h = pos 28 }

abbrev family_rects : Dict ℤ Box
family_rects = (pos 5, record child_box { y = pos 40 }) ∷ (pos 6, child_box) ∷ []

family_placed : layout family ≡ some family_rects
unfolding layout sort_ints lookup int_beq insert ◌+ℤ◌ floor_div scale
family_placed = refl

family_box : lookup (pos 6) family_rects ≡ some child_box
unfolding lookup int_beq
family_box = refl

family_many : 1 < length (box_pids family)
unfolding box_pids sort_ints
family_many = omega arith

family_parent_box : lookup (pos 5) family_rects ≡ some (record child_box { y = pos 40 })
unfolding lookup int_beq
family_parent_box = refl

abbrev rank : ℤ → ℕ
rank k = if k == pos 6 then 1 else 0

abbrev ppid_of : Option Process → ℤ
ppid_of none = pos 0
ppid_of (some p) = p.ppid

family_ppid :
    (k : ℤ)
    → ppid_of (lookup k family.processes)
      ≡ (if pos 5 == k then pos 0 else if pos 6 == k then pos 5 else pos 0)
unfolding lookup
family_ppid k = ground arith

family-IsRanked : IsRanked family rank
unfolding lookup
family-IsRanked k p found linked =
    let e : p.ppid ≡ (if pos 5 == k then pos 0 else if pos 6 == k then pos 5 else pos 0) =
      sym (ap ppid_of found) ∙ family_ppid k in
    ground (
      arith,
      e,
      int_beq_iff (pos 5) k,
      int_beq_iff (pos 6) k,
      int_beq_iff k (pos 6),
      int_beq_iff p.ppid (pos 0),
      int_beq_iff p.ppid (pos 6),
    )

family_child :
    lookup (pos 6) family.processes
    ≡ some (record (fresh_process (pos 6) (codes "b")) { ppid = pos 5 })
unfolding lookup int_beq
family_child = refl

family_parent : lookup (pos 5) family.processes ≡ some (fresh_process (pos 5) (codes "a"))
unfolding lookup int_beq
family_parent = refl

family_root : (pos 0 == pos 0) ≡ true
unfolding int_beq
family_root = refl

family_linked : (pos 5 == pos 0) ≡ false
unfolding int_beq
family_linked = refl

child_below_parent_example : pos 70 ≡ pos 40 +ℤ pos row_step
child_below_parent_example =
    child_below_parent family rank family_rects (pos 6)
      (record (fresh_process (pos 6) (codes "b")) { ppid = pos 5 })
      (fresh_process (pos 5) (codes "a")) child_box (record child_box { y = pos 40 })
      family-IsRanked family_placed family_many family_child family_linked family_parent family_box
      family_parent_box

box_in_userland_example :
    (bottom : ℕ) × (child_box.y +ℤ child_box.h ≡ pos bottom)
    × (bottom ≡ 68 + 30 * 1)
    × ((bottom ≤ boundary_y) ↔ (1 ≤ 2))
box_in_userland_example =
    box_in_userland family rank family_rects 1 (pos 6) child_box family-IsRanked family_placed
      family_many
      (later (record (fresh_process (pos 6) (codes "b")) { ppid = pos 5 }) family_child
        family_linked (first (fresh_process (pos 5) (codes "a")) family_parent (inl family_root)))
      family_box

region_blocks_fit_example :
    All IsBlock (region_blocks 0 (pos 4096 ∷ pos 8192 ∷ []))
    × (length (region_blocks 0 (pos 4096 ∷ pos 8192 ∷ [])) ≡ 2)
region_blocks_fit_example = region_blocks_fit (pos 4096 ∷ pos 8192 ∷ [])

abbrev log : Fd
log = record { number = pos 3; target = some (codes "log") }

abbrev writer : Process
writer = record shell { fds = (pos 3, log) ∷ [] }

writer_log : lookup (pos 3) writer.fds ≡ some log
unfolding lookup int_beq
writer_log = refl

fd_bar_lists_example :
    (entries : List Command) × (draw_fd_bar writer
      ≡ line (pos 0) (pos fd_sep_y) (pos 255) (pos fd_sep_y) col_dim
        ∷ text (pos 5) (pos (fd_sep_y + 4)) (codes "FDS") col_label
        ∷ entries)
    × All (IsOpenEntry writer.fds) entries
    × ((at : ℕ) × Memᴰ (entry at log) entries)
fd_bar_lists_example = fd_bar_lists writer (pos 3) log writer_log

abbrev drawn : List Command × Scene whole
drawn = (render_total whole world (empty whole) world-IsValid).0
