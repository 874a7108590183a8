-- ===== src/Scene/Waiting.antt =====
-- The picture of a syscall that waits in the kernel.
use fuddy_duddy.Prelude.{
  ℕ, ◌+◌, ◌-◌, ◌/◌, ◌%◌, ◌≤◌, ◌<◌, ◌≡◌, refl, ◌∙◌, ap, true, false, Bool-cases, inl, inr, some,
  List, [], ◌∷◌, ◌||◌, ◌==◌, nat_eq, arith,
}
use fuddy_duddy.Int.{ℤ, pos, ◌+ℤ◌, ◌-ℤ◌, minus}
use fuddy_duddy.Text.{Str}
use fuddy_duddy.Event.{Phase, SyscallEvent, syscall}
use fuddy_duddy.Floats.{Floats, IsExact}
use fuddy_duddy.Subsystems.{Subsystem, classify}
use fuddy_duddy.Render.{Command, line, circle, text, boundary_y, zone_bounds, zone_center}
use fuddy_duddy.Scene.State.{
  PulseState, Pulse, Scene, notify, descend_frames, origin_y, rest_y, col_dim, col_pulse,
}
use fuddy_duddy.Scene.Layers.{bob, col_name, fd_sep_y}
use fuddy_duddy.Scene.Draw.{draw_pulse, pulse_y, pulse_radius, pulse_color, ripple, trails}
use fuddy_duddy.Scene.Pulse.{steps, enter_waits}

-- The wobble keeps the pulse within a pixel of where it rests.
bob_bounds : (i : ℕ) → (y : ℕ) × (pos rest_y +ℤ bob i ≡ pos y) × (177 ≤ y) × (y ≤ 179)
unfolding ◌+ℤ◌ minus
bob_bounds i = elim (Bool-cases (i == 0 || i == 3)) [
  | inl still ↦ rw still (178, refl, omega arith, omega arith)
  | inr moves ↦ elim (Bool-cases (i == 1 || i == 2)) [
    | inl up ↦ rw (moves, up) (177, refl, omega arith, omega arith)
    | inr down ↦ rw (moves, down) (179, refl, omega arith, omega arith)
  ]
]

minus_two : (y : ℕ) → 2 ≤ y → pos y -ℤ pos 2 ≡ pos (y - 2)
unfolding ◌-ℤ◌ minus ◌+ℤ◌
minus_two y h = ground arith

module _ (F : Floats) (exact : IsExact F) where
  open F use {of_int}

  -- The picture of a waiting pulse at `x`, `y`.
  abbrev pub picture : ℤ → ℕ → ℕ → ℕ → Str → List Command
  picture origin x y t name =
      line origin (pos origin_y) (pos x) (pos y) col_dim
      ∷ circle (pos x) (pos y) (pos 3) col_pulse true
      ∷ text (pos (x + 8)) (pos (y - 2)) name col_name
      ∷ circle (pos x) (pos y) (pos (5 + t / 3 % 6)) col_dim false
      ∷ []

  waiting_picture :
      (frame x : ℕ) (p : Pulse F)
      → p.state ≡ PulseState.wait
      → x < 1048576
      → p.x ≡ of_int (pos x)
      → p.y ≡ of_int (pos rest_y)
      → (y : ℕ) × (177 ≤ y) × (y ≤ 179) × (draw_pulse F frame p ≡ picture p.origin_x x y p.t p.name)
  unfolding draw_pulse pulse_y pulse_radius pulse_color ripple trails ◌+ℤ◌
  waiting_picture frame x p waits small px py =
      let (y, wobble, low, high) = bob_bounds (frame / 4 % 6) in
      let tx : F.trunc p.x ≡ pos x = ap F.trunc px ∙ exact.trunc_int (pos x) small in
      let ty : F.trunc p.y ≡ pos rest_y =
        ap F.trunc py ∙ exact.trunc_int (pos rest_y) (omega arith) in
      let up = minus_two y (omega arith) in (y, low, high, ground (arith, tx, ty, wobble, up))

  zone_center-small : (sub : Subsystem) → zone_center sub < 1048576
  unfolding zone_center zone_bounds
  zone_center-small sub = grind arith

  -- For floating point numbers that are exact on small integers: at least 18 frames after an
  -- ENTER, and as long as nothing else is notified, the scene has a pulse that is drawn as a disk
  -- at the center of the column of the syscall's subsystem, with the syscall's name beside it,
  -- below the boundary and above the descriptor bar (R3, R4, R9).
  pub waiting_is_shown :
      (e : SyscallEvent) (s : Scene F) (k : ℕ)
      → e.phase ≡ Phase.enter
      → descend_frames ≤ k
      → let v = steps F exact k (notify F (syscall e) s) in
        (p : Pulse F) × (y : ℕ) × (v.pulse ≡ some p)
        × (boundary_y < y - 2)
        × (y < fd_sep_y)
        × (draw_pulse F v.frame p ≡ picture p.origin_x (zone_center (classify e.name)) y p.t e.name)
  waiting_is_shown e s k h late =
      let v = steps F exact k (notify F (syscall e) s) in
      let x = zone_center (classify e.name) in
      let (p, out, named, waits, px, py) = enter_waits F exact e s k h late in
      let (y, low, high, drawn) =
        waiting_picture v.frame x p waits (zone_center-small (classify e.name)) px py in
      (p, y, out, omega arith, omega arith, drawn ∙ ap (picture p.origin_x x y p.t) named)
