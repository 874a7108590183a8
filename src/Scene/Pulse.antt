-- ===== src/Scene/Pulse.antt =====
-- The pulse from frame to frame.
use fuddy_duddy.Prelude.{
  ℕ, zero, suc, ◌≤◌, ◌<◌, ◌≡◌, refl, ◌∙◌, ap, true, false, Bool-cases, Option, none, some, ◌⊎◌, inl,
  inr, ltb, arith, if◌then◌else◌,
}
use fuddy_duddy.Int.{ℤ, pos, int_leb, int_ltb, ◌+ℤ◌, ◌-ℤ◌, ◌*ℤ◌, minus, scale}
use fuddy_duddy.Text.{Str}
use fuddy_duddy.Event.{Phase, SyscallEvent, syscall}
use fuddy_duddy.Floats.{Floats, IsExact}
use fuddy_duddy.Render.{zone_center}
use fuddy_duddy.Subsystems.{classify}
use fuddy_duddy.Scene.State.{
  PulseState, Pulse, Scene, progress_at, lerp, ease, descend_frames, begin_pulse, notify,
  step_descend, step_return, step_pulse, tick, step, origin_y, rest_y,
}

module _ (F : Floats) (exact : IsExact F) where
  open F use {Float, of_int, lt, le}

  -- The trip is not over, and the trip is over.
  pub progress_early :
      (t n : ℕ) → t < n → n < 1048576 → le (of_int (pos 1)) (progress_at F t n) ≡ false
  unfolding progress_at
  progress_early t n h small = rw (exact.div_lt t n h small) (exact.le_div t n h small)

  lt_one : lt (of_int (pos 1)) (of_int (pos 1)) ≡ false
  unfolding int_ltb int_leb
  lt_one = exact.lt_int (pos 1) (pos 1) (omega arith) (omega arith)

  progress_full : (n : ℕ) → 0 < n → n < 1048576 → progress_at F n n ≡ of_int (pos 1)
  unfolding progress_at
  progress_full n h small = rw (exact.div_self n h small, lt_one)

  pub progress_late : (n : ℕ) → 0 < n → n < 1048576 → le (of_int (pos 1)) (progress_at F n n) ≡ true
  unfolding int_leb
  progress_late n h small =
      rw (progress_full n h small) (exact.le_int (pos 1) (pos 1) (omega arith) (omega arith))

  one_one : F.mul (of_int (pos 1)) (of_int (pos 1)) ≡ of_int (pos 1)
  unfolding ◌*ℤ◌ scale
  one_one = exact.mul_int (pos 1) (pos 1) (omega arith) (omega arith)

  two_one : F.mul (of_int (pos 2)) (of_int (pos 1)) ≡ of_int (pos 2)
  unfolding ◌*ℤ◌ scale
  two_one = exact.mul_int (pos 2) (pos 1) (omega arith) (omega arith)

  three_two : F.sub (of_int (pos 3)) (of_int (pos 2)) ≡ of_int (pos 1)
  unfolding ◌-ℤ◌ ◌+ℤ◌ minus
  three_two = exact.sub_int (pos 3) (pos 2) (omega arith) (omega arith)

  ease_one : ease F (of_int (pos 1)) ≡ of_int (pos 1)
  unfolding ease
  ease_one = rw (ease, one_one, two_one, three_two, one_one)

  whole_way : F.sub (of_int (pos rest_y)) (of_int (pos origin_y)) ≡ of_int (pos 104)
  unfolding ◌-ℤ◌ ◌+ℤ◌ minus
  whole_way = exact.sub_int (pos rest_y) (pos origin_y) (omega arith) (omega arith)

  whole_way_once : F.mul (of_int (pos 104)) (of_int (pos 1)) ≡ of_int (pos 104)
  unfolding ◌*ℤ◌ scale
  whole_way_once = exact.mul_int (pos 104) (pos 1) (omega arith) (omega arith)

  way_end : F.add (of_int (pos origin_y)) (of_int (pos 104)) ≡ of_int (pos rest_y)
  unfolding ◌+ℤ◌
  way_end = exact.add_int (pos origin_y) (pos 104) (omega arith) (omega arith)

  -- At the end of the way down.
  lerp_rest :
      lerp F (of_int (pos origin_y)) (of_int (pos rest_y)) (ease F (of_int (pos 1)))
      ≡ of_int (pos rest_y)
  unfolding lerp
  lerp_rest = rw (ease_one, lerp, whole_way, whole_way_once, way_end)

  -- A pulse that left `k` frames ago with a name and a target.
  pub record IsOut (n : Str) (x : ℤ) (k : ℕ) (p : Pulse F) : Type 0 where
    pub name : p.name ≡ n
    pub target : p.target_x ≡ x
    pub way :
        ((k < descend_frames) × (p.state ≡ PulseState.descend) × (p.t ≡ k))
        ⊎ ((descend_frames ≤ k)
            × (p.state ≡ PulseState.wait)
            × (p.x ≡ of_int x)
            × (p.y ≡ of_int (pos rest_y)))

  begin-IsOut :
      (e : SyscallEvent) (s : Scene F)
      → IsOut e.name (pos (zone_center (classify e.name))) 0 (begin_pulse F e s)
  unfolding begin_pulse
  begin-IsOut e s = record { name = refl; target = refl; way = inl (omega arith, refl, refl) }

  -- The pulse on its way down, and where it comes to rest.
  moved : Pulse F → Pulse F
  moved p = record p {
    y =
        lerp F (of_int (pos origin_y)) (of_int (pos rest_y))
          (ease F (progress_at F p.t descend_frames));
    x = lerp F (of_int p.origin_x) (of_int p.target_x) (ease F (progress_at F p.t descend_frames));
  }

  landed : Pulse F → Pulse F
  landed p = record (moved p) { x = of_int p.target_x; state = PulseState.wait; t = 0 }

  step_pulse-descend :
      (p : Pulse F) (s : Scene F)
      → p.state ≡ PulseState.descend
      → (step_pulse F p s).pulse
        ≡ some
            (if le (of_int (pos 1)) (progress_at F p.t descend_frames) then landed p else moved p)
  unfolding step_pulse step_descend moved landed
  step_pulse-descend p s down =
      ap
        (λ (st : PulseState).
          (elim st as (λ _. Scene F) [
            | PulseState.descend ↦ step_descend F p s
            | PulseState.wait ↦ record s { pulse = some p }
            | PulseState.return ↦ step_return F p s
          ]).pulse)
        down

  step_pulse-wait :
      (p : Pulse F) (s : Scene F) → p.state ≡ PulseState.wait → (step_pulse F p s).pulse ≡ some p
  unfolding step_pulse
  step_pulse-wait p s waits = ground arith

  landed_y : (p : Pulse F) → p.t ≡ descend_frames → (landed p).y ≡ of_int (pos rest_y)
  unfolding landed moved
  landed_y p last =
      ap
        (λ t.
          lerp F (of_int (pos origin_y)) (of_int (pos rest_y))
            (ease F (progress_at F t descend_frames)))
        last
      ∙ ap (λ r. lerp F (of_int (pos origin_y)) (of_int (pos rest_y)) (ease F r))
          (progress_full descend_frames (omega arith) (omega arith))
      ∙ lerp_rest

  module _ (n : Str) (x : ℤ) (k : ℕ) (p : Pulse F) (s : Scene F) (h : IsOut n x k p) where
    -- The pulse behind a frame, which is out for a frame more.
    abbrev Next : Type 0
    Next =
        (q : Pulse F) × ((step_pulse F (record p { t = suc p.t }) s).pulse ≡ some q)
        × IsOut n x (suc k) q

    abbrev later : Pulse F
    later = record p { t = suc p.t }

    step_down : suc k < descend_frames → p.state ≡ PulseState.descend → p.t ≡ k → Next
    unfolding moved
    step_down more down clock =
        let early : le (of_int (pos 1)) (progress_at F (suc p.t) descend_frames) ≡ false =
          progress_early (suc p.t) descend_frames (omega arith) (omega arith) in
        (
          moved later,
          step_pulse-descend later s down
              ∙ ap (λ b. some (if b then landed later else moved later)) early,
          record { name = h.name; target = h.target; way = inl (more, down, ap suc clock) },
        )

    step_land : suc k ≡ descend_frames → p.state ≡ PulseState.descend → p.t ≡ k → Next
    unfolding landed moved
    step_land last down clock =
        let full : suc p.t ≡ descend_frames = omega arith in
        let late : le (of_int (pos 1)) (progress_at F (suc p.t) descend_frames) ≡ true =
          ap (λ t. le (of_int (pos 1)) (progress_at F t descend_frames)) full
          ∙ progress_late descend_frames (omega arith) (omega arith) in
        (
          landed later,
          step_pulse-descend later s down
              ∙ ap (λ b. some (if b then landed later else moved later)) late,
          record {
            name = h.name;
            target = h.target;
            way = inr (omega arith, refl, ap of_int h.target, landed_y later full);
          },
        )

    step_wait :
        descend_frames ≤ k
        → p.state ≡ PulseState.wait
        → p.x ≡ of_int x
        → p.y ≡ of_int (pos rest_y)
        → Next
    step_wait late waits px py = (
      later,
      step_pulse-wait later s waits,
      record { name = h.name; target = h.target; way = inr (omega arith, waits, px, py) },
    )

    step_out : Next
    step_out = elim h.way [
      | inl (early, down, clock) ↦ elim (Bool-cases (ltb (suc k) descend_frames)) [
        | inl more ↦ step_down (ground arith) down clock
        | inr last ↦ step_land (ground arith) down clock
      ]
      | inr (late, waits, px, py) ↦ step_wait late waits px py
    ]

  -- `k` frames in which nothing is notified.
  abbrev pub steps : ℕ → Scene F → Scene F
  steps zero s = s
  steps (suc k) s = step F (steps k s)

  pub step-some :
      (s : Scene F) (p : Pulse F)
      → s.pulse ≡ some p
      → step F s ≡ step_pulse F (record p { t = suc p.t }) (tick F s)
  unfolding step
  step-some s p h =
      ap
        (λ (o : Option (Pulse F)). elim o as (λ _. Scene F) [
          | none ↦ tick F s
          | some q ↦ step_pulse F (record q { t = suc q.t }) (tick F s)
        ])
        h

  notify-enter :
      (e : SyscallEvent) (s : Scene F)
      → e.phase ≡ Phase.enter
      → (notify F (syscall e) s).pulse ≡ some (begin_pulse F e s)
  unfolding notify
  notify-enter e s h = ground arith

  pub steps-IsOut :
      (e : SyscallEvent) (s : Scene F) (k : ℕ)
      → e.phase ≡ Phase.enter
      → (p : Pulse F) × ((steps k (notify F (syscall e) s)).pulse ≡ some p)
        × IsOut e.name (pos (zone_center (classify e.name))) k p
  steps-IsOut e s zero h = (begin_pulse F e s, notify-enter e s h, begin-IsOut e s)
  steps-IsOut e s (suc k) h =
      let (p, here, out) = steps-IsOut e s k h in
      let (q, next, out') = step_out _ _ k p (tick F (steps k (notify F (syscall e) s))) out in
      (q, ap (λ (v : Scene F). v.pulse) (step-some _ p here) ∙ next, out')

  -- At least 18 frames after an ENTER, and with nothing else notified, the pulse waits at the
  -- center of the column of its syscall.
  pub enter_waits :
      (e : SyscallEvent) (s : Scene F) (k : ℕ)
      → e.phase ≡ Phase.enter
      → descend_frames ≤ k
      → (p : Pulse F) × ((steps k (notify F (syscall e) s)).pulse ≡ some p)
        × (p.name ≡ e.name)
        × (p.state ≡ PulseState.wait)
        × (p.x ≡ of_int (pos (zone_center (classify e.name))))
        × (p.y ≡ of_int (pos rest_y))
  enter_waits e s k h late =
      let (p, here, out) = steps-IsOut e s k h in
      elim out.way [
        | inl (early, _, _) ↦ absurd (omega arith)
        | inr (_, waits, px, py) ↦ (p, here, out.name, waits, px, py)
      ]
