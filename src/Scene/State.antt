-- ===== src/Scene/State.antt =====
-- The state of the picture, scene.py: the pulse of the syscall in flight, rings, splits and the status
-- line; `notify` and `step` change it.
mod Data
unfoldable pub use Data.*
use fuddy_duddy.Prelude.{
  ℕ, suc, ◌+◌, ◌/◌, ◌&&◌, Option, none, some, List, [], ◌∷◌, ◌++◌, ltb, if◌then◌else◌,
}
use fuddy_duddy.Int.{ℤ, pos, is_negative, int_eq, ◌+ℤ◌, floor_div}
use fuddy_duddy.Text.{Str, codes, print_ℤ}
use fuddy_duddy.Dict.{Dict, lookup}
use fuddy_duddy.Event.{Phase, Event, SyscallEvent, ExitEvent, syscall, spawn, exited}
use fuddy_duddy.Floats.{Floats}
use fuddy_duddy.Render.{boundary_y, col_ok, col_fail, zone_center}
use fuddy_duddy.Results.{format_result}
use fuddy_duddy.Subsystems.{classify}
use fuddy_duddy.Scene.Layout.{Box, box_rect, proc_x, proc_y, proc_w, proc_h}

-- Scene._result_color
unfoldable pub result_color : ℤ → ℕ
result_color result = if is_negative result then col_fail else col_ok

-- pulse.result or 0, and `result` where it is not None, else 0
abbrev pub or_zero : Option ℤ → ℤ
or_zero none = pos 0
or_zero (some r) = r

unfoldable pub age_rings : List Ring → List Ring
age_rings [] = []
age_rings (r ∷ rs) =
    let rest = age_rings rs in
    if ltb (suc r.age) ring_ttl then record r { age = suc r.age } ∷ rest else rest

unfoldable pub age_splits : List Split → List Split
age_splits [] = []
age_splits (s ∷ ss) =
    let rest = age_splits ss in
    if ltb (suc s.age) split_ttl then record s { age = suc s.age } ∷ rest else rest

-- Scene._origin_x_for
unfoldable pub origin_x_for : ℤ → Dict ℤ Box → ℤ
origin_x_for pid rects = let b = box_rect pid rects in b.x +ℤ floor_div b.w 2

-- The argument that the status line names: a path, else a descriptor, else nothing.
unfoldable pub status_arg : Option Str → Option ℤ → Str
status_arg (some path) fd = path
status_arg none (some fd) = print_ℤ fd
status_arg none none = []

-- f"{pulse.name}({arg}) = {format_result(pulse.name, result)}"
unfoldable pub status_line : Str → Str → ℤ → Str
status_line name arg result = name ++ b'(' ∷ (arg ++ (codes ") = " ++ format_result name result))

module _ (F : Floats) where
  open F use {Float, of_int, add, sub, mul, div, lt, le, trunc}

  unfoldable pub lerp : Float → Float → Float → Float
  lerp a b t = add a (mul (sub b a) t)

  unfoldable pub ease : Float → Float
  ease t = mul (mul t t) (sub (of_int (pos 3)) (mul (of_int (pos 2)) t))

  -- min(1.0, t / frames)
  unfoldable pub progress_at : ℕ → ℕ → Float
  progress_at t frames =
      let q = div (of_int (pos t)) (of_int (pos frames)) in
      if lt q (of_int (pos 1)) then q else of_int (pos 1)

  -- The pulse of an ENTER.
  unfoldable pub begin_pulse : SyscallEvent → Scene F → Pulse F
  unfolding origin_x_for
  begin_pulse e s =
      let origin = origin_x_for e.pid s.rects in
      record {
        name = e.name;
        target_x = pos (zone_center (classify e.name));
        origin_x = origin;
        path = e.path;
        fd = e.fd;
        state = PulseState.descend;
        t = 0;
        x = of_int origin;
        y = of_int (pos origin_y);
        return_from = of_int (pos rest_y);
        result = none;
      }

  -- What an EXIT does to the pulse, and to the status line.
  unfoldable pub end_pulse : SyscallEvent → Pulse F → Scene F → Scene F
  unfolding result_color status_line status_arg
  end_pulse e p s =
      let result = or_zero e.result in
      record s {
        pulse = some (record p {
          state = PulseState.return;
          t = 0;
          return_from = p.y;
          result = some result;
        });
        rings = s.rings ++ ring (trunc p.x) (trunc p.y) (result_color result) ∷ [];
        status_msg = some (status_line p.name (status_arg p.path p.fd) result);
        status_color = result_color result;
        status_since = s.frame;
      }

  -- R15: the ring where the box was.
  unfoldable pub poof : ExitEvent → Scene F → Scene F
  poof e s = elim (lookup e.pid s.rects) [
    | none ↦ s
    | some b ↦ record s {
      rings = s.rings ++ ring (b.x +ℤ floor_div b.w 2) (b.y +ℤ floor_div b.h 2) col_dim ∷ [];
    }
  ]

  -- Scene.notify
  unfoldable pub notify : Event → Scene F → Scene F
  unfolding begin_pulse end_pulse poof
  notify (spawn e) s = record s {
    splits = s.splits ++ record { parent = e.parent; child = e.child; age = 0 } ∷ [];
  }
  notify (exited e) s = poof e s
  notify (syscall e) s = elim e.phase [
    | Phase.enter ↦ record s { pulse = some (begin_pulse e s) }
    | Phase.exit ↦ elim s.pulse [ none ↦ s | some p ↦ end_pulse e p s ]
  ]

  -- The ring of a pulse that crosses the boundary on its way down.
  unfoldable pub crossing : Float → Pulse F → List Ring
  crossing before p =
      if le before (of_int (pos boundary_y)) && lt (of_int (pos boundary_y)) p.y
      then ring (trunc p.x) (pos boundary_y) col_pulse ∷ []
      else []

  -- The branch of `step` for DESCEND.
  unfoldable pub step_descend : Pulse F → Scene F → Scene F
  unfolding lerp ease progress_at crossing
  step_descend p s =
      let progress = progress_at p.t descend_frames in
      let eased = ease progress in
      let moved = record p {
        y = lerp (of_int (pos origin_y)) (of_int (pos rest_y)) eased;
        x = lerp (of_int p.origin_x) (of_int p.target_x) eased;
      } in
      record s {
        rings = s.rings ++ crossing p.y moved;
        pulse = some (
            if le (of_int (pos 1)) progress
            then record moved { x = of_int p.target_x; state = PulseState.wait; t = 0 }
            else moved);
      }

  -- The branch of `step` for RETURN.
  unfoldable pub step_return : Pulse F → Scene F → Scene F
  unfolding lerp ease progress_at result_color
  step_return p s =
      let progress = progress_at p.t return_frames in
      let eased = ease progress in
      if le (of_int (pos 1)) progress
      then record s {
        rings = s.rings ++ ring p.origin_x (pos origin_y) (result_color (or_zero p.result)) ∷ [];
        pulse = none;
        result_shown_since = some s.frame;
      }
      else record s {
        pulse = some (record p {
          y = lerp p.return_from (of_int (pos origin_y)) eased;
          x = lerp (of_int p.target_x) (of_int p.origin_x) eased;
        });
      }

  -- The part of `step` behind `pulse.t += 1`.
  unfoldable pub step_pulse : Pulse F → Scene F → Scene F
  unfolding step_descend step_return
  step_pulse p s = elim p.state [
    | PulseState.descend ↦ step_descend p s
    | PulseState.wait ↦ record s { pulse = some p }
    | PulseState.return ↦ step_return p s
  ]

  -- The part of `step` before the pulse.
  abbrev pub tick : Scene F → Scene F
  tick s = record s { frame = suc s.frame; rings = age_rings s.rings; splits = age_splits s.splits }

  -- Scene.step
  unfoldable pub step : Scene F → Scene F
  unfolding step_pulse
  step s = elim s.pulse [ none ↦ tick s | some p ↦ step_pulse (record p { t = suc p.t }) (tick s) ]
