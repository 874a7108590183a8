-- ===== src/Scene/Arrival.antt =====
-- When the result of a syscall is in the picture.
use mathlib.Core.Path.{subst}
use fuddy_duddy.Prelude.{
  ℕ, zero, suc, ◌+◌, ◌≤◌, ◌<◌, ◌≡◌, refl, sym, ◌∙◌, ap, Bool, true, not, ◌&&◌, ◌||◌, Bool-cases,
  none, some, [], ◌∷◌, ◌++◌, ◌⊎◌, inl, inr, ltb, leb, arith, if◌then◌else◌,
}
use fuddy_duddy.Int.{ℤ, pos, is_negative, ◌+ℤ◌}
use fuddy_duddy.Text.{codes, print_ℤ}
use fuddy_duddy.Event.{Phase, SyscallEvent, syscall}
use fuddy_duddy.Floats.{Floats, IsExact}
use fuddy_duddy.Model.{Process}
use fuddy_duddy.Render.{text, col_ok, col_fail}
use fuddy_duddy.Scene.Layout.{box_rect}
use fuddy_duddy.Scene.State.{
  PulseState, Pulse, Scene, result_color, progress_at, return_frames, end_pulse, notify,
  step_return, step,
}
use fuddy_duddy.Scene.Draw.{draw_result, is_returning, is_faded}
use fuddy_duddy.Scene.Pulse.{progress_early, progress_late, steps}
use fuddy_duddy.Scene.Return.{stepped, step-none, notify-exit}

-- Whether a result is in the picture `k` frames behind its EXIT: from the landing on, a failure for a
-- while.
abbrev pub is_due : ℕ → ℤ → Bool
is_due k r = leb 14 k && (not (is_negative r) || leb k 44)

module _ (F : Floats) (exact : IsExact F) where
  -- On the way for `k` frames, or landed on the frame `f` + 14.
  abbrev pub IsUnderway : ℕ → ℕ → Scene F → Type 0
  IsUnderway f k s =
      (s.frame ≡ f + k)
      × (((k < return_frames)
            × ((p : Pulse F) × (s.pulse ≡ some p) × (p.state ≡ PulseState.return) × (p.t ≡ k)))
          ⊎ ((return_frames ≤ k)
              × (s.pulse ≡ none)
              × (s.result_shown_since ≡ some (f + return_frames))))

  module _ (f k : ℕ) (s : Scene F) (frame : s.frame ≡ f + k) (p : Pulse F) (out : s.pulse ≡ some p)
      (back : p.state ≡ PulseState.return) (clock : p.t ≡ k) where
    rides : suc k < return_frames → IsUnderway f (suc k) (step F s)
    unfolding step_return
    rides more =
        rw
          (
            stepped F exact k s p out back clock,
            progress_early F exact (suc p.t) return_frames (omega arith) (omega arith),
          )
          (omega arith, inl (more, (_, refl, back, ap suc clock)))

    lands : suc k ≡ return_frames → IsUnderway f (suc k) (step F s)
    unfolding step_return
    lands last =
        let full : suc p.t ≡ return_frames = omega arith in
        let late : F.le (F.of_int (pos 1)) (progress_at F (suc p.t) return_frames) ≡ true =
          ap (λ t. F.le (F.of_int (pos 1)) (progress_at F t return_frames)) full
          ∙ progress_late F exact return_frames (omega arith) (omega arith) in
        rw (stepped F exact k s p out back clock, late)
          (omega arith, inr (omega arith, refl, ap some (omega arith)))

  pub steps-IsUnderway :
      (e : SyscallEvent) (s : Scene F) (q : Pulse F) (k : ℕ)
      → e.phase ≡ Phase.exit
      → s.pulse ≡ some q
      → IsUnderway s.frame k (steps F exact k (notify F (syscall e) s))
  unfolding end_pulse
  steps-IsUnderway e s q zero h found =
      subst (IsUnderway s.frame 0) (sym (notify-exit F exact e s (some q) h found))
        (omega arith, inl (omega arith, (_, refl, refl, refl)))
  steps-IsUnderway e s q (suc k) h found =
      let v = steps F exact k (notify F (syscall e) s) in
      let (frame, way) = steps-IsUnderway e s q k h found in
      elim way [
        | inl (early, (p, out, back, clock)) ↦ elim (Bool-cases (ltb (suc k) return_frames)) [
          | inl more ↦ rides s.frame k v frame p out back clock (ground arith)
          | inr last ↦ lands s.frame k v frame p out back clock (ground arith)
        ]
        | inr (late, idle, since) ↦
            rw (step-none F exact v idle) (omega arith, inr (omega arith, idle, since))
      ]

  -- For floating point numbers that are exact on small integers: k frames after an EXIT that finds
  -- a pulse, and with nothing else notified, the result of the process is drawn beside its box, in
  -- COL_FAIL if it is negative and in COL_OK if it is not, exactly if k is at least 14, when the
  -- pulse has landed, and, for a negative result, at most 44; otherwise nothing is drawn of it
  -- (R5, R6).
  pub result_arrives :
      (e : SyscallEvent) (s : Scene F) (q : Pulse F) (k : ℕ) (p : Process) (r : ℤ)
      → e.phase ≡ Phase.exit
      → s.pulse ≡ some q
      → p.last_result ≡ some r
      → let v = steps F exact k (notify F (syscall e) s) in
        let b = box_rect p.pid v.rects in
        draw_result F v p ≡ (
          if is_due k r
          then text
              (b.x +ℤ b.w +ℤ pos 6)
              (b.y +ℤ pos 13)
              (codes "= " ++ print_ℤ r)
              (if is_negative r then col_fail else col_ok)
            ∷ []
          else [])
  unfolding draw_result is_returning is_faded result_color
  result_arrives e s q k p r h found result =
      let v = steps F exact k (notify F (syscall e) s) in
      let (frame, way) = steps-IsUnderway e s q k h found in
      elim way [
        | inl (early, (u, out, back, clock)) ↦ ground arith
        | inr (late, idle, since) ↦ ground arith
      ]
