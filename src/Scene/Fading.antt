-- ===== src/Scene/Fading.antt =====
-- A failure whose pulse is replaced on its way home, by the ENTER of the next syscall.
use mathlib.Core.Path.{subst}
use fuddy_duddy.Prelude.{ℕ, zero, suc, ◌+◌, ◌<◌, ◌≡◌, sym, ◌∙◌, some, [], ◌⊎◌, inl, inr, arith}
use fuddy_duddy.Int.{ℤ, negsuc}
use fuddy_duddy.Event.{Phase, SyscallEvent, syscall}
use fuddy_duddy.Floats.{Floats, IsExact}
use fuddy_duddy.Model.{Process}
use fuddy_duddy.Scene.Layers.{fail_result_ttl}
use fuddy_duddy.Scene.State.{
  PulseState, Pulse, Scene, return_frames, end_pulse, notify, step_descend, step_return, step_pulse,
  tick,
}
use fuddy_duddy.Scene.Draw.{draw_result, is_returning, is_faded}
use fuddy_duddy.Scene.Pulse.{progress_early, steps, step-some, steps-IsOut, IsOut}
use fuddy_duddy.Scene.Return.{stepped, notify-exit}
use fuddy_duddy.Scene.Arrival.{steps-IsUnderway}

module _ (F : Floats) (exact : IsExact F) where
  -- The landing that the fading is measured from, and how far it is back.
  abbrev IsAged : ℕ → Scene F → Type 0
  IsAged since s = (s.result_shown_since ≡ some since) × (since + fail_result_ttl < s.frame)

  step_pulse-since :
      (p : Pulse F) (s : Scene F)
      → (p.state ≡ PulseState.descend) ⊎ (p.state ≡ PulseState.wait)
      → ((step_pulse F p s).result_shown_since ≡ s.result_shown_since)
        × ((step_pulse F p s).frame ≡ s.frame)
  unfolding step_pulse step_descend
  step_pulse-since p s (inl down) = ground arith
  step_pulse-since p s (inr waits) = ground arith

  -- A pulse that does not return.
  away :
      (n : _) (x : ℤ) (k : ℕ) (p : Pulse F)
      → IsOut F exact n x k p
      → (p.state ≡ PulseState.descend) ⊎ (p.state ≡ PulseState.wait)
  away n x k p out = elim out.way [ inl (_, down, _) ↦ inl down | inr (_, waits, _, _) ↦ inr waits ]

  enter-IsAged :
      (e : SyscallEvent) (s : Scene F) (since k : ℕ)
      → e.phase ≡ Phase.enter
      → IsAged since s
      → IsAged since (steps F exact k (notify F (syscall e) s))
  unfolding notify
  enter-IsAged e s since zero h aged = ground arith
  enter-IsAged e s since (suc k) h aged =
      let v = steps F exact k (notify F (syscall e) s) in
      let (same, old) = enter-IsAged e s since k h aged in
      let (p, there, out) = steps-IsOut F exact e s k h in
      let (since_kept, frame_kept) =
        step_pulse-since (record p { t = suc p.t }) (tick F v) (away _ _ k p out) in
      subst (IsAged since) (sym (step-some F exact v p there)) (since_kept ∙ same, omega arith)

  exit-IsAged :
      (e : SyscallEvent) (s : Scene F) (q : Pulse F) (since k : ℕ)
      → e.phase ≡ Phase.exit
      → s.pulse ≡ some q
      → k < return_frames
      → IsAged since s
      → IsAged since (steps F exact k (notify F (syscall e) s))
  unfolding end_pulse step_return
  exit-IsAged e s q since zero h found early aged =
      subst (IsAged since) (sym (notify-exit F exact e s (some q) h found)) aged
  exit-IsAged e s q since (suc k) h found early aged =
      let v = steps F exact k (notify F (syscall e) s) in
      let (same, old) = exit-IsAged e s q since k h found (omega arith) aged in
      let (_, way) = steps-IsUnderway F exact e s q k h found in
      elim way [
        | inr (late, _, _) ↦ absurd (omega arith)
        | inl (_, (p, out, back, clock)) ↦
            rw
              (
                stepped F exact k v p out back clock,
                progress_early F exact (suc p.t) return_frames (omega arith) (omega arith),
              )
              (same, omega arith)
      ]

  -- For floating point numbers that are exact on small integers: an EXIT finds a pulse more than
  -- 30 frames after the last landing, the result of the process is negative, and an ENTER comes
  -- less than 14 frames after the EXIT; then the result is drawn neither when the ENTER comes nor
  -- at any number of frames behind it in which nothing else is notified.
  pub failure_hidden :
      (leaving entering : SyscallEvent) (s : Scene F) (q : Pulse F) (since k j : ℕ) (p : Process)
      (n : ℕ)
      → leaving.phase ≡ Phase.exit
      → entering.phase ≡ Phase.enter
      → s.pulse ≡ some q
      → s.result_shown_since ≡ some since
      → since + fail_result_ttl < s.frame
      → k < return_frames
      → p.last_result ≡ some (negsuc n)
      → let v = steps F exact k (notify F (syscall leaving) s) in
        (draw_result F v p ≡ [])
        × (draw_result F (steps F exact j (notify F (syscall entering) v)) p ≡ [])
  unfolding draw_result is_returning is_faded
  failure_hidden leaving entering s q since k j p n hx he found shown old early result =
      let v = steps F exact k (notify F (syscall leaving) s) in
      let (same, aged) = exit-IsAged leaving s q since k hx found early (shown, old) in
      let u = steps F exact j (notify F (syscall entering) v) in
      let (same', aged') = enter-IsAged entering v since j he (same, aged) in
      (ground arith, ground arith)
