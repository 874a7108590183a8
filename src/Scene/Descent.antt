-- ===== src/Scene/Descent.antt =====
-- A pulse on its way down, from frame to frame.
use fuddy_duddy.Prelude.{
  ℕ, suc, ◌<◌, ◌≡◌, refl, sym, ◌∙◌, ap, true, false, Bool-cases, Option-cases, Option, some, ◌⊎◌,
  inl, inr, ltb, arith,
}
use fuddy_duddy.Int.{pos}
use fuddy_duddy.Event.{Phase, Phase-cases, Event, syscall, spawn, exited}
use fuddy_duddy.Floats.{Floats, IsExact}
use fuddy_duddy.Director.{phase_of}
use fuddy_duddy.Scene.State.{
  PulseState, Pulse, Scene, descend_frames, begin_pulse, end_pulse, poof, progress_at, notify, step,
  step_descend, step_return, step_pulse, tick,
}
use fuddy_duddy.Scene.Pulse.{progress_early, progress_late, step-some}
use fuddy_duddy.Scene.Return.{step-none}

module _ (F : Floats) (exact : IsExact F) where
  -- The pulse is on its way down, for `t` frames.
  abbrev pub IsDescending : Option (Pulse F) → ℕ → Type 0
  IsDescending o t = (p : Pulse F) × (o ≡ some p) × (p.state ≡ PulseState.descend) × (p.t ≡ t)

  state_cases :
      (st : PulseState)
      → (st ≡ PulseState.descend) ⊎ ((st ≡ PulseState.wait) ⊎ (st ≡ PulseState.return))
  state_cases PulseState.descend = inl refl
  state_cases PulseState.wait = inr (inl refl)
  state_cases PulseState.return = inr (inr refl)

  module _ (p q : Pulse F) (s : Scene F)
      (after : (step_pulse F (record p { t = suc p.t }) s).pulse ≡ some q)
      (down : q.state ≡ PulseState.descend) where
    abbrev Before : Type 0
    Before = (p.state ≡ PulseState.descend) × (q.t ≡ suc p.t) × (suc p.t < descend_frames)

    still_down : p.state ≡ PulseState.descend → suc p.t < descend_frames → Before
    unfolding step_pulse step_descend
    still_down was more =
        let early : F.le (F.of_int (pos 1)) (progress_at F (suc p.t) descend_frames) ≡ false =
          progress_early F exact (suc p.t) descend_frames more (omega arith) in
        ground arith

    not_landed : p.state ≡ PulseState.descend → suc p.t ≡ descend_frames → Before
    unfolding step_pulse step_descend
    not_landed was last =
        let late : F.le (F.of_int (pos 1)) (progress_at F (suc p.t) descend_frames) ≡ true =
          ap (λ t. F.le (F.of_int (pos 1)) (progress_at F t descend_frames)) last
          ∙ progress_late F exact descend_frames (omega arith) (omega arith) in
        ground arith

    not_waiting : p.state ≡ PulseState.wait → Before
    unfolding step_pulse
    not_waiting was = ground arith

    not_returning : p.state ≡ PulseState.return → Before
    unfolding step_pulse step_return
    not_returning was = ground arith

    -- A pulse on its way down came from one that was, and a frame later.
    moved_from : (p.state ≡ PulseState.descend → p.t < descend_frames) → Before
    moved_from bound = elim (state_cases p.state) [
      | inl was ↦ elim (Bool-cases (ltb (suc p.t) descend_frames)) [
        | inl more ↦ still_down was (ground arith)
        | inr last ↦ let b = bound was in not_landed was (ground arith)
      ]
      | inr (inl was) ↦ not_waiting was
      | inr (inr was) ↦ not_returning was
    ]

  -- A frame takes a pulse that is on its way down a frame further, or lands it.
  pub step_from :
      (s : Scene F) (t : ℕ)
      → ((t : ℕ) → IsDescending s.pulse t → t < descend_frames)
      → IsDescending (step F s).pulse t
      → (t' : ℕ) × IsDescending s.pulse t' × (t ≡ suc t') × (t < descend_frames)
  step_from s t bound (q, same, down, clock) = elim (Option-cases s.pulse) [
    | inl idle ↦ absurd (ground (arith, step-none F exact s idle))
    | inr (p, was) ↦
        let e : step F s ≡ step_pulse F (record p { t = suc p.t }) (tick F s) =
          step-some F exact s p was in
        let (d, n, l) =
          moved_from p q (tick F s) (sym (ap (λ (v : Scene F). v.pulse) e) ∙ same) down
            (λ d. bound p.t (p, was, d, refl)) in
        (p.t, (p, was, d, refl), sym clock ∙ n, omega arith)
  ]

  pub notify_from :
      (e : Event) (s : Scene F) (t : ℕ)
      → IsDescending (notify F e s).pulse t
      → ((t ≡ 0) × (phase_of e ≡ some Phase.enter)) ⊎ IsDescending s.pulse t
  unfolding notify phase_of begin_pulse end_pulse poof
  notify_from (spawn e) s t h = inr h
  notify_from (exited e) s t (q, same, down, clock) = inr (q, ground arith, down, clock)
  notify_from (syscall e) s t (q, same, down, clock) = elim (Phase-cases e.phase) [
    | inl enters ↦ inl (ground arith, ground arith)
    | inr exits ↦ elim (Option-cases s.pulse) [
      | inl idle ↦ absurd (ground arith)
      | inr (p, was) ↦ absurd (ground arith)
    ]
  ]
