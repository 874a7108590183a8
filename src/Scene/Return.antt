-- ===== src/Scene/Return.antt =====
-- The pulse on its way home, and what is left on the screen behind it.
use mathlib.Core.Path.{subst}
use fuddy_duddy.Prelude.{
  ℕ, zero, suc, ◌-◌, ◌≤◌, ◌<◌, ◌≡◌, refl, sym, ◌∙◌, ap, true, Bool-cases, Option-cases, Option,
  none, some, List, [], ◌∷◌, ◌⊎◌, inl, inr, All, ltb, arith, if_cases,
}
use fuddy_duddy.Int.{pos}
use fuddy_duddy.Event.{Phase, SyscallEvent, syscall}
use fuddy_duddy.Floats.{Floats, IsExact}
use fuddy_duddy.Scene.State.{
  PulseState, Pulse, Scene, Ring, Split, age_rings, age_splits, progress_at, return_frames,
  ring_ttl, split_ttl, end_pulse, notify, step_descend, step_return, step_pulse, tick, step,
}
use fuddy_duddy.Scene.Pulse.{progress_early, progress_late, steps, step-some}

-- Rings that are at least `j` frames old.
abbrev AreOld : ℕ → List Ring → Type 0
AreOld j = All (λ r. j ≤ r.age)

age_rings-AreOld : (j : ℕ) (rs : List Ring) → AreOld j rs → AreOld (suc j) (age_rings rs)
unfolding age_rings
age_rings-AreOld j [] _ = tt
age_rings-AreOld j (r ∷ rs) (h, hs) =
    if_cases (AreOld (suc j)) (ltb (suc r.age) ring_ttl) _ _
      (λ _. (omega arith, age_rings-AreOld j rs hs)) (λ _. age_rings-AreOld j rs hs)

-- Rings of the last frame of their time go.
age_rings-gone : (j : ℕ) (rs : List Ring) → ring_ttl ≤ suc j → AreOld j rs → age_rings rs ≡ []
unfolding age_rings
age_rings-gone j [] late _ = refl
age_rings-gone j (r ∷ rs) late (h, hs) = ground (arith, age_rings-gone j rs late hs)

-- Splits that are at least `j` frames old.
abbrev SplitsAreOld : ℕ → List Split → Type 0
SplitsAreOld j = All (λ s. j ≤ s.age)

age_splits-SplitsAreOld :
    (j : ℕ) (ss : List Split) → SplitsAreOld j ss → SplitsAreOld (suc j) (age_splits ss)
unfolding age_splits
age_splits-SplitsAreOld j [] _ = tt
age_splits-SplitsAreOld j (s ∷ ss) (h, hs) =
    if_cases (SplitsAreOld (suc j)) (ltb (suc s.age) split_ttl) _ _
      (λ _. (omega arith, age_splits-SplitsAreOld j ss hs)) (λ _. age_splits-SplitsAreOld j ss hs)

age_splits-gone :
    (j : ℕ) (ss : List Split) → split_ttl ≤ suc j → SplitsAreOld j ss → age_splits ss ≡ []
unfolding age_splits
age_splits-gone j [] late _ = refl
age_splits-gone j (s ∷ ss) late (h, hs) = ground (arith, age_splits-gone j ss late hs)

AreOld-early : (j : ℕ) (rs : List Ring) → j ≡ 0 → AreOld j rs
AreOld-early j [] h = tt
AreOld-early j (r ∷ rs) h = (omega arith, AreOld-early j rs h)

SplitsAreOld-zero : (ss : List Split) → SplitsAreOld 0 ss
SplitsAreOld-zero [] = tt
SplitsAreOld-zero (s ∷ ss) = (omega arith, SplitsAreOld-zero ss)

module _ (F : Floats) (exact : IsExact F) where
  open F use {of_int, le}

  -- `k` frames behind the EXIT.
  abbrev IsHome : ℕ → Scene F → Type 0
  IsHome k s = (s.pulse ≡ none) × AreOld (k - return_frames) s.rings

  abbrev IsBack : ℕ → Scene F → Type 0
  IsBack k s =
      ((k < return_frames)
        × ((p : Pulse F) × (s.pulse ≡ some p) × (p.state ≡ PulseState.return) × (p.t ≡ k)))
      ⊎ IsHome k s

  step_pulse-return :
      (p : Pulse F) (s : Scene F)
      → p.state ≡ PulseState.return
      → step_pulse F p s ≡ step_return F p s
  unfolding step_pulse
  step_pulse-return p s h = ground arith

  pub step-none : (s : Scene F) → s.pulse ≡ none → step F s ≡ tick F s
  unfolding step
  step-none s h =
      ap
        (λ (o : Option (Pulse F)). elim o as (λ _. Scene F) [
          | none ↦ tick F s
          | some q ↦ step_pulse F (record q { t = suc q.t }) (tick F s)
        ])
        h

  step-IsHome : (k : ℕ) (s : Scene F) → IsHome k s → IsHome (suc k) (step F s)
  step-IsHome k s (idle, old) = rw (step-none s idle) (
    idle,
    elim (Bool-cases (ltb k return_frames)) [
      | inl early ↦ AreOld-early (suc k - return_frames) _ (ground arith)
      | inr late ↦
          subst (λ j. AreOld j (age_rings s.rings)) (ground arith)
            (age_rings-AreOld (k - return_frames) s.rings old)
    ],
  )

  module _ (k : ℕ) (s : Scene F) (p : Pulse F) (here : s.pulse ≡ some p)
      (back : p.state ≡ PulseState.return) (clock : p.t ≡ k) where
    abbrev later : Pulse F
    later = record p { t = suc p.t }

    pub stepped : step F s ≡ step_return F later (tick F s)
    stepped = step-some F exact s p here ∙ step_pulse-return later (tick F s) back

    return_on : suc k < return_frames → IsBack (suc k) (step F s)
    unfolding step_return
    return_on more =
        rw (stepped, progress_early F exact (suc p.t) return_frames (omega arith) (omega arith))
          (inl (more, (_, refl, back, ap suc clock)))

    return_over : suc k ≡ return_frames → IsHome (suc k) (step F s)
    unfolding step_return
    return_over last =
        let full : suc p.t ≡ return_frames = omega arith in
        let late : le (of_int (pos 1)) (progress_at F (suc p.t) return_frames) ≡ true =
          ap (λ t. le (of_int (pos 1)) (progress_at F t return_frames)) full
          ∙ progress_late F exact return_frames (omega arith) (omega arith) in
        rw (stepped, late) (refl, AreOld-early (suc k - return_frames) _ (omega arith))

    step-IsBack : k < return_frames → IsBack (suc k) (step F s)
    step-IsBack early = elim (Bool-cases (ltb (suc k) return_frames)) [
      | inl more ↦ return_on (ground arith)
      | inr last ↦ inr (return_over (ground arith))
    ]

  -- What an EXIT does, by the pulse that it finds.
  abbrev pub answer : SyscallEvent → Scene F → Option (Pulse F) → Scene F
  answer e s none = s
  answer e s (some p) = end_pulse F e p s

  pub notify-exit :
      (e : SyscallEvent) (s : Scene F) (o : Option (Pulse F))
      → e.phase ≡ Phase.exit
      → s.pulse ≡ o
      → notify F (syscall e) s ≡ answer e s o
  unfolding notify
  notify-exit e s none h here = ground arith
  notify-exit e s (some p) h here = ground arith

  steps-IsBack :
      (e : SyscallEvent) (s : Scene F) (k : ℕ)
      → e.phase ≡ Phase.exit
      → IsBack k (steps F exact k (notify F (syscall e) s))
  unfolding end_pulse
  steps-IsBack e s zero h = elim (Option-cases s.pulse) [
    | inl idle ↦
        subst (IsBack 0) (sym (notify-exit e s none h idle)) (inr (idle, AreOld-early 0 _ refl))
    | inr (p, here) ↦
        subst (IsBack 0) (sym (notify-exit e s (some p) h here))
          (inl (omega arith, (_, refl, refl, refl)))
  ]
  steps-IsBack e s (suc k) h = elim (steps-IsBack e s k h) [
    | inl (early, (p, here, back, clock)) ↦ step-IsBack k _ p here back clock early
    | inr home ↦ inr (step-IsHome k _ home)
  ]

  step-splits : (s : Scene F) → (step F s).splits ≡ age_splits s.splits
  unfolding step step_pulse step_descend step_return
  step-splits s = ground arith

  steps_splits : (k : ℕ) (s : Scene F) → SplitsAreOld k (steps F exact k s).splits
  steps_splits zero s = SplitsAreOld-zero s.splits
  steps_splits (suc k) s =
      subst (SplitsAreOld (suc k)) (sym (step-splits (steps F exact k s)))
        (age_splits-SplitsAreOld k (steps F exact k s).splits (steps_splits k s))

  -- For floating point numbers that are exact on small integers: at least 24 frames after an EXIT,
  -- and with nothing else notified, the scene has no pulse, no ring and no split left, whatever it
  -- had before (R5, R13).
  pub exit_clears :
      (e : SyscallEvent) (s : Scene F) (k : ℕ)
      → e.phase ≡ Phase.exit
      → 24 ≤ k
      → let v = steps F exact k (notify F (syscall e) s) in
        (v.pulse ≡ none) × (v.rings ≡ []) × (v.splits ≡ [])
  exit_clears e s zero h late = absurd (omega arith)
  exit_clears e s (suc k) h late = elim (steps-IsBack e s k h) [
    | inl (early, _) ↦ absurd (omega arith)
    | inr (idle, old) ↦
        let w = steps F exact k (notify F (syscall e) s) in
        let idle_step = step-none w idle in
        (
          ap (λ (v : Scene F). v.pulse) idle_step ∙ idle,
          ap (λ (v : Scene F). v.rings) idle_step
              ∙ age_rings-gone (k - return_frames) w.rings (omega arith) old,
          step-splits w
              ∙ age_splits-gone k w.splits (omega arith) (steps_splits k (notify F (syscall e) s)),
        )
  ]

  -- At least 14 frames after an EXIT, and with nothing else notified, there is no pulse.
  pub exit_returns :
      (e : SyscallEvent) (s : Scene F) (k : ℕ)
      → e.phase ≡ Phase.exit
      → return_frames ≤ k
      → (steps F exact k (notify F (syscall e) s)).pulse ≡ none
  exit_returns e s k h late = elim (steps-IsBack e s k h) [
    | inl (early, _) ↦ absurd (omega arith)
    | inr (idle, _) ↦ idle
  ]
