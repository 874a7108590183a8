-- ===== src/Director/Drain.antt =====
-- Polls of the director at frame after frame.
use mathlib.Core.Path.{subst}
use fuddy_duddy.Prelude.{
  ℕ, zero, suc, ◌+◌, ◌-◌, ◌*◌, ◌≤◌, ◌≡◌, ◌∙◌, ap, refl, sym, true, if_cases, Option, none, some,
  List, [], ◌∷◌, ◌++◌, append-nil, length, arith,
}
use fuddy_duddy.Event.{Event, Phase}
use fuddy_duddy.Director.{Director, poll, release, waits, gap_behind, phase_of, run, Step, polls}
use fuddy_duddy.Director.Fifo.{events, fed, run_fifo}

-- One poll at each of `k` frames in a row.
abbrev pub frames : ℕ → ℕ → List Step
frames f zero = []
frames f (suc k) = polls f ∷ frames (suc f) k

-- The frames until the next release may come.
abbrev wait : ℕ → Option ℕ → Option Phase → ℕ
wait f none phase = 0
wait f (some last) phase = last + gap_behind phase - f

-- How many polls are enough.
abbrev pub measure : ℕ → Option ℕ → Option Phase → List Event → ℕ
measure f last phase [] = 0
measure f last phase (e ∷ es) = wait f last phase + 20 * length es + 1

gap_behind-le : (phase : Option Phase) → gap_behind phase ≤ 20
unfolding gap_behind
gap_behind-le none = omega arith
gap_behind-le (some Phase.enter) = omega arith
gap_behind-le (some Phase.exit) = omega arith

early :
    (f k : ℕ) (last : Option ℕ) (phase : Option Phase) (q : List Event)
    → waits f last phase ≡ true
    → measure f last phase q ≤ suc k
    → measure (suc f) last phase q ≤ k
unfolding waits
early f k last phase [] h m = omega arith
early f k none phase (e ∷ es) h m = cc
early f k (some last) phase (e ∷ es) h m = ground arith

due :
    (f k : ℕ) (d : Director) (q : List Event)
    → d.queue ≡ q
    → measure f d.last_release d.last_phase q ≤ suc k
    → let d' = (release f d q).1 in measure (suc f) d'.last_release d'.last_phase d'.queue ≤ k
unfolding release
due f k d [] same m =
    subst (λ q. measure (suc f) d.last_release d.last_phase q ≤ k) (sym same) (omega arith)
due f k d (e ∷ []) same m = omega arith
due f k d (e ∷ x ∷ xs) same m = omega (arith, gap_behind-le (phase_of e))

pub step :
    (f k : ℕ) (d : Director)
    → measure f d.last_release d.last_phase d.queue ≤ suc k
    → let d' = (poll f d).1 in measure (suc f) d'.last_release d'.last_phase d'.queue ≤ k
unfolding poll
step f k d m =
    if_cases
      (λ (r : List Event × Director). measure (suc f) r.1.last_release r.1.last_phase r.1.queue ≤ k)
      (waits f d.last_release d.last_phase) _ _
      (λ h. early f k d.last_release d.last_phase d.queue h m) (λ h. due f k d d.queue refl m)

pub empty_of_measure :
    (f : ℕ) (last : Option ℕ) (phase : Option Phase) (q : List Event)
    → measure f last phase q ≤ 0
    → q ≡ []
empty_of_measure f last phase [] h = refl
empty_of_measure f last phase (e ∷ es) h = absurd (omega arith)

run_drains :
    (k f : ℕ) (d : Director)
    → measure f d.last_release d.last_phase d.queue ≤ k
    → (run (frames f k) d).1.queue ≡ []
unfolding run
run_drains zero f d m = empty_of_measure f d.last_release d.last_phase d.queue m
run_drains (suc k) f d m = run_drains k (suc f) (poll f d).1 (step f k d m)

-- The last release is not in the future.
abbrev pub IsPast : ℕ → Option ℕ → Type 0
IsPast f none = Unit
IsPast f (some last) = last ≤ f

pub measure-le :
    (f : ℕ) (last : Option ℕ) (phase : Option Phase) (q : List Event)
    → IsPast f last
    → measure f last phase q ≤ 20 * length q + 1
measure-le f last phase [] h = omega arith
measure-le f none phase (e ∷ es) h = omega arith
measure-le f (some last) phase (e ∷ es) h = omega (arith, gap_behind-le phase)

fed-frames : (f k : ℕ) → fed (frames f k) ≡ []
fed-frames f zero = refl
fed-frames f (suc k) = fed-frames (suc f) k

-- A director whose last release is not in the future, polled at each of at least 20 n + 1 frames
-- in a row for its n queued events, releases exactly the queued events, in their order.
pub drains :
    (f k : ℕ) (d : Director)
    → IsPast f d.last_release
    → 20 * length d.queue + 1 ≤ k
    → events (run (frames f k) d).0 ≡ d.queue
drains f k d past enough =
    let bound = measure-le f d.last_release d.last_phase d.queue past in
    let done = run_drains k f d (omega arith) in
    sym (append-nil (events (run (frames f k) d).0))
    ∙ ap (λ q. events (run (frames f k) d).0 ++ q) (sym done)
    ∙ run_fifo (frames f k) d
    ∙ ap (λ s. d.queue ++ s) (fed-frames f k)
    ∙ append-nil d.queue
