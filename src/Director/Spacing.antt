-- ===== src/Director/Spacing.antt =====
-- The frames of the director's releases.
use mathlib.Core.Path.{subst}
use fuddy_duddy.Prelude.{
  refl, ℕ, ◌+◌, ◌≤◌, ◌≡◌, false, if_cases, Option, none, some, List, [], ◌∷◌, ◌++◌, arith,
}
use fuddy_duddy.Event.{Event, Phase, syscall, spawn, exited}
use fuddy_duddy.Director.{
  Director, feed, poll, release, waits, gap_behind, phase_of, at_frame, run, Step, feeds, polls,
}

-- The frames between a release and the next one.
abbrev gap : Option Phase → ℕ
gap none = 6
gap (some Phase.enter) = 20
gap (some Phase.exit) = 6

-- The phase of a syscall's event.
abbrev phase : Event → Option Phase
phase (syscall e) = some e.phase
phase (spawn e) = none
phase (exited e) = none

gap_behind_lem : (p : Option Phase) → gap_behind p ≡ gap p
unfolding gap_behind
gap_behind_lem none = refl
gap_behind_lem (some Phase.enter) = refl
gap_behind_lem (some Phase.exit) = refl

phase_of_lem : (e : Event) → phase_of e ≡ phase e
unfolding phase_of
phase_of_lem (syscall e) = refl
phase_of_lem (spawn e) = refl
phase_of_lem (exited e) = refl

-- No release comes before the wait behind the last one is over: 20 frames behind an event of phase
-- ENTER, 6 behind any other.
abbrev pub Spaced : Option ℕ → Option Phase → List (ℕ × Event) → Type 0
Spaced last before [] = Unit
Spaced none before ((f, e) ∷ rs) = Spaced (some f) (phase e) rs
Spaced (some last) before ((f, e) ∷ rs) = (last + gap before ≤ f) × Spaced (some f) (phase e) rs

waits-false :
    (f last : ℕ) (before : Option Phase)
    → waits f (some last) before ≡ false
    → last + gap before ≤ f
unfolding waits
waits-false f last before due = ground (arith, gap_behind_lem before)

release-Spaced :
    (f : ℕ) (d : Director) (q : List Event) (rs : List (ℕ × Event))
    → waits f d.last_release d.last_phase ≡ false
    → Spaced (release f d q).1.last_release (release f d q).1.last_phase rs
    → Spaced d.last_release d.last_phase (at_frame f (release f d q).0 ++ rs)
unfolding release at_frame
release-Spaced f d [] rs due h = h
release-Spaced f d (e ∷ es) rs due h =
    allowed f d.last_release d.last_phase e rs due
      (subst (λ p. Spaced (some f) p rs) (phase_of_lem e) h)
  where
    allowed :
        (f : ℕ) (last : Option ℕ) (before : Option Phase) (e : Event) (rs : List (ℕ × Event))
        → waits f last before ≡ false
        → Spaced (some f) (phase e) rs
        → Spaced last before ((f, e) ∷ rs)
    allowed f none before e rs due h = h
    allowed f (some last) before e rs due h = (waits-false f last before due, h)

poll-Spaced :
    (f : ℕ) (d : Director) (rs : List (ℕ × Event))
    → Spaced (poll f d).1.last_release (poll f d).1.last_phase rs
    → Spaced d.last_release d.last_phase (at_frame f (poll f d).0 ++ rs)
unfolding poll at_frame
poll-Spaced f d rs =
    if_cases
      (λ (r : List Event × Director).
        Spaced r.1.last_release r.1.last_phase rs
        → Spaced d.last_release d.last_phase (at_frame f r.0 ++ rs))
      (waits f d.last_release d.last_phase) _ _ (λ early h. h)
      (λ due. release-Spaced f d d.queue rs due)

-- In every sequence of calls on every director, each release comes at least 20 frames after the
-- release before it if that was a syscall event of phase ENTER, and at least 6 frames after it if
-- that was any other event; this also holds of the first release and the one that the director
-- remembers from before the sequence.
pub run-Spaced : (ss : List Step) (d : Director) → Spaced d.last_release d.last_phase (run ss d).0
unfolding run feed
run-Spaced [] d = tt
run-Spaced (feeds e ∷ ss) d = run-Spaced ss (feed e d)
run-Spaced (polls f ∷ ss) d = poll-Spaced f d (run ss (poll f d).1).0 (run-Spaced ss (poll f d).1)
