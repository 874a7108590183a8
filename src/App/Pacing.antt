-- ===== src/App/Pacing.antt =====
-- The app with a director that another thread feeds: the frames of the pulse against the releases.
use mathlib.Core.Path.{subst}
use fuddy_duddy.Model
use mathlib.Core.Option.{some-injective}
use fuddy_duddy.Prelude.{
  ℕ, ◌+◌, ◌<◌, ◌≡◌, ◌≢◌, refl, sym, false, Bool-cases, some, List, [], ◌∷◌, ◌⊎◌, inl, inr, arith,
}
use fuddy_duddy.Event.{Phase, Event, syscall, spawn, exited}
use fuddy_duddy.Floats.{Floats, IsExact}
use fuddy_duddy.Director
use fuddy_duddy.Director.{Director, enter_hold_frames, feed, waits, release, phase_of, gap_behind}
use fuddy_duddy.Model.{World}
use fuddy_duddy.Render.{Command}
use fuddy_duddy.Scene.State.{PulseState, Pulse, Scene, descend_frames, notify}
use fuddy_duddy.Scene.Draw.{render}
use fuddy_duddy.App.Moves.{Move, feeds, plays, draws, Reach, here, next, drawn_by_render}
use fuddy_duddy.App.{App, start, director_source, show, play, advance, commands}
use fuddy_duddy.Scene.Descent.{IsDescending, step_from, notify_from}

module _ (F : Floats) (exact : IsExact F) where
  -- A pulse on its way down was released by the last release, `t` frames before.
  abbrev IsPaced : Director → ℕ → ℕ → Type 0
  IsPaced d frame t =
      (t < descend_frames)
      × (d.last_phase ≡ some Phase.enter)
      × ((l : ℕ) × (d.last_release ≡ some l) × (l + t ≡ frame))

  record InStep (a : App F Director) : Type 0 where
    paced : (t : ℕ) → IsDescending F exact a.scene.pulse t → IsPaced a.source a.frame t

  start-InStep : (w : World) (d : Director) → InStep (start F w d)
  start-InStep w d = record { paced = λ t h. cc (h.1) }

  feeds-InStep :
      (a : App F Director) (e : Event) → InStep a → InStep (record a { source = feed e a.source })
  unfolding feed
  feeds-InStep a e h = record { paced = h.paced }

  render_keeps :
      (w : World) (s s' : Scene F) (cs : List Command)
      → render F w s ≡ some (cs, s')
      → s'.pulse ≡ s.pulse
  unfolding render
  render_keeps w s s' cs h = ground arith

  -- What one poll releases.
  release_cases :
      (frame : ℕ) (d : Director) (queue : List Event)
      → (release frame d queue ≡ ([], d))
        ⊎ ((e : Event) × (es : List Event) × (release frame d queue ≡ (
          e ∷ [],
          record { queue = es; last_release = some frame; last_phase = phase_of e },
        )))
  unfolding release
  release_cases frame d [] = inl refl
  release_cases frame d (e ∷ es) = inr (e, es, refl)

  poll_cases :
      (frame : ℕ) (d : Director)
      → (Director.poll frame d ≡ ([], d))
        ⊎ ((waits frame d.last_release d.last_phase ≡ false)
            × ((e : Event) × (es : List Event) × (Director.poll frame d ≡ (
              e ∷ [],
              record { queue = es; last_release = some frame; last_phase = phase_of e },
            ))))
  unfolding Director.poll
  poll_cases frame d = elim (Bool-cases (waits frame d.last_release d.last_phase)) [
    | inl early ↦ inl (rw early refl)
    | inr late ↦ elim (release_cases frame d d.queue) [
      | inl idle ↦ inl (rw (late, idle) refl)
      | inr (e, es, made) ↦ inr (late, (e, es, rw (late, made) refl))
    ]
  ]

  quiet-InStep : (a : App F Director) → InStep a → InStep (play F director_source ([], a.source) a)
  unfolding play show
  quiet-InStep a h = record {
    paced = λ t falls.
        let (t', before, clock, short) =
          step_from F exact a.scene t (λ u fell. (h.paced u fell).0) falls in
        let (_, phase, (l, released, count)) = h.paced t' before in
        (short, phase, (l, released, omega arith));
  }

  -- A release finds no pulse on its way down.
  not-IsDescending :
      (a : App F Director) (t : ℕ)
      → InStep a
      → waits a.frame a.source.last_release a.source.last_phase ≡ false
      → ¬ IsDescending F exact a.scene.pulse t
  unfolding waits gap_behind
  not-IsDescending a t h late falls =
      let (short, phase, (l, released, count)) = h.paced t falls in ground arith

  apply-same : (e : Event) (w : World) → (Model.apply e w).0 ≡ e
  unfolding Model.apply
  apply-same (syscall e) w = refl
  apply-same (spawn e) w = refl
  apply-same (exited e) w = refl

  shown-InStep :
      (a : App F Director) (e : Event) (es : List Event)
      → InStep a
      → waits a.frame a.source.last_release a.source.last_phase ≡ false
      → InStep (
          play F director_source
            (e ∷ [], record { queue = es; last_release = some a.frame; last_phase = phase_of e })
            a)
  unfolding play show
  shown-InStep a e es h late = rw (apply-same e a.world) (record {
    paced = λ t falls.
        let s = notify F e a.scene in
        let bound : (u : ℕ) → IsDescending F exact s.pulse u → u < descend_frames = λ u fell.
          elim (notify_from F exact e a.scene u fell) [
            | inl (new, _) ↦ omega arith
            | inr old ↦ (h.paced u old).0
          ] in
        let (t', before, clock, short) = step_from F exact s t bound falls in
        elim (notify_from F exact e a.scene t' before) [
          | inl (new, enters) ↦ (short, enters, (a.frame, refl, omega arith))
          | inr old ↦ absurd (not-IsDescending a t' h late old)
        ];
  })

  plays-InStep : (a b : App F Director) → InStep a → advance F director_source a ≡ some b → InStep b
  unfolding advance
  plays-InStep a b h made =
      subst InStep (some-injective _ _ made) (elim (poll_cases a.frame a.source) [
        | inl idle ↦ rw idle (quiet-InStep a h)
        | inr (late, (e, es, released)) ↦ rw released (shown-InStep a e es h late)
      ])

  draws-InStep :
      (a b : App F Director) (cs : List Command)
      → InStep a
      → commands F director_source a ≡ some (cs, b)
      → InStep b
  draws-InStep a b cs h drawn =
      let (cs', s, made, same) = drawn_by_render F a b cs drawn in
      subst InStep same (record {
        paced = λ t falls. h.paced t (rw (sym (render_keeps a.world a.scene s cs' made)) falls);
      })

  Move-InStep : {a b : App F Director} → InStep a → Move F a b → InStep b
  Move-InStep h (feeds a e) = feeds-InStep a e h
  Move-InStep h (plays made) = plays-InStep _ _ h made
  Move-InStep h (draws cs drawn) = draws-InStep _ _ cs h drawn

  Reach-InStep : {a b : App F Director} → InStep a → Reach F a b → InStep b
  Reach-InStep h here = h
  Reach-InStep h (next r m) = Move-InStep (Reach-InStep h r) m

  -- For floating point numbers that are exact on small integers: in every app that is reached from
  -- a new one by feeding events, playing frames and drawing them in any order, when the director's
  -- poll of the frame releases an event, no pulse in the scene is still on its way down.
  pub release_finds_rest :
      (w : World) (d : Director) (a : App F Director) (e : Event) (d' : Director) (p : Pulse F)
      → Reach F (start F w d) a
      → Director.poll a.frame a.source ≡ (e ∷ [], d')
      → a.scene.pulse ≡ some p
      → p.state ≢ PulseState.descend
  release_finds_rest w d a e d' p r released found falls = elim (poll_cases a.frame a.source) [
    | inl idle ↦ absurd (ground (arith, idle, released))
    | inr (late, _) ↦
        not-IsDescending a p.t (Reach-InStep (start-InStep w d) r) late (p, found, falls, refl)
  ]
