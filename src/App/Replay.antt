-- ===== src/App/Replay.antt =====
-- The app over many frames: the world and the director of `App.step`.
use fuddy_duddy.Prelude.{
  ℕ, zero, suc, ◌+◌, ◌*◌, ◌≤◌, ◌≡◌, refl, sym, ◌∙◌, ap, some, List, [], ◌∷◌, ◌++◌, length, arith,
}
use fuddy_duddy.Event.{Event}
use fuddy_duddy.Floats.{Floats}
use fuddy_duddy.Director
use fuddy_duddy.Director.{Director, polls}
use fuddy_duddy.Director.Fifo.{events, events-append, events-at_frame}
use fuddy_duddy.Director.Drain.{frames, IsPast, drains}
use fuddy_duddy.Model
use fuddy_duddy.Model.{World}
use fuddy_duddy.Scene.State.{Scene, notify}
use fuddy_duddy.App.{App, director_source, show, play, advance, run}

pub run-append :
    (es fs : List Event) (w : World) → Model.run (es ++ fs) w ≡ Model.run fs (Model.run es w)
unfolding Model.run
run-append [] fs w = refl
run-append (e ∷ es) fs w = run-append es fs (Model.apply e w).1

module _ (F : Floats) where
  pub show-world :
      (es : List Event) (w : World) (s : Scene F) → (show F es (w, s)).0 ≡ Model.run es w
  unfolding show Model.run
  show-world [] w s = refl
  show-world (e ∷ es) w s = show-world es (Model.apply e w).1 (notify F (Model.apply e w).0 s)

  -- The app that `k` frames lead to.
  unfoldable pub after : ℕ → App F Director → App F Director
  after zero a = a
  after (suc k) a = after k (play F director_source (Director.poll a.frame a.source) a)

  pub run-after : (k : ℕ) (a : App F Director) → run F director_source k a ≡ some (after k a)
  unfolding run advance after
  run-after zero a = refl
  run-after (suc k) a = run-after k (play F director_source (Director.poll a.frame a.source) a)

  module _ (a : App F Director) (k : ℕ) where
    abbrev Replays : App F Director → Type 0
    Replays b =
        (b.world ≡ Model.run (events (Director.run (frames a.frame k) a.source).0) a.world)
        × (b.source ≡ (Director.run (frames a.frame k) a.source).1)
        × (b.frame ≡ a.frame + k)

  after-Replays : (k : ℕ) (a : App F Director) → Replays a k (after k a)
  unfolding after play Director.run Model.run
  after-Replays zero a = (refl, refl, omega arith)
  after-Replays (suc k) a =
      let polled = Director.poll a.frame a.source in
      let b = play F director_source polled a in
      let (w, d, f) = after-Replays k b in
      let later = Director.run (frames (suc a.frame) k) polled.1 in
      (
        w
            ∙ ap (Model.run (events later.0)) (show-world polled.0 a.world a.scene)
            ∙ sym (run-append polled.0 (events later.0) a.world)
            ∙ ap (λ es. Model.run (es ++ events later.0) a.world)
                (sym (events-at_frame a.frame polled.0))
            ∙ ap (λ es. Model.run es a.world)
                (sym (events-append (Director.at_frame a.frame polled.0) later.0)),
        d,
        f ∙ omega arith,
      )

  -- The app with a director as its source plays any number of frames, and its world is then what
  -- the events of the director's releases at these frames, in their order, make of the world
  -- before, its director is the one that the polls leave, and its frame counts the frames.
  pub run-replays :
      (k : ℕ) (a : App F Director)
      → let calls = Director.run (frames a.frame k) a.source in
        (b : App F Director) × (run F director_source k a ≡ some b)
        × (b.world ≡ Model.run (events calls.0) a.world)
        × (b.source ≡ calls.1)
        × (b.frame ≡ a.frame + k)
  run-replays k a = let (w, d, f) = after-Replays k a in (after k a, run-after k a, w, d, f)

  pub queue_is_shown :
      (k : ℕ) (a : App F Director)
      → IsPast a.frame a.source.last_release
      → 20 * length a.source.queue + 1 ≤ k
      → (b : App F Director) × (run F director_source k a ≡ some b)
        × (b.world ≡ Model.run a.source.queue a.world)
  queue_is_shown k a past enough =
      let (w, _, _) = after-Replays k a in
      (
        after k a,
        run-after k a,
        w ∙ ap (λ es. Model.run es a.world) (drains a.frame k a.source past enough),
      )
