-- ===== src/App.antt =====
-- app.py: the loop of frames, which takes events from a source through the world into the scene.
pub mod Moves
pub mod Pacing
pub mod Replay
pub mod Safety
pub mod Scripted
pub mod Openat
pub mod Traced
use mathlib.Core.Option
use fuddy_duddy.Prelude.{ℕ, zero, suc, Option, none, some, List, [], ◌∷◌}
use fuddy_duddy.Event.{Event}
use fuddy_duddy.Director
use fuddy_duddy.Director.{Director}
use fuddy_duddy.Source
use fuddy_duddy.Source.{ScriptedSource}
use fuddy_duddy.Floats.{Floats}
use fuddy_duddy.Model
use fuddy_duddy.Model.{Process, World}
use fuddy_duddy.Render.{Command}
use fuddy_duddy.Scene.State.{Scene, empty, notify, step}
use fuddy_duddy.Scene.Draw.{render}

-- EventSource, over the state that a source has; `none` is an exception.
pub record EventSource (S : Type 0) : Type 0 where
  pub poll : ℕ → S → Option (List Event × S)

abbrev pub director_source : EventSource Director
director_source = record { poll = λ frame d. some (Director.poll frame d) }

abbrev pub scripted_source : EventSource ScriptedSource
scripted_source = record { poll = λ frame s. Option.map (λ es. (es, s)) (Source.poll s frame) }

module _ (F : Floats) where
  -- The loop of `step` over the events of a frame.
  unfoldable pub show : List Event → World × Scene F → World × Scene F
  show [] (w, s) = (w, s)
  show (e ∷ es) (w, s) = let (e', w') = Model.apply e w in show es (w', notify F e' s)

  pub record App (S : Type 0) : Type 0 where
    pub world : World
    pub scene : Scene F
    pub source : S
    pub frame : ℕ

  -- App.__init__, with a new scene
  abbrev pub start : {S : Type 0} → World → S → App S
  start w source = record { world = w; scene = empty F; source = source; frame = 0 }

  module _ {S : Type 0} (source : EventSource S) where
    -- App.step behind the poll.
    unfoldable pub play : List Event × S → App S → App S
    unfolding show
    play (es, polled) a =
        let (w, s) = show es (a.world, a.scene) in
        record { world = w; scene = step F s; source = polled; frame = suc a.frame }

    -- App.step
    unfoldable pub advance : App S → Option (App S)
    unfolding play
    advance a = Option.map (λ r. play r a) (source.poll a.frame a.source)

    -- `k` frames.
    unfoldable pub run : ℕ → App S → Option (App S)
    unfolding advance
    run zero a = some a
    run (suc k) a = elim (advance a) [ none ↦ none | some b ↦ run k b ]

    -- App.commands, with the app whose scene has the new layout
    unfoldable pub commands : App S → Option (List Command × App S)
    commands a = Option.map (λ r. (r.0, record a { scene = r.1 })) (render F a.world a.scene)
