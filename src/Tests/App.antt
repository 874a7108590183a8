-- ===== src/Tests/App.antt =====
-- The theorems on the app and its frames, at a few events.
use fuddy_duddy.Prelude.{
  ℕ, suc, ◌+◌, ◌*◌, ◌≡◌, ◌≢◌, refl, true, false, none, some, List, [], ◌∷◌, map, arith,
}
use fuddy_duddy.Int.{pos, int_leb, int_ltb, floor_div}
use fuddy_duddy.Text.{codes}
use fuddy_duddy.Event.{Phase, Event, syscall}
use fuddy_duddy.Director
use fuddy_duddy.Director.{Director, empty}
use fuddy_duddy.Director.Fifo.{events}
use fuddy_duddy.Director.Drain.{frames}
use fuddy_duddy.Source.{Item, ScriptedSource, scripted, sorted}
use fuddy_duddy.Model
use fuddy_duddy.Model.{World}
use fuddy_duddy.Render.{Command}
use fuddy_duddy.Scene.State.{PulseState, Pulse, begin_pulse}
use fuddy_duddy.Scene.State
use fuddy_duddy.App.{App, start, director_source, scripted_source, run, play, advance, commands}
use fuddy_duddy.App.Moves.{Reach, here, run-Reach}
use fuddy_duddy.App.Replay.{after, run-after, run-replays}
use fuddy_duddy.App.Pacing.{release_finds_rest}
use fuddy_duddy.App.Scripted.{repeated, loops_play}
use fuddy_duddy.Visualizer.{Pyxel, frame}
use fuddy_duddy.Visualizer.Loop.{Draws, frame_draws}
use fuddy_duddy.Tests.Whole.{quotient, whole, whole-IsExact}
use fuddy_duddy.Tests.Samples.{world, world-IsValid, entering, leaving}

abbrev enters : Event
enters = syscall (entering (codes "read") none (some (pos 0)) [])

abbrev exits : Event
exits = syscall (leaving (codes "read") (pos 5))

abbrev busy : Director
busy = record empty { queue = enters ∷ exits ∷ [] }

run-replays_example :
    (b : App whole Director) × (run whole director_source 30 (start whole world busy) ≡ some b)
    × (b.world ≡ Model.run (events (Director.run (frames 0 30) busy).0) world)
    × (b.source ≡ (Director.run (frames 0 30) busy).1)
    × (b.frame ≡ 0 + 30)
run-replays_example = run-replays whole 30 (start whole world busy)

-- The app when the EXIT is due.
abbrev at_exit : App whole Director
at_exit = after whole 20 (start whole world busy)

abbrev waiting : Pulse whole
waiting = elim at_exit.scene.pulse [
  | none ↦ begin_pulse whole (entering (codes "read") none (some (pos 0)) []) (State.empty whole)
  | some p ↦ p
]

at_exit-Reach : Reach whole (start whole world busy) at_exit
at_exit-Reach =
    run-Reach whole 20 (start whole world busy) at_exit
      (run-after whole 20 (start whole world busy))

at_exit_release :
    Director.poll at_exit.frame at_exit.source
    ≡ (exits ∷ [], record { queue = []; last_release = some 20; last_phase = some Phase.exit })
unfolding after Director.poll play
at_exit_release = refl

at_exit_pulse : at_exit.scene.pulse ≡ some waiting
unfolding after play State.step Director.poll State.notify Model.apply int_leb int_ltb quotient
    floor_div
at_exit_pulse = refl

release_finds_rest_example : waiting.state ≢ PulseState.descend
release_finds_rest_example =
    release_finds_rest whole whole-IsExact world busy at_exit exits
      (record { queue = []; last_release = some 20; last_phase = some Phase.exit }) waiting
      at_exit-Reach at_exit_release at_exit_pulse

abbrev script : List Item
script = (4, exits) ∷ (1, enters) ∷ []

loops_play_example :
    let s = scripted script true 3 in
    (b : App whole ScriptedSource) × (run whole scripted_source (2 * s.period) (start whole world s)
      ≡ some b)
    × (b.world ≡ Model.run (repeated 2 (map (λ x. x.1) (sorted script))) world)
loops_play_example = loops_play whole script 3 2 world (omega arith)

-- A screen that counts what is drawn.
abbrev pub counter : Pyxel
counter = record {
  Screen = ℕ;
  init = λ _ _ _ _ _. 0;
  cls = λ _ _. 0;
  rect = λ _ _ _ _ _ s. suc s;
  rectb = λ _ _ _ _ _ s. suc s;
  line = λ _ _ _ _ _ s. suc s;
  circ = λ _ _ _ _ s. suc s;
  circb = λ _ _ _ _ s. suc s;
  text = λ _ _ _ _ s. suc s;
  pset = λ _ _ _ s. suc s;
  is_q_pressed = λ _. false;
  quit = λ s. s;
}

frame_draws_example :
    (b : App whole Director) × (cs : List Command) × (c : App whole Director) × (screen : ℕ)
    × (advance whole director_source (start whole world busy) ≡ some b)
    × (commands whole director_source b ≡ some (cs, c))
    × (frame counter whole director_source (start whole world busy) 7 ≡ some (c, screen))
    × Draws counter cs 0 screen
    × Reach whole (start whole world busy) c
frame_draws_example =
    frame_draws counter whole world busy (start whole world busy) 7 world-IsValid here
