-- ===== src/Visualizer/Session.antt =====
-- A live session: live.py's thread reads lines into the director that the app polls, and visualizer.py's
-- `run` plays and draws frame after frame (__main__.py, `run_live`).
pub mod Shown
pub mod Traced
use fuddy_duddy.Prelude.{ℕ, zero, suc, Option, none, some, List, [], ◌∷◌}
use fuddy_duddy.Text.{Str, codes}
use fuddy_duddy.Render.{width, height, fps}
use fuddy_duddy.Floats.{Floats}
use fuddy_duddy.Decode.{Decoder}
use fuddy_duddy.Director.{Director}
use fuddy_duddy.Live.{LiveCollector, pump}
use fuddy_duddy.App.{App, director_source}
use fuddy_duddy.Visualizer.{Pyxel, frame}

module _ (F : Floats) where
  -- The thread reads some lines: its collector has the director of the app.
  unfoldable pub receive : List Str → Decoder → App F Director → Decoder × App F Director
  unfolding pump
  receive lines d a =
      let c = pump lines (record { decoder = d; director = a.source }) in
      (c.decoder, record a { source = c.director })

module _ (P : Pyxel) (F : Floats) where
  -- Frames in a row, each with the lines that are read since the frame before.
  unfoldable pub session :
      List (List Str)
      → Decoder
      → App F Director
      → P.Screen
      → Option (Decoder × App F Director × P.Screen)
  unfolding receive frame
  session [] d a s = some (d, a, s)
  session (lines ∷ batches) d a s =
      let (d', a') = receive F lines d a in
      elim (frame P F director_source a' s) [ none ↦ none | some r ↦ session batches d' r.0 r.1 ]

  -- PyxelBackend.run: the window, and then a frame at a time until the program is left.
  unfoldable pub run :
      List (List Str)
      → Decoder
      → App F Director
      → P.Screen
      → Option (Decoder × App F Director × P.Screen)
  unfolding session
  run batches d a s = session batches d a (P.init width height (codes "fuddy-duddy") fps s)

-- Frames without a line.
pub quiet : ℕ → List (List Str)
quiet zero = []
quiet (suc k) = [] ∷ quiet k
