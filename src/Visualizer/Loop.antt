-- ===== src/Visualizer/Loop.antt =====
-- The loop of frames.
use fuddy_duddy.Prelude.{ℕ, ◌≡◌, refl, true, false, some, List, [], ◌∷◌, if◌then◌else◌}
use fuddy_duddy.Floats.{Floats}
use fuddy_duddy.Director.{Director}
use fuddy_duddy.Model.{World}
use fuddy_duddy.Model.Invariant.{IsValid}
use fuddy_duddy.Int.{ℤ}
use fuddy_duddy.Text.{Str}
use fuddy_duddy.Render.{Command, rect, line, circle, text, pixel}
use fuddy_duddy.App.{App, start, director_source, advance, commands}
use fuddy_duddy.App.Moves.{plays, draws, Reach, next}
use fuddy_duddy.App.Safety.{no_key_error}
use fuddy_duddy.Visualizer.{Pyxel, execute, execute_all, update, draw, frame}

module _ (P : Pyxel) where
  -- What the screen is behind a list of commands: each is drawn by the function of the library for
  -- its shape, filled or not, in the order of the list.
  pub data Draws : List Command → P.Screen → P.Screen → Type 0 where
    done : {s : P.Screen} → Draws [] s s
    area :
        {x y w h : ℤ} {color : ℕ} {cs : List Command} {s t : P.Screen}
        → Draws cs (P.rect x y w h color s) t
        → Draws (rect x y w h color true ∷ cs) s t
    frame_of :
        {x y w h : ℤ} {color : ℕ} {cs : List Command} {s t : P.Screen}
        → Draws cs (P.rectb x y w h color s) t
        → Draws (rect x y w h color false ∷ cs) s t
    stroke :
        {x y v w : ℤ} {color : ℕ} {cs : List Command} {s t : P.Screen}
        → Draws cs (P.line x y v w color s) t
        → Draws (line x y v w color ∷ cs) s t
    disk :
        {x y r : ℤ} {color : ℕ} {cs : List Command} {s t : P.Screen}
        → Draws cs (P.circ x y r color s) t
        → Draws (circle x y r color true ∷ cs) s t
    ring :
        {x y r : ℤ} {color : ℕ} {cs : List Command} {s t : P.Screen}
        → Draws cs (P.circb x y r color s) t
        → Draws (circle x y r color false ∷ cs) s t
    words :
        {x y : ℤ} {string : Str} {color : ℕ} {cs : List Command} {s t : P.Screen}
        → Draws cs (P.text x y string color s) t
        → Draws (text x y string color ∷ cs) s t
    dot :
        {x y : ℤ} {color : ℕ} {cs : List Command} {s t : P.Screen}
        → Draws cs (P.pset x y color s) t
        → Draws (pixel x y color ∷ cs) s t

  execute_all-Draws : (cs : List Command) (s : P.Screen) → Draws cs s (execute_all P cs s)
  unfolding execute_all execute
  execute_all-Draws [] s = done
  execute_all-Draws (rect x y w h color true ∷ cs) s = area (execute_all-Draws cs _)
  execute_all-Draws (rect x y w h color false ∷ cs) s = frame_of (execute_all-Draws cs _)
  execute_all-Draws (line x y v w color ∷ cs) s = stroke (execute_all-Draws cs _)
  execute_all-Draws (circle x y r color true ∷ cs) s = disk (execute_all-Draws cs _)
  execute_all-Draws (circle x y r color false ∷ cs) s = ring (execute_all-Draws cs _)
  execute_all-Draws (text x y string color ∷ cs) s = words (execute_all-Draws cs _)
  execute_all-Draws (pixel x y color ∷ cs) s = dot (execute_all-Draws cs _)

module _ (P : Pyxel) (F : Floats) where
  -- In every app that is reached, by feeding events, playing frames and drawing them in any order,
  -- from a new one over a valid world, whatever the graphics library does: the next frame of the
  -- backend updates and draws without an exception, the screen is then cleared to color 0 and has
  -- every command of the new picture drawn on it in their order, each by the function of the
  -- library for its shape, which is rect or rectb for a rectangle and circ or circb for a circle
  -- that is filled or not, line for a line, text for a text and pset for a pixel, and the app is
  -- reached again.
  pub frame_draws :
      (w : World) (d : Director) (a : App F Director) (s : P.Screen)
      → IsValid w
      → Reach F (start F w d) a
      → (b : App F Director) × (cs : List Command) × (c : App F Director) × (screen : P.Screen)
        × (advance F director_source a ≡ some b)
        × (commands F director_source b ≡ some (cs, c))
        × (frame P F director_source a s ≡ some (c, screen))
        × Draws P cs (P.cls 0 (if P.is_q_pressed s then P.quit s else s)) screen
        × Reach F (start F w d) c
  unfolding frame update draw
  frame_draws w d a s h r =
      let (_, (b, moved), _) = no_key_error F w d a h r in
      let after = next r (plays moved) in
      let (_, _, (cs, c, drawn)) = no_key_error F w d b h after in
      (
        b,
        cs,
        c,
        _,
        moved,
        drawn,
        rw (moved, drawn, frame) refl,
        execute_all-Draws P cs _,
        next after (draws cs drawn),
      )
