-- ===== src/Visualizer.antt =====
-- visualizer.py: the backend, which draws the commands of a frame. Pyxel is a parameter: its functions on
-- a state of the screen, and the test of a key.
pub mod Loop
pub mod Session
use mathlib.Core.Option
use fuddy_duddy.Prelude.{ℕ, Bool, true, false, Option, none, some, List, [], ◌∷◌, if◌then◌else◌}
use fuddy_duddy.Int.{ℤ}
use fuddy_duddy.Text.{Str}
use fuddy_duddy.Floats.{Floats}
use fuddy_duddy.Render.{Command, rect, line, circle, text, pixel}
use fuddy_duddy.App.{App, EventSource, advance, commands}

pub record Pyxel : Type 1 where
  pub Screen : Type 0
  -- init(width, height, title=…, fps=…)
  pub init : ℕ → ℕ → Str → ℕ → Screen → Screen
  pub cls : ℕ → Screen → Screen
  pub rect : ℤ → ℤ → ℤ → ℤ → ℕ → Screen → Screen
  pub rectb : ℤ → ℤ → ℤ → ℤ → ℕ → Screen → Screen
  pub line : ℤ → ℤ → ℤ → ℤ → ℕ → Screen → Screen
  pub circ : ℤ → ℤ → ℤ → ℕ → Screen → Screen
  pub circb : ℤ → ℤ → ℤ → ℕ → Screen → Screen
  pub text : ℤ → ℤ → Str → ℕ → Screen → Screen
  pub pset : ℤ → ℤ → ℕ → Screen → Screen
  -- btnp(KEY_Q), and quit() where it returns
  pub is_q_pressed : Screen → Bool
  pub quit : Screen → Screen

-- pyxel.COLOR_BLACK
abbrev pub color_black : ℕ
color_black = 0

module _ (P : Pyxel) where
  open P use {Screen}

  -- PyxelBackend.execute
  unfoldable pub execute : Command → Screen → Screen
  execute (rect x y w h color filled) s =
      if filled then P.rect x y w h color s else P.rectb x y w h color s
  execute (line x y v w color) s = P.line x y v w color s
  execute (circle x y r color filled) s =
      if filled then P.circ x y r color s else P.circb x y r color s
  execute (text x y t color) s = P.text x y t color s
  execute (pixel x y color) s = P.pset x y color s

  -- The loop of `draw`.
  unfoldable pub execute_all : List Command → Screen → Screen
  unfolding execute
  execute_all [] s = s
  execute_all (c ∷ cs) s = execute_all cs (execute c s)

  module _ (F : Floats) {S : Type 0} (source : EventSource S) where
    -- PyxelBackend.update
    unfoldable pub update : App F S → Screen → Option (App F S × Screen)
    update a s =
        let s' = if P.is_q_pressed s then P.quit s else s in
        Option.map (λ b. (b, s')) (advance F source a)

    -- PyxelBackend.draw
    unfoldable pub draw : App F S → Screen → Option (App F S × Screen)
    unfolding execute_all
    draw a s = Option.map (λ r. (r.1, execute_all r.0 (P.cls color_black s))) (commands F source a)

    -- A frame of `pyxel.run`: an update, then a draw.
    unfoldable pub frame : App F S → Screen → Option (App F S × Screen)
    unfolding update draw
    frame a s = elim (update a s) [ none ↦ none | some r ↦ draw r.0 r.1 ]
