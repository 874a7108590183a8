-- ===== src/App/Safety.antt =====
-- The frames of the app raise no exception: no process is looked up that is not there.
use mathlib.Core.Path.{subst}
use mathlib.Core.Option
use mathlib.Core.Option.{some-injective}
use fuddy_duddy.Prelude.{◌≡◌, refl, sym, ◌∙◌, ap, true, some, List, [], ◌∷◌, All}
use fuddy_duddy.Int.{ℤ, pos, int_eq}
use fuddy_duddy.Dict.{Dict, contains}
use fuddy_duddy.Dict.Laws.{lookup_of_contains}
use fuddy_duddy.Floats.{Floats}
use fuddy_duddy.Director
use fuddy_duddy.Director.{Director}
use fuddy_duddy.Model
use fuddy_duddy.Model.{Process, World}
use fuddy_duddy.Model.Invariant.{IsValid}
use fuddy_duddy.Model.Preserve.{run-IsValid}
use fuddy_duddy.Render.{Command}
use fuddy_duddy.Scene.Layout.{Box, box_pids}
use fuddy_duddy.Scene.Cover.{layout_covers, box_pids-All}
use fuddy_duddy.Scene.State.{Split, Scene}
use fuddy_duddy.Scene.Draw.{draw_boxes, render}
use fuddy_duddy.App.Moves.{Move, feeds, plays, draws, Reach, here, next, drawn_by_render}
use fuddy_duddy.App.Replay.{show-world}
use fuddy_duddy.App.{App, start, director_source, play, advance, commands}

module _ (F : Floats) where
  draw_boxes_total :
      (w : World) (rects : Dict ℤ Box) (splits : List Split) (pids : List ℤ)
      → All (λ pid. contains pid w.processes ≡ true) pids
      → (cs : List Command) × (draw_boxes F w rects splits pids ≡ some cs)
  unfolding draw_boxes
  draw_boxes_total w rects splits [] _ = ([], refl)
  draw_boxes_total w rects splits (pid ∷ pids) (known, hk) =
      let (p, found) = lookup_of_contains pid w.processes known in
      let (cs, made) = draw_boxes_total w rects splits pids hk in
      rw (found, made, draw_boxes) (_, refl)

  pub render_total :
      (w : World) (s : Scene F) → IsValid w → (r : List Command × Scene F) × (render F w s ≡ some r)
  unfolding render Model.process
  render_total w s hw =
      let (rects, laid, _) = layout_covers w (pos 0) in
      let (boxes, drawn) = draw_boxes_total w rects s.splits (box_pids w) (box_pids-All w) in
      let (p, first) = lookup_of_contains w.initial_pid w.processes hw.rooted in
      rw (laid, drawn, first, render) (_, refl)

  Move-IsValid : {a b : App F Director} → IsValid a.world → Move F a b → IsValid b.world
  unfolding advance commands play
  Move-IsValid h (feeds a e) = h
  Move-IsValid h (plays {a} {b} made) =
      let polled = Director.poll a.frame a.source in
      subst IsValid
        (sym (show-world F polled.0 a.world a.scene)
          ∙ ap (λ (c : App F Director). c.world) (some-injective _ _ made))
        (run-IsValid polled.0 a.world h)
  Move-IsValid h (draws {a} {b} cs drawn) =
      let (_, _, _, same) = drawn_by_render F a b cs drawn in
      subst (λ (c : App F Director). IsValid c.world) same h

  Reach-IsValid : {a b : App F Director} → IsValid a.world → Reach F a b → IsValid b.world
  Reach-IsValid h here = h
  Reach-IsValid h (next r m) = Move-IsValid (Reach-IsValid h r) m

  -- In every app that is reached from a new one over a valid world, the world is valid, and the
  -- next frame plays and draws without an exception.
  pub no_key_error :
      (w : World) (d : Director) (a : App F Director)
      → IsValid w
      → Reach F (start F w d) a
      → IsValid a.world
        × ((b : App F Director) × (advance F director_source a ≡ some b))
        × ((cs : List Command) × (b : App F Director) × (commands F director_source a
              ≡ some (cs, b)))
  unfolding advance commands
  no_key_error w d a h r =
      let valid = Reach-IsValid h r in
      let (drawn, made) = render_total a.world a.scene valid in
      (
        valid,
        (_, refl),
        (
          drawn.0,
          record a { scene = drawn.1 },
          ap (Option.map (λ q. (q.0, record a { scene = q.1 }))) made,
        ),
      )
