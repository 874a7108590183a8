-- ===== src/Visualizer/Session/Traced.antt =====
-- A live session on the lines that the collector's loop writes.
use fuddy_duddy.Prelude.{
  ℕ, ◌+◌, ◌*◌, ◌≤◌, ◌≡◌, refl, sym, ◌∙◌, ap, some, List, [], ◌∷◌, ◌++◌, length, All,
}
use fuddy_duddy.Text.{Str, codes}
use fuddy_duddy.Render.{width, height, fps}
use fuddy_duddy.Floats.{Floats}
use fuddy_duddy.Decode.{Decoder, push_all}
use fuddy_duddy.Director.{Director, empty}
use fuddy_duddy.Model
use fuddy_duddy.Model.{World}
use fuddy_duddy.Model.Invariant.{IsValid}
use fuddy_duddy.Live.Pump.{wires, wires-append}
use fuddy_duddy.App.{App, start}
use fuddy_duddy.Visualizer.{Pyxel}
use fuddy_duddy.Visualizer.Session
use fuddy_duddy.Visualizer.Session.{quiet}
use fuddy_duddy.Visualizer.Session.Shown.{wires_of, session_shows}
use fuddy_duddy.Collector.Loop
use fuddy_duddy.Collector.Loop.{Wait, Tracer}
use fuddy_duddy.Collector.Loop.Observed.{lines_of, observed, handled, IsWait}
use fuddy_duddy.Collector.Loop.Events.{run_read}

-- The lines of all batches, in their order.
unfoldable pub joined : List (List Str) → List Str
joined [] = []
joined (lines ∷ batches) = lines ++ joined batches

wires-joined : (batches : List (List Str)) → wires (joined batches) ≡ wires_of batches
unfolding joined wires_of
wires-joined [] = refl
wires-joined (lines ∷ batches) =
    wires-append lines (joined batches) ∙ ap (λ ws. wires lines ++ ws) (wires-joined batches)

-- Whatever the results of `waitpid` are, where their pids are values of `int`, their times,
-- syscall numbers and arguments are 64 bits wide, and `process_vm_readv` copies bytes and no more
-- than it is asked for: the lines that the collector's loop writes for them are read in any
-- batches, one before each frame, by the thread of a live run over a valid world, and at least 20
-- n + 1 frames without a line follow, for the n events that are decoded from the wire events which
-- the reports up to the loop's end stand for. Then the backend plays and draws every frame without
-- an exception, whatever the graphics library does, and at the end the world is exactly what these
-- events, in the order of the reports, make of the world at the start, and the director's queue is
-- empty.
pub trace_is_shown :
    (P : Pyxel) (F : Floats) (w : World) (ws : List Wait) (t : Tracer) (batches : List (List Str))
    (k : ℕ) (s : P.Screen)
    → IsValid w
    → All IsWait ws
    → joined batches ≡ lines_of (Loop.run ws t).0
    → let es = (push_all (observed (handled t.ntraced ws)) []).0 in
      20 * length es + 1 ≤ k
      → (r : Decoder × App F Director × P.Screen) × (Session.run P F
            (batches ++ quiet k)
            []
            (start F w empty)
            s
          ≡ some r)
        × (r.1.world ≡ Model.run es w)
        × (r.1.source.queue ≡ [])
unfolding Session.run
trace_is_shown P F w ws t batches k s valid widths lines enough =
    let read : wires_of batches ≡ observed (handled t.ntraced ws) =
      sym (wires-joined batches) ∙ ap wires lines ∙ run_read ws t widths in
    let es = ap (λ vs. (push_all vs []).0) read in
    let (r, goes, world, queue) =
      session_shows P F w batches k (P.init width height (codes "fuddy-duddy") fps s) valid
        (rw es enough) in
    (r, goes, world ∙ ap (λ l. Model.run l w) es, queue)
