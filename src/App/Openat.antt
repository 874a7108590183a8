-- ===== src/App/Openat.antt =====
-- The whole way of an `openat`, from the collector's lines into the world of the app.
use fuddy_duddy.Prelude.{ℕ, ◌+◌, ◌*◌, ◌≤◌, ◌<◌, ◌≡◌, ◌∙◌, ap, some, List, length, All}
use fuddy_duddy.Int.{ℤ, pos, int_eq}
use fuddy_duddy.Text.{Str}
use fuddy_duddy.Text.Utf8
use fuddy_duddy.Dict.{insert}
use fuddy_duddy.Wire.Tracer.Escaping.{IsByte}
use fuddy_duddy.Decode.Pending.{WireAvoids}
use fuddy_duddy.Director.{Director, empty}
use fuddy_duddy.Model.{World, settle}
use fuddy_duddy.Model.Invariant.{IsValid}
use fuddy_duddy.Model.Frame.{IsKnown}
use fuddy_duddy.Model.Phases.{seen}
use fuddy_duddy.Live.{collector, pump}
use fuddy_duddy.Live.Pump.{wires}
use fuddy_duddy.Live.Openat.{openat_lines, openat_shown}
use fuddy_duddy.Floats.{Floats}
use fuddy_duddy.App.{App, start, director_source, run}
use fuddy_duddy.App.Replay.{run-replays}

module _ (F : Floats) (pid : ℤ) (ts a b c d e f : ℕ) (bs : List ℕ) (ts' r : ℕ)
    (lines : List Str) where
  -- The lines that the collector writes for an `openat` of a pid, with a string of bytes three
  -- times whose number is less than 6144 and a result that is not negative, with any lines in
  -- between that do not parse or are about other pids: read by a new live collector, whose
  -- director is then the source of a new app over a valid world with a known initial pid, they let
  -- the app play each of at least 20 n + 1 frames for the n events in the queue, and in the app's
  -- world what the bytes decode to stands under the returned descriptor, and the process is
  -- otherwise what it was before with the result recorded.
  pub openat_in_app :
      (k : ℕ) (w : World)
      → IsValid w
      → IsKnown w
      → All IsByte bs
      → 3 * length bs < 6144
      → All (WireAvoids pid) (wires lines)
      → let q =
          (pump (openat_lines pid ts a b c d e f bs ts' r lines) (collector empty)).director in
        20 * length q.queue + 1 ≤ k
        → (app : App F Director) × (run F director_source k (start F w q) ≡ some app)
          × (seen pid app.world ≡ record (settle (some (pos r)) (seen pid w)) {
            fds =
                insert
                  (pos r)
                  (record { number = pos r; target = some (Utf8.decode bs) })
                  (seen pid w).fds;
          })
  openat_in_app k w hw known h fits avoid enough =
      let q = (pump (openat_lines pid ts a b c d e f bs ts' r lines) (collector empty)).director in
      let (app, made, world, _, _) = run-replays F k (start F w q) in
      (
        app,
        made,
        ap (seen pid) world
            ∙ openat_shown pid ts a b c d e f bs ts' r lines 0 k w hw known h fits avoid enough,
      )
