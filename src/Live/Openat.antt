-- ===== src/Live/Openat.antt =====
-- The whole way of an `openat`: from the collector's lines through the parser, the decoder and the
-- director into the world.
use mathlib.Core.Path.{subst}
use fuddy_duddy.Prelude.{
  ℕ, ◌+◌, ◌*◌, ◌≤◌, ◌<◌, ◌≡◌, refl, sym, ◌∙◌, ap, false, true, none, some, List, [], ◌∷◌, ◌++◌, All,
  length,
}
use fuddy_duddy.Int.{ℤ, pos, int_eq}
use fuddy_duddy.Text.{Str}
use fuddy_duddy.Text.Utf8
use fuddy_duddy.Text.Strip.Laws.{split-line_end}
use fuddy_duddy.Dict.{lookup, insert}
use fuddy_duddy.Wire.{WireEvent, WireEnter, WireExit, ok}
use fuddy_duddy.Wire.Parse.{parse_tokens, parse_line}
use fuddy_duddy.Wire.Tracer.{enter_line, exit_line, args_text}
use fuddy_duddy.Wire.Tracer.Escaping.{IsByte}
use fuddy_duddy.Wire.Tracer.RoundTrip.{parse-exit_line}
use fuddy_duddy.Wire.Tracer.Enter.{args_of, parse-enter_line}
use fuddy_duddy.Decode.{push_all}
use fuddy_duddy.Decode.Pending.{WireAvoids}
use fuddy_duddy.Decode.Live.{openat_live}
use fuddy_duddy.Director
use fuddy_duddy.Director.{Director, empty}
use fuddy_duddy.Director.Fifo.{events}
use fuddy_duddy.Director.Drain.{frames, IsPast, drains}
use fuddy_duddy.Model.{World, settle, run}
use fuddy_duddy.Model.Invariant.{IsValid}
use fuddy_duddy.Model.Frame.{IsKnown}
use fuddy_duddy.Model.Phases.{seen}
use fuddy_duddy.Live.{collector, pump}
use fuddy_duddy.Live.Pump.{when_ok, wires, wires-append, pump_decodes}

abbrev pub with_end : Str → Str
with_end line = line ++ 10 ∷ []

parse_line-with_end : (line : Str) → parse_line (with_end line) ≡ parse_line line
unfolding parse_line
parse_line-with_end line = ap parse_tokens (split-line_end line)

module _ (pid : ℤ) (ts a b c d e f : ℕ) (bs : List ℕ) (ts' r : ℕ) (lines : List Str) where
  -- The lines of an `openat` with the string `bs` that returns `r`, and other lines in between.
  abbrev pub openat_lines : List Str
  openat_lines =
      (with_end (enter_line pid ts 257 (args_text a b c d e f) (some (true, bs))) ∷ lines)
      ++ with_end (exit_line pid ts' (pos r) false) ∷ []

  abbrev entered : WireEnter
  entered = record {
    pid = pid;
    ts = pos ts;
    nr = pos 257;
    args = args_of a b c d e f;
    strings = (pos 1, Utf8.decode bs) ∷ [];
  }

  abbrev left : WireExit
  left = record { pid = pid; ts = pos ts'; ret = pos r; err = false }

  wires-openat_lines :
      All IsByte bs
      → 3 * length bs < 6144
      → wires openat_lines ≡ (WireEvent.enter entered ∷ wires lines) ++ WireEvent.exit left ∷ []
  wires-openat_lines h fits =
      let first : parse_line
            (with_end (enter_line pid ts 257 (args_text a b c d e f) (some (true, bs))))
          ≡ ok (WireEvent.enter entered) =
        parse_line-with_end _
        ∙ parse-enter_line pid ts 257 a b c d e f (some (true, bs)) (h, fits) in
      let last : parse_line (with_end (exit_line pid ts' (pos r) false))
          ≡ ok (WireEvent.exit left) =
        parse_line-with_end _ ∙ parse-exit_line pid ts' (pos r) false in
      ap (λ x. when_ok x (wires (lines ++ with_end (exit_line pid ts' (pos r) false) ∷ []))) first
      ∙ ap (λ ws. WireEvent.enter entered ∷ ws)
          (wires-append lines (with_end (exit_line pid ts' (pos r) false) ∷ [])
            ∙ ap (λ x. wires lines ++ when_ok x []) last)

  -- The lines that the collector writes for an `openat` of a pid, with a string of bytes three
  -- times whose number is less than 6144 and a result that is not negative, with any lines in
  -- between that do not parse or are about other pids: read by a new live collector, then released
  -- by polling its director at each of at least 20 n + 1 frames in a row for the n events in its
  -- queue, then applied to a valid world whose initial pid is known, they put what the bytes
  -- decode to under the returned descriptor, and the process is otherwise what it was before with
  -- the result recorded.
  pub openat_shown :
      (n k : ℕ) (w : World)
      → IsValid w
      → IsKnown w
      → All IsByte bs
      → 3 * length bs < 6144
      → All (WireAvoids pid) (wires lines)
      → let q = (pump openat_lines (collector empty)).director in
        20 * length q.queue + 1 ≤ k
        → seen pid (run (events (Director.run (frames n k) q).0) w)
          ≡ record (settle (some (pos r)) (seen pid w)) {
            fds =
                insert
                  (pos r)
                  (record { number = pos r; target = some (Utf8.decode bs) })
                  (seen pid w).fds;
          }
  unfolding lookup settle seen fuddy_duddy.Int.int_beq fuddy_duddy.Decode.enter_event
  openat_shown n k w hw known h fits avoid enough =
      let q = (pump openat_lines (collector empty)).director in
      let queue : q.queue
          ≡ (push_all ((WireEvent.enter entered ∷ wires lines) ++ WireEvent.exit left ∷ []) []).0 =
        ap (λ c. c.director.queue) (pump_decodes openat_lines (collector empty))
        ∙ ap (λ ws. (push_all ws []).0) (wires-openat_lines h fits) in
      let fresh : q.last_release ≡ none =
        ap (λ c. c.director.last_release) (pump_decodes openat_lines (collector empty)) in
      ap (λ es. seen pid (run es w)) (drains n k q (subst (IsPast n) (sym fresh) tt) enough ∙ queue)
      ∙ openat_live entered left (wires lines) [] w r hw known refl avoid refl refl
