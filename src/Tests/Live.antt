-- ===== src/Tests/Live.antt =====
-- The theorems on the live collector, at the lines of an `openat` with other lines in between.
use fuddy_duddy.Prelude.{ℕ, ◌+◌, ◌*◌, ◌≡◌, refl, some, List, [], ◌∷◌, All, length, list_beq, arith}
use fuddy_duddy.Int.{pos, int_eq, int_beq}
use fuddy_duddy.Text.{Str, codes}
use fuddy_duddy.Text.Utf8
use fuddy_duddy.Text.Numeral.{parse_int, parse_ℕ, scan}
use fuddy_duddy.Dict.{insert}
use fuddy_duddy.Wire.Parse.{parse_line}
use fuddy_duddy.Decode.Pending.{WireAvoids}
use fuddy_duddy.Director.{Director, empty}
use fuddy_duddy.Model.{settle}
use fuddy_duddy.Model.Phases.{seen}
use fuddy_duddy.Live.{collector, pump}
use fuddy_duddy.Live.Pump.{wires}
use fuddy_duddy.Live.Openat.{openat_lines}
use fuddy_duddy.App.{App, start, director_source, run}
use fuddy_duddy.App.Openat.{openat_in_app}
use fuddy_duddy.Tests.Whole.{whole}
use fuddy_duddy.Tests.Samples.{world, world-IsValid, world-IsKnown}

abbrev other_lines : List Str
other_lines = codes "tracer: note" ∷ codes "  EXITED pid=7 ts=3 code=0 " ∷ [] ∷ []

other_lines-WireAvoids : All (WireAvoids (pos 100)) (wires other_lines)
unfolding parse_line int_beq list_beq insert parse_int parse_ℕ scan
other_lines-WireAvoids = (refl, tt)

-- "/a b"
abbrev path_bytes : List ℕ
path_bytes = 47 ∷ 97 ∷ 32 ∷ 98 ∷ []

abbrev lines : List Str
lines = openat_lines (pos 100) 1 4294967196 4096 0 0 0 0 path_bytes 9 3 other_lines

openat_in_app_example :
    let q = (pump lines (collector empty)).director in
    (app : App whole Director) × (run whole director_source
        (20 * length q.queue + 1)
        (start whole world q)
      ≡ some app)
    × (seen (pos 100) app.world ≡ record (settle (some (pos 3)) (seen (pos 100) world)) {
      fds =
          insert
            (pos 3)
            (record { number = pos 3; target = some (Utf8.decode path_bytes) })
            (seen (pos 100) world).fds;
    })
openat_in_app_example =
    openat_in_app whole (pos 100) 1 4294967196 4096 0 0 0 0 path_bytes 9 3 other_lines
      (20 * length (pump lines (collector empty)).director.queue + 1) world world-IsValid
      world-IsKnown (omega arith) (omega arith) other_lines-WireAvoids (omega arith)
