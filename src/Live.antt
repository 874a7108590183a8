-- ===== src/Live.antt =====
-- live.py: `LiveCollector._pump`, on the lines that it reads from the collector. The thread, the
-- subprocess and its pipe are left out: the lines are an argument.
pub mod Pump
pub mod Openat
pub mod Process
use fuddy_duddy.Prelude.{ℕ, List, [], ◌∷◌}
use fuddy_duddy.Text.{Str}
use fuddy_duddy.Text.Strip.{strip}
use fuddy_duddy.Event.{Event}
use fuddy_duddy.Wire.{WireEvent, Result, ok, err}
use fuddy_duddy.Wire.Parse.{parse_line}
use fuddy_duddy.Decode.{Decoder, push}
use fuddy_duddy.Director
use fuddy_duddy.Director.{Director, feed}

-- The two fields of `LiveCollector` that the loop changes.
pub record LiveCollector : Type 0 where
  pub decoder : Decoder
  pub director : Director

-- LiveCollector.__init__
abbrev pub collector : Director → LiveCollector
collector director = record { decoder = []; director = director }

unfoldable pub feed_all : List Event → Director → Director
feed_all [] q = q
feed_all (e ∷ es) q = feed_all es (feed e q)

-- A line behind the `try`.
unfoldable pub pump_event : Result WireEvent → LiveCollector → LiveCollector
unfolding feed_all
pump_event (err _) c = c
pump_event (ok wire) c =
    let (es, d) = push wire c.decoder in record { decoder = d; director = feed_all es c.director }

-- The loop's body for a stripped line.
unfoldable pub pump_stripped : Str → LiveCollector → LiveCollector
unfolding pump_event
pump_stripped [] c = c
pump_stripped (x ∷ line) c = pump_event (parse_line (x ∷ line)) c

-- LiveCollector._pump
unfoldable pub pump : List Str → LiveCollector → LiveCollector
unfolding pump_stripped
pump [] c = c
pump (line ∷ lines) c = pump lines (pump_stripped (strip line) c)
