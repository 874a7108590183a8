-- ===== src/Tests/Source.antt =====
-- The theorems on the scripted source, at a script that is not in order.
use fuddy_duddy.Prelude.{none, some, List, [], ◌∷◌}
use fuddy_duddy.Int.{ℤ, pos}
use fuddy_duddy.Event.{Event, exited}
use fuddy_duddy.Source.{Item}

abbrev leaves : ℤ → Event
leaves pid = exited (record { pid = pid; code = some (pos 0); signal = none })

abbrev script : List Item
script = (8, leaves (pos 1)) ∷ (2, leaves (pos 2)) ∷ (8, leaves (pos 3)) ∷ []
