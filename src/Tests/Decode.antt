-- ===== src/Tests/Decode.antt =====
-- The theorems on the decoder, at the wire events of two processes.
use fuddy_duddy.Prelude.{ℕ, list_eq, ◌≡◌, refl, false, List, [], ◌∷◌, All}
use fuddy_duddy.Int.{ℤ, pos, int_eq, int_beq}
use fuddy_duddy.Text.{Str}
use fuddy_duddy.Dict.{Dict, lookup}
use fuddy_duddy.Wire.{WireEvent, WireEnter}
use fuddy_duddy.Decode.{push_all}
use fuddy_duddy.Decode.Pending.{WireAvoids, open_name, pending_is_open}
use fuddy_duddy.Decode.Names.{name_of-injective}

abbrev entry : ℕ → ℕ → Dict ℤ Str → WireEnter
entry nr first strings = record {
  pid = pos 100;
  ts = pos 1;
  nr = pos nr;
  args = record { a0 = pos first; a1 = pos 4096; a2 = pos 0; a3 = pos 0; a4 = pos 0; a5 = pos 0 };
  strings = strings;
}

-- The child 7 enters a `read` and leaves it.
abbrev aside : List WireEvent
aside =
    WireEvent.enter (record {
      pid = pos 7;
      ts = pos 2;
      nr = pos 0;
      args = record { a0 = pos 0; a1 = pos 0; a2 = pos 1; a3 = pos 0; a4 = pos 0; a5 = pos 0 };
      strings = [];
    })
    ∷ WireEvent.exit (record { pid = pos 7; ts = pos 3; ret = pos 1; err = false })
    ∷ []

aside-avoids : All (WireAvoids (pos 100)) aside
unfolding int_beq
aside-avoids = (refl, (refl, tt))

pending_is_open_example :
    lookup (pos 7) (push_all (WireEvent.enter (entry 3 3 []) ∷ aside) []).1
    ≡ open_name (pos 7) (lookup (pos 7) []) (WireEvent.enter (entry 3 3 []) ∷ aside)
pending_is_open_example = pending_is_open (pos 7) (WireEvent.enter (entry 3 3 []) ∷ aside) []

-- 999 is not in the table.
name_of-injective_example : pos 999 ≡ pos 999
name_of-injective_example = name_of-injective (pos 999) (pos 999) refl
