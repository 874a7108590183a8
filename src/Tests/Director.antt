-- ===== src/Tests/Director.antt =====
-- The theorems on the director, at a few calls.
use fuddy_duddy.Prelude.{◌≡◌, none, some, List, [], ◌∷◌, ◌++◌, arith}
use fuddy_duddy.Int.{pos}
use fuddy_duddy.Text.{codes}
use fuddy_duddy.Event.{Phase, Event, syscall, exited}
use fuddy_duddy.Director.{Director, Step, feeds, polls, empty, run}
use fuddy_duddy.Director.Fifo.{events, run_fifo}
use fuddy_duddy.Director.Spacing.{Spaced, run-Spaced}
use fuddy_duddy.Director.Drain.{frames, drains}

abbrev opening : Event
opening = syscall (record {
  pid = pos 7;
  name = codes "read";
  phase = Phase.enter;
  result = none;
  path = none;
  fd = none;
  args = [];
})

abbrev closing : Event
closing = syscall (record {
  pid = pos 7;
  name = codes "read";
  phase = Phase.exit;
  result = some (pos 1);
  path = none;
  fd = none;
  args = [];
})

abbrev leaves : Event
leaves = exited (record { pid = pos 7; code = some (pos 0); signal = none })

abbrev calls : List Step
calls = feeds opening ∷ feeds closing ∷ polls 0 ∷ polls 19 ∷ feeds leaves ∷ polls 20 ∷ polls 26 ∷ []

run_fifo_example :
    events (run calls empty).0 ++ (run calls empty).1.queue ≡ opening ∷ closing ∷ leaves ∷ []
run_fifo_example = run_fifo calls empty

run-Spaced_example : Spaced none none (run calls empty).0
run-Spaced_example = run-Spaced calls empty

-- Two events behind an ENTER that was released at frame 3.
abbrev busy : Director
busy = record {
  queue = closing ∷ leaves ∷ [];
  last_release = some 3;
  last_phase = some Phase.enter;
}

drains_example : events (run (frames 4 41) busy).0 ≡ closing ∷ leaves ∷ []
drains_example = drains 4 41 busy (omega arith) (omega arith)
