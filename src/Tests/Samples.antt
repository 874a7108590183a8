-- ===== src/Tests/Samples.antt =====
-- A small world and events for the tests: a shell with the pid 100, and a traced child with the pid 7.
use fuddy_duddy.Prelude.{refl, Option, none, some, List, [], ◌∷◌, All}
use fuddy_duddy.Int.{ℤ, pos, int_eq, int_beq}
use fuddy_duddy.Text.{Str, codes}
use fuddy_duddy.Dict.Entries.{Entries-nil}
use fuddy_duddy.Event.{Phase, Event, SyscallEvent, syscall, exited}
use fuddy_duddy.Model.{Process, World, init, fresh_process}
use fuddy_duddy.Model.Invariant.{IsValid}
use fuddy_duddy.Model.Preserve.{init-IsValid}
use fuddy_duddy.Model.Frame.{Avoids, IsKnown}

abbrev pub shell : Process
shell = fresh_process (pos 100) (codes "sh")

abbrev pub world : World
world = init shell

pub world-IsValid : IsValid world
world-IsValid =
    init-IsValid shell (record { pid = refl; fds = Entries-nil _; regions = Entries-nil _ })

pub world-IsKnown : IsKnown world
unfolding init int_beq
world-IsKnown = refl

abbrev pub entering : Str → Option Str → Option ℤ → List ℤ → SyscallEvent
entering name path fd args = record {
  pid = pos 100;
  name = name;
  phase = Phase.enter;
  result = none;
  path = path;
  fd = fd;
  args = args;
}

abbrev pub leaving : Str → ℤ → SyscallEvent
leaving name result = record {
  pid = pos 100;
  name = name;
  phase = Phase.exit;
  result = some result;
  path = none;
  fd = none;
  args = [];
}

-- What the child does meanwhile: it enters a `read`, and exits.
abbrev pub meanwhile : List Event
meanwhile =
    syscall (record {
      pid = pos 7;
      name = codes "read";
      phase = Phase.enter;
      result = none;
      path = none;
      fd = some (pos 0);
      args = pos 0 ∷ [];
    })
    ∷ exited (record { pid = pos 7; code = some (pos 0); signal = none })
    ∷ []

pub meanwhile-Avoids : All (Avoids (pos 100)) meanwhile
unfolding int_beq
meanwhile-Avoids = (refl, (refl, tt))
