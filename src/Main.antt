-- ===== src/Main.antt =====
-- __main__.py: the choice between the demo and a live run, and the worlds and the sources of the two.
pub mod Demo
pub mod Arguments
pub mod Run
use fuddy_duddy.Prelude.{
  ℕ, Bool, true, false, Option, none, some, List, [], ◌∷◌, ◌==◌, list_eq, nat_eq, if◌then◌else◌,
}
use fuddy_duddy.Int.{ℤ, pos}
use fuddy_duddy.Text.{Str, codes}
use fuddy_duddy.Text.Split.{after_last}
use fuddy_duddy.Event.{Phase, Event, SyscallEvent, syscall, spawn, exited}
use fuddy_duddy.Source.{Item, ScriptedSource, scripted}
use fuddy_duddy.Director
use fuddy_duddy.Director.{Director}
use fuddy_duddy.Model.{World, init, fresh_process}
use fuddy_duddy.Floats.{Floats}
use fuddy_duddy.App.{App, start}

abbrev pub shell : ℤ
shell = pos 1234

abbrev pub child : ℤ
child = pos 1235

-- SyscallEvent(pid, name, Phase.ENTER, path=path, fd=fd)
abbrev entered : ℤ → Str → Option Str → Option ℤ → Event
entered pid name path fd = syscall (record {
  pid = pid;
  name = name;
  phase = Phase.enter;
  result = none;
  path = path;
  fd = fd;
  args = [];
})

-- SyscallEvent(pid, name, Phase.EXIT, result=result)
abbrev left : ℤ → Str → ℤ → Event
left pid name result = syscall (record {
  pid = pid;
  name = name;
  phase = Phase.exit;
  result = some result;
  path = none;
  fd = none;
  args = [];
})

-- SCRIPT
unfoldable pub script : List Item
script =
    (20, entered shell (codes "openat") (some (codes "/etc/profile")) none)
    ∷ (35, left shell (codes "openat") (pos 3))
    ∷ (55, entered shell (codes "read") none (some (pos 3)))
    ∷ (75, left shell (codes "read") (pos 64))
    ∷ (95, entered shell (codes "fork") none none)
    ∷ (120, left shell (codes "fork") child)
    ∷ (124, spawn (record { parent = shell; child = child }))
    ∷ (150, entered child (codes "execve") (some (codes "/bin/ls")) none)
    ∷ (175, left child (codes "execve") (pos 0))
    ∷ (200, entered child (codes "openat") (some (codes ".")) none)
    ∷ (220, left child (codes "openat") (pos 3))
    ∷ (240, entered child (codes "getdents64") none (some (pos 3)))
    ∷ (265, left child (codes "getdents64") (pos 512))
    ∷ (285, entered child (codes "write") none (some (pos 1)))
    ∷ (305, left child (codes "write") (pos 512))
    ∷ (315, exited (record { pid = child; code = none; signal = none }))
    ∷ (325, entered shell (codes "wait4") none none)
    ∷ (345, left shell (codes "wait4") child)
    ∷ []

abbrev pub demo_world : World
demo_world = init (fresh_process shell (codes "sh"))

abbrev pub demo_source : ScriptedSource
demo_source = scripted script true 60

-- The app of run_demo.
abbrev pub demo_app : (F : Floats) → App F ScriptedSource
demo_app F = start F demo_world demo_source

-- os.path.basename
unfoldable pub basename : Str → Str
basename path = after_last b'/' path

-- The world of run_live, for the program cmd[0].
unfoldable pub live_world : Str → World
unfolding basename
live_world program = init (fresh_process (pos 0) (basename program))

-- The app of run_live.
abbrev pub live_app : (F : Floats) → Str → App F Director
live_app F program = start F (live_world program) Director.empty

pub data Mode : Type 0 where
  demo : Mode
  usage : Mode
  live : Str → List Str → Mode

-- argv[argv.index("--") + 1 :], or `none` where "--" is not in argv
unfoldable pub behind_dashes : List Str → Option (List Str)
behind_dashes [] = none
behind_dashes (arg ∷ args) =
    let rest = behind_dashes args in if arg == codes "--" then some args else rest

-- What the arguments behind "--" say: an empty command is an error.
unfoldable pub command_mode : List Str → Mode
command_mode [] = usage
command_mode (program ∷ args) = live program args

-- main
unfoldable pub mode : List Str → Mode
unfolding behind_dashes command_mode
mode argv = elim (behind_dashes argv) [ none ↦ demo | some cmd ↦ command_mode cmd ]
