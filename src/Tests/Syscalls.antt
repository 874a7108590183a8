-- ===== src/Tests/Syscalls.antt =====
-- The theorems on syscalls at a world with one shell, whose child acts in between.
use fuddy_duddy.Prelude.{◌≡◌, refl, none, some, [], ◌∷◌, ◌++◌, list_eq}
use fuddy_duddy.Int.{pos, int_eq}
use fuddy_duddy.Text.{codes}
use fuddy_duddy.Dict.{lookup}
use fuddy_duddy.Event.{SyscallEvent, syscall}
use fuddy_duddy.Model.{Process, run}
use fuddy_duddy.Model.Invariant.{IsValid}
use fuddy_duddy.Model.Preserve.{run-IsValid}
use fuddy_duddy.Model.Frame.{Agree, run-Agree}
use fuddy_duddy.Model.Phases.{seen}
use fuddy_duddy.Model.Outcome.{Outcome}
use fuddy_duddy.Model.Completion.{syscall_completes}
use fuddy_duddy.Tests.Samples.{
  world, world-IsValid, world-IsKnown, entering, leaving, meanwhile, meanwhile-Avoids,
}

abbrev open_enter : SyscallEvent
open_enter = entering (codes "openat") (some (codes "/etc/hosts")) none (pos 0 ∷ pos 1 ∷ [])

abbrev open_exit : SyscallEvent
open_exit = leaving (codes "openat") (pos 3)

run-IsValid_example : IsValid (run (syscall open_enter ∷ meanwhile) world)
run-IsValid_example = run-IsValid (syscall open_enter ∷ meanwhile) world world-IsValid

run-Agree_example : Agree (pos 100) (run meanwhile world) world
run-Agree_example = run-Agree (pos 100) meanwhile world world-IsValid world-IsKnown meanwhile-Avoids

syscall_completes_example :
    let v = run ((syscall open_enter ∷ meanwhile) ++ syscall open_exit ∷ []) world in
    (q : Process) × (lookup (pos 100) v.processes ≡ some q)
    × Outcome open_enter (seen (pos 100) world) (some (pos 3)) q
    × (lookup (pos 100) v.pending ≡ none)
syscall_completes_example =
    syscall_completes open_enter open_exit meanwhile world world-IsValid world-IsKnown refl refl
      refl refl meanwhile-Avoids
