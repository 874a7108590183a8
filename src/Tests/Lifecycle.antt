-- ===== src/Tests/Lifecycle.antt =====
-- The theorems on processes that come and go, at the sample world.
use fuddy_duddy.Prelude.{
  ◌≡◌, refl, false, true, not, ◌&&◌, none, some, [], ◌∷◌, ◌==◌, nat_eq, list_eq, if◌then◌else◌,
}
use fuddy_duddy.Int.{ℤ, pos, negsuc, int_eq}
use fuddy_duddy.Text.{codes}
use fuddy_duddy.Dict.{lookup}
use fuddy_duddy.Event.{SyscallEvent, ExitEvent, syscall, exited}
use fuddy_duddy.Model.{init, apply, run, has_clone_thread, add}
use fuddy_duddy.Model.Phases.{seen}
use fuddy_duddy.Model.Lifecycle.{exit_removes, adoption}
use fuddy_duddy.Model.Clone.{no_thread, before, after, blocked, thread_joins, fork_splits}
use fuddy_duddy.Tests.Samples.{
  shell, world, world-IsValid, world-IsKnown, entering, meanwhile, meanwhile-Avoids,
}

-- CLONE_VM and CLONE_THREAD
abbrev clone_enter : SyscallEvent
clone_enter = entering (codes "clone") none none (pos 0x00010100 ∷ [])

abbrev fork_enter : SyscallEvent
fork_enter = entering (codes "clone") none none (pos 0x01200011 ∷ [])

has_flag : has_clone_thread (pos 0x00010100) ≡ true
unfolding has_clone_thread
has_flag = refl

no_flag : has_clone_thread (pos 0x01200011) ≡ false
unfolding has_clone_thread
no_flag = refl

thread_joins_example :
    (lookup (pos 100) (after clone_enter meanwhile (pos 101) world).processes
      ≡ some (record (blocked clone_enter world) {
        threads = add (pos 101) (seen (pos 100) world).threads;
      }))
    × ((k : ℤ)
        → (pos 100 == k) ≡ false
        → lookup k (after clone_enter meanwhile (pos 101) world).processes
          ≡ lookup k (before clone_enter meanwhile world).processes)
thread_joins_example =
    thread_joins clone_enter meanwhile (pos 101) world world-IsValid world-IsKnown refl
      meanwhile-Avoids (pos 0x00010100) [] refl refl has_flag

fork_splits_example :
    (lookup (pos 101) (after fork_enter meanwhile (pos 101) world).processes
      ≡ some (record {
        pid = pos 101;
        name = (seen (pos 100) world).name;
        ppid = pos 100;
        in_syscall = none;
        last_result = none;
        fds = (seen (pos 100) world).fds;
        regions = [];
        threads = [];
      }))
    × ((k : ℤ)
        → (pos 101 == k) ≡ false
        → (pos 100 == k) ≡ false
        → lookup k (after fork_enter meanwhile (pos 101) world).processes
          ≡ lookup k (before fork_enter meanwhile world).processes)
fork_splits_example =
    fork_splits fork_enter meanwhile (pos 101) world world-IsValid world-IsKnown refl
      meanwhile-Avoids (no_thread (pos 0x01200011) [] refl no_flag)

abbrev gone : ExitEvent
gone = record { pid = pos 7; code = some (pos 0); signal = none }

exit_removes_example :
    let v = (apply (exited gone) (run meanwhile world)).1 in
    (lookup (pos 7) v.processes ≡ (
      if pos 7 == pos 7 && not (pos 7 == (run meanwhile world).initial_pid)
      then none
      else lookup (pos 7) (run meanwhile world).processes))
    × (lookup (pos 7) v.pending
        ≡ (if pos 7 == pos 7 then none else lookup (pos 7) (run meanwhile world).pending))
    × (v.initial_pid ≡ (run meanwhile world).initial_pid)
exit_removes_example = exit_removes gone (run meanwhile world) (pos 7)

known_pid : (pos 100 == pos 0) ≡ false
unfolding fuddy_duddy.Int.int_beq
known_pid = refl

adoption_example :
    run (syscall fork_enter ∷ meanwhile) (init (record shell { pid = pos 0 }))
    ≡ run (syscall fork_enter ∷ meanwhile) (init (record shell { pid = pos 100 }))
adoption_example = adoption (pos 100) shell known_pid (syscall fork_enter) meanwhile refl
