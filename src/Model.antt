-- ===== src/Model.antt =====
-- model.py: the semantic state of the observed system. `apply` is `World.apply`, with the methods that
-- it calls. Python mutates the process in the dictionary; here the changed process is written back
-- under its key.
pub mod Invariant
pub mod Preserve
pub mod Frame
pub mod Phases
pub mod Pairing
pub mod Effects
pub mod Syscalls
pub mod Outcome
pub mod Completion
pub mod Lifecycle
pub mod Clone
use fuddy_duddy.Prelude.{
  ◌/◌, ◌%◌, List, [], ◌∷◌, Bool, true, false, not, ◌&&◌, ◌||◌, Option, none, some, ◌==◌, nat_eq,
  list_eq, get_elem?, if◌then◌else◌,
}
use fuddy_duddy.Int.{ℤ, pos, negsuc, int_eq, is_negative}
use fuddy_duddy.Text.{Str, codes}
use fuddy_duddy.Text.Split.{after_last}
use fuddy_duddy.Dict.{Dict, lookup, contains, insert, erase}
use fuddy_duddy.Event.{Phase, Event, SyscallEvent, SpawnEvent, ExitEvent, syscall, spawn, exited}

-- The name `FD` of the source.
pub record Fd : Type 0 where
  pub number : ℤ
  pub target : Option Str

pub record MemoryRegion : Type 0 where
  pub start : ℤ
  pub length : ℤ

pub record Process : Type 0 where
  pub pid : ℤ
  pub name : Str
  pub ppid : ℤ
  pub in_syscall : Option Str
  pub last_result : Option ℤ
  pub fds : Dict ℤ Fd
  pub regions : Dict ℤ MemoryRegion
  pub threads : List ℤ

-- Process(pid=pid, name=name)
abbrev pub fresh_process : ℤ → Str → Process
fresh_process pid name = record {
  pid = pid;
  name = name;
  ppid = pos 0;
  in_syscall = none;
  last_result = none;
  fds = [];
  regions = [];
  threads = [];
}

pub record World : Type 0 where
  pub processes : Dict ℤ Process
  pub initial_pid : ℤ
  pub pending : Dict ℤ SyscallEvent

-- World.__init__
unfoldable pub init : Process → World
init p = record { processes = (p.pid, p) ∷ []; initial_pid = p.pid; pending = [] }

-- World.process; `none` is a `KeyError`.
unfoldable pub process : World → Option Process
process w = lookup w.initial_pid w.processes

-- `pending` moves with the process that is adopted.
unfoldable pub rekey : ℤ → Dict ℤ SyscallEvent → Dict ℤ SyscallEvent
rekey pid pending = elim (lookup (pos 0) pending) [
  | none ↦ erase (pos 0) pending
  | some e ↦ insert pid e (erase (pos 0) pending)
]

-- S0: the process of the unknown pid 0 gets its pid.
unfoldable pub adopt : ℤ → Process → World → Process × World
unfolding rekey
adopt pid p w =
    let p' = record p { pid = pid } in
    (
      p',
      record {
        processes = insert pid p' (erase (pos 0) w.processes);
        initial_pid = pid;
        pending = rekey pid w.pending;
      },
    )

unfoldable pub find_or_create : ℤ → World → Process × World
find_or_create pid w = elim (lookup pid w.processes) [
  | some p ↦ (p, w)
  | none ↦ let p = fresh_process pid [] in (p, record w { processes = insert pid p w.processes })
]

-- World._process_for
unfoldable pub process_for : ℤ → World → Process × World
unfolding adopt find_or_create
process_for pid w = elim (w.initial_pid == pos 0) [
  | true ↦ elim (lookup (pos 0) w.processes) [
    | some p ↦ adopt pid p w
    | none ↦ find_or_create pid w
  ]
  | false ↦ find_or_create pid w
]

abbrev pub put_process : ℤ → Process → World → World
put_process pid p w = record w { processes = insert pid p w.processes }

unfoldable pub begin_syscall : SyscallEvent → Process × World → World
begin_syscall e (p, w) = record (put_process e.pid (record p { in_syscall = some e.name }) w) {
  pending = insert p.pid e w.pending;
}

-- S2
unfoldable pub settle : Option ℤ → Process → Process
settle result p = record p {
  in_syscall = none;
  last_result = elim result [ some r ↦ some r | none ↦ p.last_result ];
}

-- S3: an EXIT pairs only with an ENTER of its name.
unfoldable pub paired_with : Str → Option SyscallEvent → Option SyscallEvent
paired_with name none = none
paired_with name (some e) = if e.name == name then some e else none

-- paired.args[1] if len(paired.args) > 1 else 0
unfoldable pub length_arg : List ℤ → ℤ
length_arg args = elim (get_elem? args 1) [ some n ↦ n | none ↦ pos 0 ]

-- The branches on the name of a syscall that succeeded, S3, S5, S7, S8 and S10.
unfoldable pub branch : Str → SyscallEvent → ℤ → Process → Process
unfolding length_arg
branch name e result p =
    if name == codes "openat"
    then record p { fds = insert result (record { number = result; target = e.path }) p.fds }
    else if name == codes "close" && elim e.fd [ none ↦ false | some _ ↦ true ]
    then elim e.fd [ none ↦ p | some fd ↦ record p { fds = erase fd p.fds } ]
    else if name == codes "mmap"
    then record p {
      regions = insert result (record { start = result; length = length_arg e.args }) p.regions;
    }
    else if name == codes "munmap"
    then elim e.args [ [] ↦ p | start ∷ _ ↦ record p { regions = erase start p.regions } ]
    else if name == codes "execve"
    then elim e.path [ none ↦ p | some path ↦ record p { name = after_last b'/' path } ]
    else p

unfoldable pub effect : SyscallEvent → ℤ → Process → Process
unfolding branch
effect e result p = branch e.name e result p

-- What an EXIT does behind S2: nothing without a result, a partner or success (S4).
unfoldable pub complete : Option SyscallEvent → Option ℤ → Process → Process
complete none result p = p
complete (some e) none p = p
complete (some e) (some r) p = if is_negative r then p else effect e r p

unfoldable pub end_syscall : SyscallEvent → Process × World → World
unfolding settle paired_with complete
end_syscall e (p, w) =
    let paired = paired_with e.name (lookup p.pid w.pending) in
    record (put_process e.pid (complete paired e.result (settle e.result p)) w) {
      pending = elim paired [ none ↦ w.pending | some _ ↦ erase p.pid w.pending ];
    }

-- World._apply_syscall
unfoldable pub apply_syscall : SyscallEvent → World → World
unfolding begin_syscall end_syscall
apply_syscall e w = elim e.phase [
  | Phase.enter ↦ begin_syscall e (process_for e.pid w)
  | Phase.exit ↦ end_syscall e (process_for e.pid w)
]

-- World._apply_exit
unfoldable pub apply_exit : ExitEvent → World → World
apply_exit e w =
    if e.pid == w.initial_pid || not (contains e.pid w.processes)
    then record w { pending = erase e.pid w.pending }
    else record w { processes = erase e.pid w.processes; pending = erase e.pid w.pending }

-- flags & CLONE_THREAD, as a truth value: bit 16 of the two's complement
unfoldable pub has_clone_thread : ℤ → Bool
has_clone_thread (pos n) = n / 0x00010000 % 2 == 1
has_clone_thread (negsuc n) = n / 0x00010000 % 2 == 0

-- The ENTER is a `clone` with the flag `CLONE_THREAD`.
unfoldable pub shares_box : Option SyscallEvent → Bool
unfolding has_clone_thread
shares_box none = false
shares_box (some e) =
    e.name == codes "clone" && elim e.args [ [] ↦ false | flags ∷ _ ↦ has_clone_thread flags ]

-- set.add
unfoldable pub add : ℤ → List ℤ → List ℤ
add x [] = x ∷ []
add x (y ∷ ys) = let rest = add x ys in if y == x then y ∷ ys else y ∷ rest

-- The process that a fork makes: it inherits name and fds.
abbrev pub forked : ℤ → Process → Process
forked child parent = record (fresh_process child parent.name) {
  ppid = parent.pid;
  fds = parent.fds;
}

unfoldable pub spawn_from : SpawnEvent → Process × World → World
unfolding shares_box add
spawn_from e (p, w) =
    if shares_box (lookup p.pid w.pending)
    then put_process e.parent (record p { threads = add e.child p.threads }) w
    else put_process e.child (forked e.child p) w

-- World._apply_spawn
unfoldable pub apply_spawn : SpawnEvent → World → World
unfolding spawn_from
apply_spawn e w = spawn_from e (process_for e.parent w)

-- World.apply: the event comes back beside the world.
unfoldable pub apply : Event → World → Event × World
unfolding apply_syscall apply_exit apply_spawn
apply (spawn e) w = (spawn e, apply_spawn e w)
apply (exited e) w = (exited e, apply_exit e w)
apply (syscall e) w = (syscall e, apply_syscall e w)

-- The world after a list of events.
unfoldable pub run : List Event → World → World
run [] w = w
run (e ∷ es) w = run es (apply e w).1
