-- ===== src/Collector/Loop.antt =====
-- collector/tracer.c: `main`, with its loop over the reports of `waitpid`. A report has what the kernel says
-- of the stopped or ended thread; the loop's actions are the lines it writes and the threads it resumes.
pub mod Observed
pub mod Count
pub mod Events
pub mod Resume
pub mod Lives
pub mod Exit
use fuddy_duddy.Prelude.{
  ℕ, zero, suc, ◌+◌, ◌-◌, ◌%◌, Bool, true, false, ◌&&◌, ◌||◌, Option, none, some, List, [], ◌∷◌,
  ◌++◌, map, ltb, ◌==◌, nat_eq, if◌then◌else◌,
}
use fuddy_duddy.Int.{ℤ, pos, negsuc, int_eq}
use fuddy_duddy.Text.{Str, codes}
use fuddy_duddy.Wire.Tracer.{exited_line, signaled_line, spawn_line}
use fuddy_duddy.Collector.Memory.{Readv}
use fuddy_duddy.Collector.Stop.{Info, handle_syscall_stop}

-- A status of `waitpid`, as the macros of <sys/wait.h> read it: an exit code, a signal, or a stop with its
-- signal and the ptrace event above it.
pub data Status : Type 0 where
  exited : ℕ → Status
  signaled : ℕ → Status
  stopped : ℕ → ℕ → Status
  continued : Status

-- What `waitpid` says of a thread, with what the kernel answers on it: the syscall's info, the message
-- of its event, and its memory.
pub record Report : Type 0 where
  pub pid : ℤ
  pub ts : ℕ
  pub status : Status
  pub info : Info
  pub message : Option ℕ
  pub readv : Readv

-- A result of `waitpid`: a report, EINTR, ECHILD or another error.
pub data Wait : Type 0 where
  report : Report → Wait
  interrupted : Wait
  no_child : Wait
  failed : Wait

pub data Action : Type 0 where
  write : Str → Action
  diagnose : Str → Action
  resume : ℤ → ℕ → Action

-- The variables of `main`.
pub record Tracer : Type 0 where
  pub initial_pid : ℤ
  pub initial_code : ℕ
  pub ntraced : ℕ

pub data Outcome : Type 0 where
  waiting : Outcome
  returned : ℕ → Outcome

abbrev pub sigtrap : ℕ
sigtrap = 5

abbrev pub sigstop : ℕ
sigstop = 19

-- SIGTRAP | 0x80
abbrev pub syscall_trap : ℕ
syscall_trap = 133

-- (int)newpid
unfoldable pub to_int : ℕ → ℤ
to_int n =
    let low = n % 0x100000000 in if ltb low 0x80000000 then pos low else negsuc (0xffffffff - low)

-- PTRACE_EVENT_FORK, PTRACE_EVENT_VFORK or PTRACE_EVENT_CLONE
unfoldable pub is_spawn_event : ℕ → Bool
is_spawn_event event = event == 1 || event == 2 || event == 3

-- The end of a thread.
unfoldable pub ended : ℤ → ℕ → Tracer → Tracer
ended pid code t =
    let initial_code = if pid == t.initial_pid then code else t.initial_code in
    record t { initial_code = initial_code; ntraced = t.ntraced - 1 }

-- The branch of a fork, vfork or clone event.
unfoldable pub handle_spawn : Report → Option ℕ → Tracer → List Action × Tracer
unfolding spawn_line to_int
handle_spawn r none t = (resume r.pid 0 ∷ [], t)
handle_spawn r (some newpid) t = (
  write (spawn_line r.pid r.ts (to_int newpid)) ∷ resume r.pid 0 ∷ [],
  record t { ntraced = t.ntraced + 1 },
)

-- The branches of a stop.
unfoldable pub handle_stop : Report → ℕ → ℕ → Tracer → List Action × Tracer
unfolding handle_syscall_stop is_spawn_event handle_spawn
handle_stop r stopsig event t =
    if stopsig == syscall_trap
    then (map write (handle_syscall_stop r.pid r.ts r.info r.readv) ++ resume r.pid 0 ∷ [], t)
    else if stopsig == sigtrap && is_spawn_event event
    then handle_spawn r r.message t
    else if stopsig == sigtrap
    then (resume r.pid 0 ∷ [], t)
    else if stopsig == sigstop
    then (resume r.pid 0 ∷ [], t)
    else (resume r.pid stopsig ∷ [], t)

-- The loop's body for a report.
unfoldable pub handle_status : Report → Status → Tracer → List Action × Tracer
unfolding handle_stop ended exited_line signaled_line
handle_status r (exited code) t =
    (write (exited_line r.pid r.ts (pos code)) ∷ [], ended r.pid code t)
handle_status r (signaled sig) t =
    (write (signaled_line r.pid r.ts (pos sig)) ∷ [], ended r.pid (128 + sig) t)
handle_status r (stopped stopsig event) t = handle_stop r stopsig event t
handle_status r continued t = ([], t)

abbrev pub before : List Action → List Action × Outcome → List Action × Outcome
before actions (rest, outcome) = (actions ++ rest, outcome)

-- The loop over what `waitpid` returns, one after the other. Its test comes first.
unfoldable pub run : List Wait → Tracer → List Action × Outcome
unfolding handle_status
run [] t = ([], if t.ntraced == 0 then returned t.initial_code else waiting)
run (report r ∷ ws) t =
    let (actions, t') = handle_status r r.status t in
    let rest = run ws t' in
    if t.ntraced == 0 then ([], returned t.initial_code) else before actions rest
run (interrupted ∷ ws) t =
    let rest = run ws t in if t.ntraced == 0 then ([], returned t.initial_code) else rest
run (no_child ∷ ws) t = ([], returned t.initial_code)
run (failed ∷ ws) t =
    if t.ntraced == 0
    then ([], returned t.initial_code)
    else (diagnose (codes "waitpid") ∷ [], returned 1)

-- The start of the loop.
abbrev pub attached : ℤ → Tracer
attached pid = record { initial_pid = pid; initial_code = 0; ntraced = 1 }

-- main behind the first `waitpid`; `ok` is whether the first PTRACE_SYSCALL succeeds.
unfoldable pub trace : ℤ → Option Status → Bool → List Wait → List Action × Outcome
unfolding run
trace pid none ok ws = (diagnose (codes "waitpid") ∷ [], returned 1)
trace pid (some (exited code)) ok ws = ([], returned code)
trace pid (some (signaled sig)) ok ws = ([], returned (128 + sig))
trace pid (some _) false ws = (diagnose (codes "ptrace syscall") ∷ [], returned 1)
trace pid (some _) true ws = run ws (attached pid)

-- main of the collector: the number of arguments, and what `fork` returns to the parent.
unfoldable pub main : ℕ → Option ℤ → Option Status → Bool → List Wait → List Action × Outcome
unfolding trace
main argc fork first ok ws =
    if ltb argc 2
    then (diagnose (codes "usage: tracer CMD [ARGS...]") ∷ [], returned 2)
    else elim fork [
      | none ↦ (diagnose (codes "fork") ∷ [], returned 1)
      | some pid ↦ trace pid first ok ws
    ]
