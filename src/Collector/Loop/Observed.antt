-- ===== src/Collector/Loop/Observed.antt =====
-- What the reports stand for, apart from the loop.
use fuddy_duddy.Prelude.{
  ℕ, ◌+◌, ◌-◌, ◌<◌, Bool, ◌&&◌, Option, none, some, List, [], ◌∷◌, ◌++◌, ◌==◌, nat_eq,
  if◌then◌else◌,
}
use fuddy_duddy.Int.{ℤ, pos}
use fuddy_duddy.Text.{Str}
use fuddy_duddy.Text.Numeral.Length.{words, IsInt}
use fuddy_duddy.Wire
use fuddy_duddy.Wire.{WireEvent}
use fuddy_duddy.Wire.Tracer.Enter.{cut, args_of, read_event}
use fuddy_duddy.Collector.Memory.{Readv}
use fuddy_duddy.Collector.Memory.Bounds.{IsReading}
use fuddy_duddy.Collector.Stop.{Info, str_arg}
use fuddy_duddy.Collector.Stop.Bounds.{IsEntry, string_of}
use fuddy_duddy.Collector.Loop.{
  Status, exited, signaled, stopped, continued, Report, Wait, report, interrupted, no_child, failed,
  Action, write, diagnose, resume, syscall_trap, sigtrap, to_int, is_spawn_event,
}

-- The lines of events.
unfoldable pub lines_of : List Action → List Str
lines_of [] = []
lines_of (write line ∷ actions) = line ∷ lines_of actions
lines_of (diagnose _ ∷ actions) = lines_of actions
lines_of (resume _ _ ∷ actions) = lines_of actions

-- The event of a syscall stop, if any: an entry has the part of its string that the buffer holds.
abbrev pub stop_events : ℤ → ℕ → Info → Readv → List WireEvent
stop_events pid ts Info.unavailable readv = []
stop_events pid ts (Info.entry e) readv =
    read_event pid ts e.nr (args_of e.a0 e.a1 e.a2 e.a3 e.a4 e.a5)
      (cut (string_of readv (str_arg e)))
    ∷ []
stop_events pid ts (Info.exit rval is_error) readv =
    Wire.exit (record { pid = pid; ts = pos ts; ret = rval; err = is_error }) ∷ []
stop_events pid ts Info.other readv = []

abbrev pub spawn_events : ℤ → ℕ → Option ℕ → List WireEvent
spawn_events pid ts none = []
spawn_events pid ts (some newpid) =
    Wire.spawn (record { pid = pid; ts = pos ts; child = to_int newpid }) ∷ []

-- A fork, vfork or clone of which the kernel tells the new pid.
abbrev pub is_fork : ℕ → ℕ → Bool
is_fork stopsig event = stopsig == sigtrap && is_spawn_event event

-- The event that a report stands for, if any.
abbrev pub observed_at : Report → Status → List WireEvent
observed_at r (exited code) =
    Wire.exited (record { pid = r.pid; ts = pos r.ts; code = pos code }) ∷ []
observed_at r (signaled sig) =
    Wire.signaled (record { pid = r.pid; ts = pos r.ts; sig = pos sig }) ∷ []
observed_at r (stopped stopsig event) =
    if stopsig == syscall_trap
    then stop_events r.pid r.ts r.info r.readv
    else if is_fork stopsig event
    then spawn_events r.pid r.ts r.message
    else []
observed_at r continued = []

abbrev pub observed : List Report → List WireEvent
observed [] = []
observed (r ∷ rs) = observed_at r r.status ++ observed rs

-- The number of traced threads after a report.
abbrev pub counted : Report → Status → ℕ → ℕ
counted r (exited _) n = n - 1
counted r (signaled _) n = n - 1
counted r (stopped stopsig event) n =
    if is_fork stopsig event then elim r.message [ none ↦ n | some _ ↦ n + 1 ] else n
counted r continued n = n

-- The reports up to the end of the loop, with `n` traced threads.
unfoldable pub handled : ℕ → List Wait → List Report
handled n [] = []
handled n (report r ∷ ws) =
    let rest = handled (counted r r.status n) ws in if n == 0 then [] else r ∷ rest
handled n (interrupted ∷ ws) = let rest = handled n ws in if n == 0 then [] else rest
handled n (no_child ∷ ws) = []
handled n (failed ∷ ws) = []

abbrev pub HasEntry : Info → Type 0
HasEntry (Info.entry e) = IsEntry e
HasEntry _ = Unit

-- The widths of what the kernel reports.
pub record IsReport (r : Report) : Type 0 where
  pub pid_fits : IsInt r.pid
  pub ts_fits : r.ts < words
  pub entry_fits : HasEntry r.info
  pub reading : IsReading r.readv

abbrev pub IsWait : Wait → Type 0
IsWait (report r) = IsReport r
IsWait _ = Unit
