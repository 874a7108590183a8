-- ===== src/Collector/Loop/Events.antt =====
-- The lines that the loop writes, read by `parse_line`.
use fuddy_duddy.Prelude.{
  ℕ, ◌<◌, ◌≡◌, refl, ◌∙◌, ap, Bool, Bool-cases, inl, inr, Option, none, some, List, [], ◌∷◌, ◌++◌,
  map, All, ◌==◌, nat_eq, of_eq_true, if_cases,
}
use fuddy_duddy.Int.{ℤ, pos}
use fuddy_duddy.Text.{Str}
use fuddy_duddy.Text.Numeral.Length.{words, IsInt}
use fuddy_duddy.Wire.Tracer.Escaping.{IsByte}
use fuddy_duddy.Wire.Tracer.Enter.{HasBytes, parse-any_enter_line}
use fuddy_duddy.Wire.Tracer.RoundTrip.{
  parse-exit_line, parse-exited_line, parse-signaled_line, parse-spawn_line,
}
use fuddy_duddy.Live.{LiveCollector, pump}
use fuddy_duddy.Live.Pump.{wires-append, wires, behind, pump_decodes}
use fuddy_duddy.Collector.Memory.{Readv, read_child_string}
use fuddy_duddy.Collector.Memory.Bounds.{IsText, IsReading, read_child_string-IsText}
use fuddy_duddy.Collector.Stop.{Info, str_arg, handle_syscall_stop}
use fuddy_duddy.Collector.Stop.Bounds.{string_of, entry_line-IsWhole}
use fuddy_duddy.Collector.Loop.Count.{quiet, quiet_lem, status_counted}
use fuddy_duddy.Collector.Loop.Observed.{
  lines_of, stop_events, spawn_events, is_fork, observed_at, observed, handled, HasEntry, IsReport,
  IsWait,
}
use fuddy_duddy.Collector.Loop.{
  Status, exited, signaled, stopped, continued, Report, Wait, report, interrupted, no_child, failed,
  Action, write, diagnose, resume, Tracer, syscall_trap, to_int, handle_spawn, handle_stop,
  handle_status, Outcome, run,
}

pub lines_of-append : (xs ys : List Action) → lines_of (xs ++ ys) ≡ lines_of xs ++ lines_of ys
unfolding lines_of
lines_of-append [] ys = refl
lines_of-append (write line ∷ xs) ys = ap (λ l. line ∷ l) (lines_of-append xs ys)
lines_of-append (diagnose _ ∷ xs) ys = lines_of-append xs ys
lines_of-append (resume _ _ ∷ xs) ys = lines_of-append xs ys

Text-Byte : (bs : List ℕ) → All IsText bs → All IsByte bs
Text-Byte [] _ = tt
Text-Byte (b ∷ bs) ((_, h), hs) = (h, Text-Byte bs hs)

read_HasBytes :
    (argument : Bool) (read : Option (List ℕ))
    → ((bs : List ℕ) → read ≡ some bs → All IsText bs)
    → HasBytes (elim read [ none ↦ none | some bs ↦ some (argument, bs) ])
read_HasBytes argument none h = tt
read_HasBytes argument (some bs) h = Text-Byte bs (h bs refl)

string_of-HasBytes :
    (readv : Readv) (arg : Option (Bool × ℕ)) → IsReading readv → HasBytes (string_of readv arg)
unfolding string_of
string_of-HasBytes readv none h = tt
string_of-HasBytes readv (some (argument, addr)) h =
    read_HasBytes argument (read_child_string readv addr)
      (λ bs found. (read_child_string-IsText readv addr bs h found).0)

stop_read :
    (pid : ℤ) (ts : ℕ) (info : Info) (readv : Readv)
    → IsInt pid
    → ts < words
    → HasEntry info
    → IsReading readv
    → wires (handle_syscall_stop pid ts info readv) ≡ stop_events pid ts info readv
unfolding handle_syscall_stop
stop_read pid ts Info.unavailable readv p t h reads = refl
stop_read pid ts (Info.entry e) readv p t h reads =
    let (whole, _) = entry_line-IsWhole pid ts e readv p t h in
    rw
      (
        whole,
        parse-any_enter_line pid ts e.nr e.a0 e.a1 e.a2 e.a3 e.a4 e.a5 (string_of readv (str_arg e))
            (string_of-HasBytes readv (str_arg e) reads),
      )
      refl
stop_read pid ts (Info.exit rval is_error) readv p t h reads =
    rw (parse-exit_line pid ts rval is_error) refl
stop_read pid ts Info.other readv p t h reads = refl

lines_of-map :
    (lines : List Str) (pid : ℤ) → lines_of (map write lines ++ resume pid 0 ∷ []) ≡ lines
unfolding lines_of
lines_of-map [] pid = refl
lines_of-map (line ∷ lines) pid = ap (λ l. line ∷ l) (lines_of-map lines pid)

spawn_read :
    (r : Report) (t : Tracer) (message : Option ℕ)
    → wires (lines_of (handle_spawn r message t).0) ≡ spawn_events r.pid r.ts message
unfolding handle_spawn lines_of
spawn_read r t none = refl
spawn_read r t (some newpid) = rw (parse-spawn_line r.pid r.ts (to_int newpid)) refl

stop_read_back :
    (r : Report) (stopsig event : ℕ) (t : Tracer)
    → IsReport r
    → wires (lines_of (handle_stop r stopsig event t).0) ≡ observed_at r (stopped stopsig event)
unfolding handle_stop quiet
stop_read_back r stopsig event t h = elim (Bool-cases (stopsig == syscall_trap)) [
  | inl trap ↦ rw (of_eq_true stopsig syscall_trap trap) (
      ap wires (lines_of-map (handle_syscall_stop r.pid r.ts r.info r.readv) r.pid)
      ∙ stop_read r.pid r.ts r.info r.readv h.pid_fits h.ts_fits h.entry_fits h.reading)
  | inr other ↦ rw other (elim (Bool-cases (is_fork stopsig event)) [
    | inl fork ↦ rw fork (spawn_read r t r.message)
    | inr plain ↦ rw plain (ap wires (quiet_lem r stopsig t).0)
  ])
]

report_read :
    (r : Report) (status : Status) (t : Tracer)
    → IsReport r
    → wires (lines_of (handle_status r status t).0) ≡ observed_at r status
unfolding handle_status lines_of
report_read r (exited code) t h = rw (parse-exited_line r.pid r.ts (pos code)) refl
report_read r (signaled sig) t h = rw (parse-signaled_line r.pid r.ts (pos sig)) refl
report_read r (stopped stopsig event) t h = stop_read_back r stopsig event t h
report_read r continued t h = refl

pub run_read :
    (ws : List Wait) (t : Tracer)
    → All IsWait ws
    → wires (lines_of (run ws t).0) ≡ observed (handled t.ntraced ws)
unfolding run handled lines_of
run_read [] t _ = refl
run_read (report r ∷ ws) t (h, hs) = elim (Bool-cases (t.ntraced == 0)) [
  | inl ends ↦ rw ends refl
  | inr goes ↦
      let (actions, t') = handle_status r r.status t in
      rw goes (
        ap wires (lines_of-append actions (run ws t').0)
        ∙ wires-append (lines_of actions) (lines_of (run ws t').0)
        ∙ ap (λ l. l ++ wires (lines_of (run ws t').0)) (report_read r r.status t h)
        ∙ ap (λ l. observed_at r r.status ++ l)
            (run_read ws t' hs ∙ ap (λ n. observed (handled n ws)) (status_counted r r.status t)))
]
run_read (interrupted ∷ ws) t (_, hs) = elim (Bool-cases (t.ntraced == 0)) [
  | inl ends ↦ rw ends refl
  | inr goes ↦ rw goes (run_read ws t hs)
]
run_read (no_child ∷ ws) t _ = refl
run_read (failed ∷ ws) t _ =
    if_cases (λ (p : List Action × Outcome). wires (lines_of p.0) ≡ []) (t.ntraced == 0) _ _
      (λ _. refl) (λ _. refl)

-- The lines that the collector's loop writes for any sequence of results of `waitpid`, read by a
-- live collector, have the effect of exactly one wire event for each report up to the loop's end
-- that stands for one, in their order: an ENTER with the string that was read of the thread's
-- memory, as far as the buffer holds its escape, an EXIT, the end of a thread, or a spawn. The
-- pids are values of `int`, the times, syscall numbers and arguments are 64 bits wide, and
-- `process_vm_readv` copies bytes and no more than it is asked for.
pub collected :
    (ws : List Wait) (t : Tracer) (c : LiveCollector)
    → All IsWait ws
    → pump (lines_of (run ws t).0) c ≡ behind (observed (handled t.ntraced ws)) c
collected ws t c h = pump_decodes (lines_of (run ws t).0) c ∙ ap (λ l. behind l c) (run_read ws t h)
