-- ===== src/Tests/Collector.antt =====
-- The theorems on the collector, at the reports and the memory of a small tracee.
use fuddy_duddy.Event.{Event}
use fuddy_duddy.Decode.{Decoder, push_all}
use fuddy_duddy.Model
use fuddy_duddy.Visualizer.Session
use fuddy_duddy.Visualizer.Session.{quiet}
use fuddy_duddy.Visualizer.Session.Traced.{joined, trace_is_shown}
use fuddy_duddy.Tests.App.{counter}
use fuddy_duddy.Prelude.{
  append-nil, ℕ, ◌+◌, ◌*◌, ◌<◌, ◌≡◌, refl, true, some, List, [], ◌∷◌, ◌++◌, length, All, leb,
  if◌then◌else◌, ◌%◌, if_cases, arith,
}
use fuddy_duddy.Int.{ℤ, pos, int_eq, int_beq}
use fuddy_duddy.Text.{Str}
use fuddy_duddy.Text.Utf8
use fuddy_duddy.Dict.{insert}
use fuddy_duddy.Wire.Tracer.{enter_line}
use fuddy_duddy.Decode.Pending.{WireAvoids}
use fuddy_duddy.Director.{Director, empty}
use fuddy_duddy.Model.{settle}
use fuddy_duddy.Model.Phases.{seen}
use fuddy_duddy.Live.{collector, pump}
use fuddy_duddy.Live.Pump.{behind}
use fuddy_duddy.App.{App, start, director_source}
use fuddy_duddy.App
use fuddy_duddy.App.Traced.{traced_openat_in_app}
use fuddy_duddy.Collector.Memory.{Readv, Chunks, read_chunks, read_child_string}
use fuddy_duddy.Collector.Memory.Reading.{read_child_string-HasString}
use fuddy_duddy.Collector.Memory.Bounds.{InPage, reads-InPage}
use fuddy_duddy.Collector.Memory.Rounds.{rounds_suffice}
use fuddy_duddy.Collector.Stop.{entry_args, str_arg, entry_line}
use fuddy_duddy.Collector.Stop.Bounds.{string_of, entry_line-IsWhole}
use fuddy_duddy.Collector.Loop.{
  Report, stopped, Wait, report, interrupted, to_int, Outcome, waiting, returned, run, attached,
  main, Tracer,
}
use fuddy_duddy.Collector.Loop.Observed.{lines_of, observed, handled, IsWait}
use fuddy_duddy.Collector.Loop.Events.{collected}
use fuddy_duddy.Collector.Loop.Resume.{resumptions, resumed, run_resumes}
use fuddy_duddy.Collector.Loop.Lives.{
  Lives, over, again, stops, forks, ends, by_exit, by_signal, reports,
}
use fuddy_duddy.Collector.Loop.Exit.{collector_returns}
use fuddy_duddy.Tests.Whole.{whole}
use fuddy_duddy.Tests.Samples.{world, world-IsValid, world-IsKnown}
use fuddy_duddy.Tests.Tracee.{
  memory, path_bytes, memory-HasString, IsMapped, readv, readv-IsReadv, entry, entry-IsEntry, opens,
  forks_child, child_dies, opened, leaves, opens-IsReport, forks_child-IsReport,
  child_dies-IsReport, opened-IsReport,
}

read_child_string-HasString_example : read_child_string readv 8190 ≡ some path_bytes
read_child_string-HasString_example =
    read_child_string-HasString memory IsMapped readv readv-IsReadv 8190 path_bytes (omega arith)
      memory-HasString (omega arith) (omega arith) (λ a low high. omega arith)

-- Another answer for ranges that leave their page.
abbrev careless : Readv
careless a n = if leb (a % 4096 + n) 4096 then readv a n else 1 ∷ []

careless_lem : (a n : ℕ) → InPage a n → readv a n ≡ careless a n
careless_lem a n h =
    if_cases (λ l. readv a n ≡ l) (leb (a % 4096 + n) 4096) (readv a n) (1 ∷ []) (λ _. refl)
      (λ out. absurd (ground arith))

reads-InPage_example : read_child_string readv 8190 ≡ read_child_string careless 8190
reads-InPage_example = reads-InPage readv careless careless_lem 8190

rounds_suffice_example :
    (c : Chunks) × (read_chunks 4096 readv 8190 0 ≡ some c)
    × (read_chunks 5000 readv 8190 0 ≡ some c)
rounds_suffice_example = rounds_suffice readv 8190 5000 (omega arith)

entry_line-IsWhole_example :
    (entry_line (pos 100) 1 entry readv
      ≡ enter_line (pos 100) 1 257 (entry_args entry) (string_of readv (str_arg entry)))
    × (length (enter_line (pos 100) 1 257 (entry_args entry) (string_of readv (str_arg entry)))
        < 8192)
entry_line-IsWhole_example =
    entry_line-IsWhole (pos 100) 1 entry readv (omega arith) (omega arith) entry-IsEntry

abbrev others : List Wait
others = report forks_child ∷ interrupted ∷ report child_dies ∷ []

abbrev opening : List Wait
opening = report opens ∷ others ++ report opened ∷ []

opening-IsWait : All IsWait opening
opening-IsWait =
    (opens-IsReport, (forks_child-IsReport, (tt, (child_dies-IsReport, (opened-IsReport, tt)))))

-- Both pids are traced.
abbrev two : Tracer
two = record { initial_pid = pos 100; initial_code = 0; ntraced = 2 }

collected_example :
    pump (lines_of (run opening two).0) (collector empty)
    ≡ behind (observed (handled 2 opening)) (collector empty)
collected_example = collected opening two (collector empty) opening-IsWait

run_resumes_example : resumptions (run opening two).0 ≡ resumed (handled 2 opening)
run_resumes_example = run_resumes opening two

abbrev live : List ℤ
live = pos 100 ∷ pos 7 ∷ []

opening-Lives : Lives live opening live
unfolding to_int fuddy_duddy.Collector.Loop.is_spawn_event
opening-Lives = stops [] (pos 7 ∷ []) 133 0 opens refl refl refl (
    forks (pos 100 ∷ []) [] 5 1 101 forks_child refl refl refl refl (
      again (
        ends [] live 137 child_dies refl (by_signal 9)
          (stops [] (pos 7 ∷ []) 133 0 opened refl refl refl over))))

others-WireAvoids : All (WireAvoids (pos 100)) (observed (reports others))
unfolding int_beq to_int fuddy_duddy.Collector.Loop.is_spawn_event
others-WireAvoids = ((refl, refl), (refl, tt))

traced_openat_in_app_example :
    let q = (pump (lines_of (run opening two).0) (collector empty)).director in
    (app : App whole Director) × (App.run whole director_source
        (20 * length q.queue + 1)
        (start whole world q)
      ≡ some app)
    × (seen (pos 100) app.world ≡ record (settle (some (pos 3)) (seen (pos 100) world)) {
      fds =
          insert
            (pos 3)
            (record { number = pos 3; target = some (Utf8.decode path_bytes) })
            (seen (pos 100) world).fds;
    })
traced_openat_in_app_example =
    traced_openat_in_app whole memory IsMapped opens opened others entry 0 0 3 path_bytes refl refl
      refl readv-IsReadv (omega arith) memory-HasString (omega arith) (omega arith)
      (λ a low high. omega arith) refl refl refl live live two opening-Lives refl opening-IsWait
      others-WireAvoids
      (20 * length (pump (lines_of (run opening two).0) (collector empty)).director.queue + 1) world
      world-IsValid world-IsKnown (omega arith)

abbrev shell_leaves : Report
shell_leaves = record leaves { pid = pos 7 }

-- The pid 7 forks, its child is killed, and it exits with the code 3.
abbrev whole_run : List Wait
whole_run = report forks_child ∷ interrupted ∷ report child_dies ∷ report shell_leaves ∷ []

whole_run-Lives : Lives (pos 7 ∷ []) whole_run []
unfolding to_int fuddy_duddy.Collector.Loop.is_spawn_event
whole_run-Lives = forks [] [] 5 1 101 forks_child refl refl refl refl (
    again (
      ends [] (pos 7 ∷ []) 137 child_dies refl (by_signal 9)
        (ends [] [] 3 shell_leaves refl (by_exit 3) over)))

collector_returns_example :
    (handled 1 whole_run ≡ reports whole_run)
    × ((main 2 (some (pos 7)) (some (stopped 5 0)) true whole_run).1 ≡ returned 3)
collector_returns_example =
    collector_returns 2 5 0 (pos 7) [] (forks_child ∷ child_dies ∷ []) [] shell_leaves 3
      (omega arith) whole_run-Lives refl refl (by_exit 3) tt

-- The lines of all reports come between the second frame and the third.
abbrev batches : List (List Str)
batches = [] ∷ [] ∷ lines_of (run opening two).0 ∷ []

all_lines : (lines : List Str) → joined ([] ∷ [] ∷ lines ∷ []) ≡ lines
unfolding joined
all_lines lines = append-nil lines

abbrev shown_events : List Event
shown_events = (push_all (observed (handled 2 opening)) []).0

trace_is_shown_example :
    (r : Decoder × App whole Director × ℕ) × (Session.run counter whole
        (batches ++ quiet (20 * length shown_events + 1))
        []
        (start whole world empty)
        7
      ≡ some r)
    × (r.1.world ≡ Model.run shown_events world)
    × (r.1.source.queue ≡ [])
trace_is_shown_example =
    trace_is_shown counter whole world opening two batches (20 * length shown_events + 1) 7
      world-IsValid opening-IsWait (all_lines (lines_of (run opening two).0)) (omega arith)
