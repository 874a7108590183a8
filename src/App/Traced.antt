-- ===== src/App/Traced.antt =====
-- The whole way of an `openat`, from what the kernel reports to the collector into the world of the app.
use mathlib.Core.Path.{subst}
use fuddy_duddy.Prelude.{
  ℕ, ◌+◌, ◌*◌, ◌/◌, ◌≤◌, ◌<◌, ◌≡◌, ◌≢◌, refl, sym, ◌∙◌, ap, false, true, none, some, List, [], ◌∷◌,
  ◌++◌, length, All, arith, append_assoc, Option, Bool,
}
use fuddy_duddy.Int.{ℤ, pos, int_eq}
use fuddy_duddy.Text.Utf8
use fuddy_duddy.Text.Numeral.Length.{words}
use fuddy_duddy.Dict.{lookup, insert}
use fuddy_duddy.Wire.{WireEvent, WireEnter, WireExit, enter, exit}
use fuddy_duddy.Wire.Tracer.Kept.{kept_all}
use fuddy_duddy.Wire.Tracer.Enter.{cut, args_of}
use fuddy_duddy.Decode.{push_all}
use fuddy_duddy.Decode.Pending.{WireAvoids}
use fuddy_duddy.Decode.Live.{openat_live}
use fuddy_duddy.Director.{Director, empty}
use fuddy_duddy.Director.Drain.{IsPast, drains}
use fuddy_duddy.Model.{World, settle}
use fuddy_duddy.Model.Invariant.{IsValid}
use fuddy_duddy.Model.Frame.{IsKnown}
use fuddy_duddy.Model.Phases.{seen}
use fuddy_duddy.Live.{collector, pump}
use fuddy_duddy.Live.Pump.{behind}
use fuddy_duddy.Floats.{Floats}
use fuddy_duddy.App.{App, start, director_source, run}
use fuddy_duddy.App.Replay.{run-replays}
use fuddy_duddy.Collector.Memory.Reading.{HasString, IsReadv, read_child_string-HasString}
use fuddy_duddy.Collector.Stop.{Entry, Info, str_arg}
use fuddy_duddy.Collector.Stop.Bounds.{string_of}
use fuddy_duddy.Collector.Loop
use fuddy_duddy.Collector.Loop.{Report, Wait, report, stopped, syscall_trap, Tracer}
use fuddy_duddy.Collector.Loop.Observed.{lines_of, observed, observed_at, IsWait, handled}
use fuddy_duddy.Collector.Loop.Events.{collected}
use fuddy_duddy.Collector.Loop.Lives.{Lives, reports, handles_all}

-- An app whose director has the events of an `openat` queued and has released nothing yet.
played :
    (F : Floats) (e : WireEnter) (x : WireExit) (others : List WireEvent) (q : Director) (r k : ℕ)
    (w : World)
    → IsValid w
    → IsKnown w
    → e.nr ≡ pos 257
    → x.pid ≡ e.pid
    → x.ret ≡ pos r
    → All (WireAvoids e.pid) others
    → q.queue ≡ (push_all ((enter e ∷ others) ++ exit x ∷ []) []).0
    → q.last_release ≡ none
    → 20 * length q.queue + 1 ≤ k
    → (app : App F Director) × (run F director_source k (start F w q) ≡ some app)
      × (seen e.pid app.world ≡ record (settle (some (pos r)) (seen e.pid w)) {
        fds =
            insert
              (pos r)
              (record { number = pos r; target = lookup (pos 1) e.strings })
              (seen e.pid w).fds;
      })
unfolding settle seen fuddy_duddy.Decode.enter_event
played F e x others q r k w hw known nr same ret avoid queue fresh enough =
    let (app, made, world, _, _) = run-replays F k (start F w q) in
    (
      app,
      made,
      ap (seen e.pid) world
          ∙ ap (λ es. seen e.pid (fuddy_duddy.Model.run es w))
              (drains 0 k q (subst (IsPast 0) (sym fresh) tt) enough ∙ queue)
          ∙ openat_live e x others [] w r hw known same avoid ret nr,
    )

reports-append : (vs ws : List Wait) → reports (vs ++ ws) ≡ reports vs ++ reports ws
reports-append [] ws = refl
reports-append (report r ∷ vs) ws = ap (λ l. r ∷ l) (reports-append vs ws)
reports-append (Wait.interrupted ∷ vs) ws = reports-append vs ws
reports-append (Wait.no_child ∷ vs) ws = reports-append vs ws
reports-append (Wait.failed ∷ vs) ws = reports-append vs ws

openat_arg : (e : Entry) → e.nr ≡ 257 → str_arg e ≡ some (true, e.a1)
unfolding str_arg
openat_arg e nr = rw nr refl

-- The string of an `openat` whose path is in the memory.
path_read :
    (mem : ℕ → ℕ) (IsMapped : ℕ → Type 0) (r : Report) (e : Entry) (s : List ℕ)
    → IsReadv mem IsMapped r.readv
    → e.nr ≡ 257
    → e.a1 ≢ 0
    → HasString mem e.a1 s
    → 3 * length s < 6144
    → e.a1 + length s < words
    → ((a : ℕ) → e.a1 ≤ a → a ≤ e.a1 + length s → IsMapped (a / 4096))
    → cut (string_of r.readv (str_arg e)) ≡ some (true, s)
unfolding string_of
path_read mem IsMapped r e s reads nr valid h short inside mapped =
    ap (λ arg. cut (string_of r.readv arg)) (openat_arg e nr)
    ∙ ap
        (λ read.
          cut (elim read as (λ _. Option (Bool × List ℕ)) [
            | none ↦ none
            | some bs ↦ some (true, bs)
          ]))
        (read_child_string-HasString mem IsMapped r.readv reads e.a1 s valid h (omega arith) inside
          mapped)
    ∙ ap (λ l. some (true, l)) (kept_all 6144 s short)

module _ (first last : Report) (between : List Wait) (e : Entry) (event event' ret : ℕ) (s : List ℕ)
    (first_stop : first.status ≡ stopped syscall_trap event)
    (first_info : first.info ≡ Info.entry e) (last_stop : last.status ≡ stopped syscall_trap event')
    (last_info : last.info ≡ Info.exit (pos ret) false)
    (text : cut (string_of first.readv (str_arg e)) ≡ some (true, s)) where
  abbrev entered : WireEnter
  entered = record {
    pid = first.pid;
    ts = pos first.ts;
    nr = pos e.nr;
    args = args_of e.a0 e.a1 e.a2 e.a3 e.a4 e.a5;
    strings = (pos 1, Utf8.decode s) ∷ [];
  }

  abbrev left : WireExit
  left = record { pid = last.pid; ts = pos last.ts; ret = pos ret; err = false }

  observed_first : (rs : List Report) → observed (first ∷ rs) ≡ enter entered ∷ observed rs
  observed_first rs = rw (first_stop, first_info, text) refl

  observed_last : (rs : List Report) → observed (rs ++ last ∷ []) ≡ observed rs ++ exit left ∷ []
  observed_last [] = rw (last_stop, last_info) refl
  observed_last (r ∷ rs) =
      ap (λ l. observed_at r r.status ++ l) (observed_last rs)
      ∙ sym (append_assoc (observed_at r r.status) (observed rs) (exit left ∷ []))

  traced_queue :
      (live after : List ℤ) (t : Tracer)
      → Lives live (report first ∷ between ++ report last ∷ []) after
      → t.ntraced ≡ length live
      → All IsWait (report first ∷ between ++ report last ∷ [])
      → pump
          (lines_of (Loop.run (report first ∷ between ++ report last ∷ []) t).0)
          (collector empty)
        ≡ behind ((enter entered ∷ observed (reports between)) ++ exit left ∷ []) (collector empty)
  traced_queue live after t lives count widths =
      collected (report first ∷ between ++ report last ∷ []) t (collector empty) widths
      ∙ ap (λ rs. behind (observed rs) (collector empty))
          (ap (λ n. handled n (report first ∷ between ++ report last ∷ [])) count
            ∙ handles_all lives
            ∙ ap (λ l. first ∷ l) (reports-append between (report last ∷ [])))
      ∙ ap (λ ws. behind ws (collector empty))
          (observed_first (reports between ++ last ∷ [])
            ∙ ap (λ ws. enter entered ∷ ws) (observed_last (reports between)))

-- The kernel reports to the collector's loop a syscall stop that enters an `openat` (number 257),
-- later a syscall stop of the same pid that returns a number which is not negative, without an
-- error, and in between any reports of stops, forks and ends and interrupted waits whose events
-- are about other pids; only traced threads are reported on, as many as the loop counts at the
-- start. Argument 1 is the address, not 0, of a string of bytes other than NUL in the thread's
-- memory, with a NUL behind it, three times whose number is less than 6144, in mapped pages and
-- without a wrap of addresses; `process_vm_readv` copies all of a range inside a mapped page, and
-- only bytes and no more than it is asked for; pids are values of `int`, and times and registers
-- are 64 bits wide. Then the lines that the loop writes, read by a new live collector, whose
-- director is then the source of a new app over a valid world with a known initial pid, let the
-- app play each of at least 20 n + 1 frames for the n events in the queue, and in the app's world
-- what the string decodes to stands under the returned descriptor, and the process is otherwise
-- what it was before with the result recorded.
pub traced_openat_in_app :
    (F : Floats) (mem : ℕ → ℕ) (IsMapped : ℕ → Type 0) (first last : Report) (between : List Wait)
    (e : Entry) (event event' ret : ℕ) (s : List ℕ)
    → first.status ≡ stopped syscall_trap event
    → first.info ≡ Info.entry e
    → e.nr ≡ 257
    → IsReadv mem IsMapped first.readv
    → e.a1 ≢ 0
    → HasString mem e.a1 s
    → 3 * length s < 6144
    → e.a1 + length s < words
    → ((a : ℕ) → e.a1 ≤ a → a ≤ e.a1 + length s → IsMapped (a / 4096))
    → last.status ≡ stopped syscall_trap event'
    → last.info ≡ Info.exit (pos ret) false
    → last.pid ≡ first.pid
    → (live after : List ℤ) (t : Tracer)
    → Lives live (report first ∷ between ++ report last ∷ []) after
    → t.ntraced ≡ length live
    → All IsWait (report first ∷ between ++ report last ∷ [])
    → All (WireAvoids first.pid) (observed (reports between))
    → (k : ℕ) (w : World) → IsValid w
    → IsKnown w
    → let q =
        (pump
          (lines_of (Loop.run (report first ∷ between ++ report last ∷ []) t).0)
          (collector empty)).director in
      20 * length q.queue + 1 ≤ k
      → (app : App F Director) × (run F director_source k (start F w q) ≡ some app)
        × (seen first.pid app.world ≡ record (settle (some (pos ret)) (seen first.pid w)) {
          fds =
              insert
                (pos ret)
                (record { number = pos ret; target = some (Utf8.decode s) })
                (seen first.pid w).fds;
        })
unfolding pump lookup lines_of fuddy_duddy.Int.int_beq
traced_openat_in_app F mem IsMapped first last between e event event' ret s first_stop first_info nr
      reads valid h short inside mapped last_stop last_info same live after t lives count widths
      avoid k w hw known enough =
    let text = path_read mem IsMapped first e s reads nr valid h short inside mapped in
    let result =
      traced_queue first last between e event event' ret s first_stop first_info last_stop last_info
        text live after t lives count widths in
    played F
      (entered first last between e event event' ret s first_stop first_info last_stop last_info
        text)
      (left first last between e event event' ret s first_stop first_info last_stop last_info text)
      (observed (reports between)) _ ret k w hw known (ap pos nr) same refl avoid
      (ap (λ c. c.director.queue) result) (ap (λ c. c.director.last_release) result) enough
