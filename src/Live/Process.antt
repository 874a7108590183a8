-- ===== src/Live/Process.antt =====
-- live.py: `LiveCollector.start` and `LiveCollector.stop`. What they call of `pathlib`, `subprocess` and
-- `threading` is an interface over a state of the system.
use fuddy_duddy.Prelude.{ℕ, Bool, Option, none, some, List, ◌∷◌, if◌then◌else◌, ◌≡◌}
use fuddy_duddy.Int.{ℤ}
use fuddy_duddy.Text.{Str}

-- The calls, for processes `P` and states `S`. Popen gives no process where it raises an OSError, poll no
-- code while the process runs, and wait no code where its time is over.
pub record System (P S : Type 0) : Type 0 where
  pub exists : S → Bool
  pub popen : List Str → S → Option P × S
  pub start_thread : P → S → S
  pub poll : P → S → Option ℤ × S
  pub terminate : P → S → S
  pub wait : ℕ → P → S → Option ℤ × S
  pub kill : P → S → S

-- What is documented of the calls, for the processes that are down: they have ended, or SIGKILL, which
-- cannot be ignored, was sent to them. A code means that the process has ended.
pub record IsSystem {P S : Type 0} (sys : System P S) (IsDown : P → S → Type 0) : Type 0 where
  pub poll_down :
      (p : P) (s : S) (code : ℤ) → (sys.poll p s).0 ≡ some code → IsDown p (sys.poll p s).1
  pub wait_down :
      (seconds : ℕ) (p : P) (s : S) (code : ℤ)
      → (sys.wait seconds p s).0 ≡ some code
      → IsDown p (sys.wait seconds p s).1
  pub kill_down : (p : P) (s : S) → IsDown p (sys.kill p s)

-- FileNotFoundError, or the OSError of Popen.
pub data StartError : Type 0 where
  not_built : StartError
  os_error : StartError

pub data Start (P : Type 0) : Type 0 where
  started : P → Start P
  refused : StartError → Start P

-- The process that Popen has made gets a thread.
unfoldable pub begin_pump : {P S : Type 0} → System P S → Option P × S → Start P × S
begin_pump sys (none, s) = (refused os_error, s)
begin_pump sys (some p, s) = (started p, sys.start_thread p s)

-- LiveCollector.start, for the path of the tracer: the process is what `self.proc` is then.
unfoldable pub start : {P S : Type 0} → System P S → Str → List Str → S → Start P × S
unfolding begin_pump
start sys tracer cmd s =
    if sys.exists s then begin_pump sys (sys.popen (tracer ∷ cmd) s) else (refused not_built, s)

-- The `except` of the `try` in `stop`.
unfoldable pub kill_late : {P S : Type 0} → System P S → P → Option ℤ × S → S
kill_late sys p (some code, s) = s
kill_late sys p (none, s) = sys.kill p s

-- The body of `stop` behind the poll.
unfoldable pub stop_polled : {P S : Type 0} → System P S → P → Option ℤ × S → S
unfolding kill_late
stop_polled sys p (some code, s) = s
stop_polled sys p (none, s) = kill_late sys p (sys.wait 2 p (sys.terminate p s))

-- LiveCollector.stop, for `self.proc`.
unfoldable pub stop : {P S : Type 0} → System P S → Option P → S → S
unfolding stop_polled
stop sys none s = s
stop sys (some p) s = stop_polled sys p (sys.poll p s)
