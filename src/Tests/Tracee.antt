-- ===== src/Tests/Tracee.antt =====
-- A tracee for the tests: two mapped pages, with a path that lies across their border.
use fuddy_duddy.Prelude.{
  ℕ, zero, suc, ◌+◌, ◌/◌, ◌%◌, ◌≤◌, ◌<◌, ◌≡◌, refl, Bool, false, ◌&&◌, none, some, List, [], ◌∷◌,
  length, leb, ◌==◌, nat_eq, if_cases, if◌then◌else◌, All, arith,
}
use fuddy_duddy.Int.{pos}
use fuddy_duddy.Collector.Memory.{Readv}
use fuddy_duddy.Collector.Memory.Reading.{bytes_at, length-bytes_at, HasString, IsReadv}
use fuddy_duddy.Collector.Memory.Bounds.{IsReading}
use fuddy_duddy.Collector.Stop.{Entry, Info}
use fuddy_duddy.Collector.Stop.Bounds.{IsEntry}
use fuddy_duddy.Collector.Loop.{Report, stopped, exited, signaled, syscall_trap, sigtrap}
use fuddy_duddy.Collector.Loop.Observed.{IsReport}

-- "/a b" from 8190 on, with NUL all around.
unfoldable pub memory : ℕ → ℕ
memory a =
    if a == 8190
    then 47
    else if a == 8191
    then 97
    else if a == 8192
    then 32
    else if a == 8193
    then 98
    else 0

abbrev pub path_bytes : List ℕ
path_bytes = 47 ∷ 97 ∷ 32 ∷ 98 ∷ []

pub memory-HasString : HasString memory 8190 path_bytes
unfolding memory
memory-HasString =
    (omega arith, refl, (omega arith, refl, (omega arith, refl, (omega arith, refl, refl))))

abbrev pub IsMapped : ℕ → Type 0
IsMapped page = (1 ≤ page) × (page ≤ 2)

abbrev readable : ℕ → ℕ → Bool
readable a n = leb 1 (a / 4096) && leb (a / 4096) 2 && leb (a % 4096 + n) 4096

-- Reads inside the pages 1 and 2.
unfoldable pub readv : Readv
readv a n = if readable a n then bytes_at memory a n else []

pub readv-IsReadv : IsReadv memory IsMapped readv
unfolding readv
readv-IsReadv = record {
  whole = λ a n h mapped.
      if_cases (λ l. l ≡ bytes_at memory a n) (readable a n) _ _ (λ _. refl)
        (λ shut. absurd (ground arith));
}

memory-byte : (a : ℕ) → memory a < 256
unfolding memory
memory-byte a = ground arith

bytes_at-byte : (a n : ℕ) → All (λ b. b < 256) (bytes_at memory a n)
unfolding bytes_at
bytes_at-byte a zero = tt
bytes_at-byte a (suc n) = (memory-byte a, bytes_at-byte (a + 1) n)

pub readv-IsReading : IsReading readv
unfolding readv
readv-IsReading a n =
    if_cases (λ l. (length l ≤ n) × All (λ b. b < 256) l) (readable a n) (bytes_at memory a n) []
      (λ _. (omega (arith, length-bytes_at memory a n), bytes_at-byte a n)) (λ _. (omega arith, tt))

abbrev pub entry : Entry
entry = record { nr = 257; a0 = 4294967196; a1 = 8190; a2 = 0; a3 = 0; a4 = 0; a5 = 0 }

pub entry-IsEntry : IsEntry entry
entry-IsEntry = record {
  nr_fits = omega arith;
  a0_fits = omega arith;
  a1_fits = omega arith;
  a2_fits = omega arith;
  a3_fits = omega arith;
  a4_fits = omega arith;
  a5_fits = omega arith;
}

-- An `openat` of the pid 100, a fork of the pid 7, the end of its child 101 by SIGKILL, the return
-- from the `openat`, and the exit of the pid 100.
abbrev pub opens : Report
opens = record {
  pid = pos 100;
  ts = 1;
  status = stopped syscall_trap 0;
  info = Info.entry entry;
  message = none;
  readv = readv;
}

abbrev pub forks_child : Report
forks_child = record {
  pid = pos 7;
  ts = 2;
  status = stopped sigtrap 1;
  info = Info.unavailable;
  message = some 101;
  readv = readv;
}

abbrev pub child_dies : Report
child_dies = record {
  pid = pos 101;
  ts = 3;
  status = signaled 9;
  info = Info.unavailable;
  message = none;
  readv = readv;
}

abbrev pub opened : Report
opened = record {
  pid = pos 100;
  ts = 4;
  status = stopped syscall_trap 0;
  info = Info.exit (pos 3) false;
  message = none;
  readv = readv;
}

abbrev pub leaves : Report
leaves = record {
  pid = pos 100;
  ts = 5;
  status = exited 3;
  info = Info.unavailable;
  message = none;
  readv = readv;
}

pub opens-IsReport : IsReport opens
opens-IsReport = record {
  pid_fits = omega arith;
  ts_fits = omega arith;
  entry_fits = entry-IsEntry;
  reading = readv-IsReading;
}

pub forks_child-IsReport : IsReport forks_child
forks_child-IsReport = record {
  pid_fits = omega arith;
  ts_fits = omega arith;
  entry_fits = tt;
  reading = readv-IsReading;
}

pub child_dies-IsReport : IsReport child_dies
child_dies-IsReport = record {
  pid_fits = omega arith;
  ts_fits = omega arith;
  entry_fits = tt;
  reading = readv-IsReading;
}

pub opened-IsReport : IsReport opened
opened-IsReport = record {
  pid_fits = omega arith;
  ts_fits = omega arith;
  entry_fits = tt;
  reading = readv-IsReading;
}

pub leaves-IsReport : IsReport leaves
leaves-IsReport = record {
  pid_fits = omega arith;
  ts_fits = omega arith;
  entry_fits = tt;
  reading = readv-IsReading;
}
