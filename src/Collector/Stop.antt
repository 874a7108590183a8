-- ===== src/Collector/Stop.antt =====
-- collector/tracer.c: `handle_syscall_stop`. What the kernel says of the stop, and `process_vm_readv`, are
-- arguments, as is the clock. A line is written without its newline.
pub mod Bounds
use fuddy_duddy.Prelude.{
  ℕ, ◌-◌, Bool, true, false, Option, none, some, List, [], ◌∷◌, ◌++◌, map, length, take, ltb, ◌==◌,
  nat_eq, if◌then◌else◌,
}
use fuddy_duddy.Int.{ℤ}
use fuddy_duddy.Text.{Str, codes}
use fuddy_duddy.Wire.Tracer.{escape, args_text, enter_line, exit_line}
use fuddy_duddy.Collector.Memory.{Readv, read_child_string}

-- info.entry
pub record Entry : Type 0 where
  pub nr : ℕ
  pub a0 : ℕ
  pub a1 : ℕ
  pub a2 : ℕ
  pub a3 : ℕ
  pub a4 : ℕ
  pub a5 : ℕ

-- What PTRACE_GET_SYSCALL_INFO says: nothing, or an `op` with the fields of its kind.
pub data Info : Type 0 where
  unavailable : Info
  entry : Entry → Info
  exit : ℤ → Bool → Info
  other : Info

-- What snprintf leaves in a buffer of a size.
abbrev pub snprintf : ℕ → Str → Str
snprintf size text = take (size - 1) text

abbrev pub entry_args : Entry → Str
entry_args e = args_text e.a0 e.a1 e.a2 e.a3 e.a4 e.a5

-- str_arg, 1 as `true` and 0 as `false`, with the address; `none` for -1.
unfoldable pub str_arg : Entry → Option (Bool × ℕ)
str_arg e =
    if e.nr == 257 then some (true, e.a1) else if e.nr == 59 then some (false, e.a0) else none

-- " str%d=%s"
unfoldable pub string_text : Bool → List ℕ → Str
unfolding escape
string_text argument bs = codes (if argument then " str1=" else " str0=") ++ escape 6144 bs

-- The string behind a line of `n` characters, where it is read.
unfoldable pub attach : ℕ → Str → Bool → Option (List ℕ) → Str
unfolding string_text
attach n line argument none = line
attach n line argument (some bs) = line ++ snprintf (8192 - n) (string_text argument bs)

-- The test n > 0 always holds: a line begins with its kind.
unfoldable pub with_string : Readv → ℕ → Str → Option (Bool × ℕ) → Str
unfolding attach read_child_string
with_string readv n line none = line
with_string readv n line (some (argument, addr)) =
    if ltb n 8192 then attach n line argument (read_child_string readv addr) else line

-- The line of an ENTER.
unfoldable pub entry_line : ℤ → ℕ → Entry → Readv → Str
unfolding with_string str_arg enter_line
entry_line pid ts e readv =
    let full = enter_line pid ts e.nr (entry_args e) none in
    with_string readv (length full) (snprintf 8192 full) (str_arg e)

-- handle_syscall_stop: the lines that it writes.
unfoldable pub handle_syscall_stop : ℤ → ℕ → Info → Readv → List Str
unfolding entry_line exit_line
handle_syscall_stop pid ts unavailable readv = []
handle_syscall_stop pid ts (entry e) readv = entry_line pid ts e readv ∷ []
handle_syscall_stop pid ts (exit rval is_error) readv = exit_line pid ts rval is_error ∷ []
handle_syscall_stop pid ts other readv = []
