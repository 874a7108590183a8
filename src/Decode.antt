-- ===== src/Decode.antt =====
-- decode.py: wire events to events. The state remembers the pending ENTER's name of each pid.
pub mod Pending
pub mod Live
pub mod Names
use Prim.Native.String.{String}
use fuddy_duddy.Prelude.{
  List, [], ◌∷◌, ◌++◌, Bool, Option, none, some, ◌==◌, list_eq, if◌then◌else◌,
}
use fuddy_duddy.Int.{ℤ, pos, int_eq}
use fuddy_duddy.Text.{Str, codes, print_ℤ}
use fuddy_duddy.Dict.{Dict, lookup, insert, erase}
use fuddy_duddy.Event.{Phase, Event, SyscallEvent}
use fuddy_duddy.Results.{is_in}
use fuddy_duddy.Syscalls.{names}
use fuddy_duddy.Wire.{WireEvent, WireEnter, WireExit, enter, exit, exited, signaled, spawn, to_list}

-- Syscalls whose first argument is a file descriptor.
abbrev pub fd_first : List String
fd_first =
    "read" ∷ "write" ∷ "close" ∷ "pread64" ∷ "pwrite64" ∷ "readv" ∷ "writev" ∷ "lseek" ∷ "fstat"
    ∷ "fsync" ∷ "fdatasync" ∷ "ftruncate" ∷ "fcntl" ∷ "flock" ∷ "fchdir" ∷ "fchmod" ∷ "fchown"
    ∷ "fstatfs" ∷ "dup" ∷ "dup2" ∷ "dup3" ∷ "sendfile" ∷ "getdents" ∷ "getdents64" ∷ "ioctl"
    ∷ "recvfrom" ∷ "sendto" ∷ "recvmsg" ∷ "sendmsg" ∷ "accept" ∷ "accept4" ∷ "connect" ∷ "bind"
    ∷ "listen" ∷ "shutdown" ∷ "epoll_wait" ∷ "epoll_ctl" ∷ []

-- NAMES.get(nr, f"sys_{nr}")
unfoldable pub name_of : ℤ → Str
name_of nr = elim (lookup nr names) [ some s ↦ s | none ↦ codes "sys_" ++ print_ℤ nr ]

-- The field `_pending` of `Decoder`.
abbrev pub Decoder : Type 0
Decoder = Dict ℤ Str

-- The path argument that a syscall has.
unfoldable pub path_of : Str → Dict ℤ Str → Option Str
path_of name strings =
    if name == codes "openat"
    then lookup (pos 1) strings
    else if name == codes "execve"
    then lookup (pos 0) strings
    else none

-- The event of an ENTER (D1).
unfoldable pub enter_event : WireEnter → SyscallEvent
unfolding path_of is_in
enter_event e =
    let name = name_of e.nr in
    record {
      pid = e.pid;
      name = name;
      phase = Phase.enter;
      result = none;
      path = path_of name e.strings;
      fd = if is_in name fd_first then some e.args.a0 else none;
      args = to_list e.args;
    }

-- self._pending.pop(pid, "?"), for the name
unfoldable pub pending_name : ℤ → Decoder → Str
pending_name pid pending = elim (lookup pid pending) [ some name ↦ name | none ↦ codes "?" ]

-- The event of an EXIT (D2).
abbrev pub exit_event : WireExit → Str → SyscallEvent
exit_event e name = record {
  pid = e.pid;
  name = name;
  phase = Phase.exit;
  result = some e.ret;
  path = none;
  fd = none;
  args = [];
}

-- Decoder.push
unfoldable pub push : WireEvent → Decoder → List Event × Decoder
unfolding enter_event pending_name
push (enter e) pending = (Event.syscall (enter_event e) ∷ [], insert e.pid (name_of e.nr) pending)
push (exit e) pending =
    (Event.syscall (exit_event e (pending_name e.pid pending)) ∷ [], erase e.pid pending)
push (spawn e) pending = (Event.spawn (record { parent = e.pid; child = e.child }) ∷ [], pending)
push (exited e) pending = (
  Event.exited (record { pid = e.pid; code = some e.code; signal = none }) ∷ [],
  erase e.pid pending,
)
push (signaled e) pending = (
  Event.exited (record { pid = e.pid; code = none; signal = some e.sig }) ∷ [],
  erase e.pid pending,
)

-- The events of a list of wire events, and the decoder that is left.
unfoldable pub push_all : List WireEvent → Decoder → List Event × Decoder
push_all [] pending = ([], pending)
push_all (e ∷ es) pending =
    let (out, pending') = push e pending in
    let (rest, left) = push_all es pending' in (out ++ rest, left)
