-- ===== src/Results.antt =====
-- results.py: what the number in the return register means.
pub mod Failures
use Prim.Native.String.{String}
use fuddy_duddy.Prelude.{
  ℕ, ◌++◌, Bool, true, false, ◌||◌, ◌==◌, list_eq, Option, none, some, List, [], ◌∷◌, if◌then◌else◌,
}
use fuddy_duddy.Int.{ℤ, pos, negsuc, is_negative}
use fuddy_duddy.Text.{Str, codes, print_ℕ, print_hex}
use fuddy_duddy.Errno.{errno_name}

-- A name is one of a set of names.
unfoldable pub is_in : Str → List String → Bool
is_in name [] = false
is_in name (s ∷ ss) = codes s == name || is_in name ss

abbrev pub fd_result : List String
fd_result =
    "open" ∷ "openat" ∷ "openat2" ∷ "creat" ∷ "socket" ∷ "accept" ∷ "accept4" ∷ "dup" ∷ "dup2"
    ∷ "dup3" ∷ "epoll_create1" ∷ "eventfd2" ∷ "memfd_create" ∷ "timerfd_create" ∷ "signalfd4"
    ∷ "inotify_init1" ∷ []

abbrev pub bytes_result : List String
bytes_result =
    "read" ∷ "write" ∷ "pread64" ∷ "pwrite64" ∷ "readv" ∷ "writev" ∷ "preadv" ∷ "pwritev" ∷ "sendto"
    ∷ "recvfrom" ∷ "sendmsg" ∷ "recvmsg" ∷ "sendfile" ∷ "copy_file_range" ∷ "getdents64"
    ∷ "getrandom" ∷ []

abbrev pub addr_result : List String
addr_result = "mmap" ∷ "mremap" ∷ "brk" ∷ "shmat" ∷ []

-- The branches for a syscall that succeeded.
unfoldable pub format_success : Str → ℕ → Str
unfolding is_in
format_success name n =
    if is_in name addr_result
    then codes "0x" ++ print_hex n
    else if is_in name bytes_result
    then print_ℕ n ++ codes " bytes"
    else if is_in name fd_result
    then codes "fd " ++ print_ℕ n
    else print_ℕ n

-- errno_name(result) or "error": an empty name counts as no name
unfoldable pub or_error : Option Str → Str
or_error none = codes "error"
or_error (some []) = codes "error"
or_error (some (c ∷ s)) = c ∷ s

unfoldable pub format_result : Str → ℤ → Str
unfolding format_success or_error
format_result name (negsuc n) = or_error (errno_name (negsuc n))
format_result name (pos n) = format_success name n
