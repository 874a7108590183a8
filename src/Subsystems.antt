-- ===== src/Subsystems.antt =====
-- subsystems.py: the kernel subsystem that a syscall touches.
use Prim.Native.String.{String}
use fuddy_duddy.Prelude.{◌++◌, none, some, List, [], ◌∷◌, list_eq}
use fuddy_duddy.Text.{Str, codes}
use fuddy_duddy.Dict.{Dict, lookup}

pub data Subsystem : Type 0 where
  file memory process net other : Subsystem

-- The entries of one subsystem.
unfoldable pub entries : Subsystem → List String → Dict Str Subsystem
entries sub [] = []
entries sub (s ∷ ss) = (codes s, sub) ∷ entries sub ss

unfoldable pub classification : Dict Str Subsystem
unfolding entries
classification =
    entries file (
      "open" ∷ "openat" ∷ "openat2" ∷ "creat" ∷ "close" ∷ "read" ∷ "write" ∷ "pread64" ∷ "pwrite64"
      ∷ "readv" ∷ "writev" ∷ "lseek" ∷ "stat" ∷ "fstat" ∷ "lstat" ∷ "newfstatat" ∷ "statx"
      ∷ "access" ∷ "faccessat" ∷ "getdents64" ∷ "statfs" ∷ "fstatfs" ∷ "fadvise64" ∷ "fcntl" ∷ "dup"
      ∷ "dup2" ∷ "dup3" ∷ "pipe" ∷ "pipe2" ∷ [])
    ++ entries memory
        ("mmap" ∷ "munmap" ∷ "mremap" ∷ "mprotect" ∷ "madvise" ∷ "brk" ∷ "mlock" ∷ "munlock" ∷ [])
    ++ entries process (
        "clone" ∷ "clone3" ∷ "fork" ∷ "vfork" ∷ "execve" ∷ "execveat" ∷ "exit" ∷ "exit_group"
        ∷ "wait4" ∷ "waitid" ∷ "kill" ∷ "arch_prctl" ∷ "set_tid_address" ∷ [])
    ++ entries net (
        "socket" ∷ "socketpair" ∷ "connect" ∷ "accept" ∷ "accept4" ∷ "bind" ∷ "listen" ∷ "sendto"
        ∷ "recvfrom" ∷ "sendmsg" ∷ "recvmsg" ∷ "shutdown" ∷ "getsockname" ∷ "getpeername"
        ∷ "setsockopt" ∷ "getsockopt" ∷ [])

unfoldable pub classify : Str → Subsystem
unfolding classification lookup
classify name = elim (lookup name classification) [ some sub ↦ sub | none ↦ other ]
