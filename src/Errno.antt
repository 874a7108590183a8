-- ===== src/Errno.antt =====
-- errno_names.py: the names of the error numbers.
use fuddy_duddy.Prelude.{◌++◌, true, false, Option, none, some, [], ◌∷◌}
use fuddy_duddy.Int.{ℤ, int_eq, is_negative, negate}
use fuddy_duddy.Text.{Str, codes, print_ℤ}
use fuddy_duddy.Dict.{Dict, lookup}
use fuddy_duddy.Syscalls.{numbered}

unfoldable pub errno_names : Dict ℤ Str
unfolding numbered
errno_names =
    numbered 1 (
      "EPERM" ∷ "ENOENT" ∷ "ESRCH" ∷ "EINTR" ∷ "EIO" ∷ "ENXIO" ∷ "E2BIG" ∷ "ENOEXEC" ∷ "EBADF"
      ∷ "ECHILD" ∷ "EAGAIN" ∷ "ENOMEM" ∷ "EACCES" ∷ "EFAULT" ∷ [])
    ++ numbered 16 (
        "EBUSY" ∷ "EEXIST" ∷ "EXDEV" ∷ "ENODEV" ∷ "ENOTDIR" ∷ "EISDIR" ∷ "EINVAL" ∷ "ENFILE"
        ∷ "EMFILE" ∷ "ENOTTY" ∷ [])
    ++ numbered 27 ("EFBIG" ∷ "ENOSPC" ∷ "ESPIPE" ∷ "EROFS" ∷ [])
    ++ numbered 32 ("EPIPE" ∷ [])
    ++ numbered 34 ("ERANGE" ∷ [])
    ++ numbered 36 ("ENAMETOOLONG" ∷ [])
    ++ numbered 38 ("ENOSYS" ∷ "ENOTEMPTY" ∷ "ELOOP" ∷ [])
    ++ numbered 110 ("ETIMEDOUT" ∷ "ECONNREFUSED" ∷ [])
    ++ numbered 113 ("EHOSTUNREACH" ∷ [])

-- ERRNO_NAMES.get(n, f"errno {n}")
unfoldable pub name_of_errno : ℤ → Str
name_of_errno n = elim (lookup n errno_names) [ some s ↦ s | none ↦ codes "errno " ++ print_ℤ n ]

-- `none` says that the syscall did not fail.
unfoldable pub errno_name : ℤ → Option Str
unfolding name_of_errno
errno_name result = elim (is_negative result) [
  | true ↦ some (name_of_errno (negate result))
  | false ↦ none
]
