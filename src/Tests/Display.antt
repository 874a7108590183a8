-- ===== src/Tests/Display.antt =====
-- The theorems on what is shown, at a few values.
use fuddy_duddy.Prelude.{◌≡◌, none, some, ◌++◌}
use fuddy_duddy.Int.{pos, negsuc, int_eq}
use fuddy_duddy.Text.{codes, print_ℤ}
use fuddy_duddy.Dict.{lookup}
use fuddy_duddy.Errno.{errno_names}
use fuddy_duddy.Results.{format_result}
use fuddy_duddy.Results.Failures.{failure_is_named}

failure_is_named_example :
    format_result (codes "mmap") (negsuc 11)
    ≡ elim (lookup (pos 12) errno_names) [ some s ↦ s | none ↦ codes "errno " ++ print_ℤ (pos 12) ]
failure_is_named_example = failure_is_named (codes "mmap") 11
