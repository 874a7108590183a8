-- ===== src/Model/Outcome.antt =====
-- What a paired ENTER and EXIT leave of their process, case by case.
use fuddy_duddy.Prelude.{
  All, ◌≢◌, ◌≡◌, true, false, Option, none, some, List, [], ◌∷◌, ◌++◌, ◌==◌, nat_eq, list_eq, ◌⊎◌,
}
use fuddy_duddy.Int.{ℤ, pos, int_eq, is_negative}
use fuddy_duddy.Text.{Str, codes}
use fuddy_duddy.Dict.{insert, erase}
use fuddy_duddy.Event.{SyscallEvent}
use fuddy_duddy.Model.{Process}

-- The process with its result, and no syscall pending (S2).
abbrev pub returned : Process → ℤ → Process
returned p r = record p { in_syscall = none; last_result = some r }

module _ (e : SyscallEvent) (p : Process) where
  -- What the ENTER `e` of the process `p` and its EXIT leave, for the result of the EXIT.
  pub data Outcome : Option ℤ → Process → Type 0 where
    unfinished : Outcome none (record p { in_syscall = none })
    -- S4
    failed : {r : ℤ} → is_negative r ≡ true → Outcome (some r) (returned p r)
    -- S3
    opened :
        {r : ℤ}
        → is_negative r ≡ false
        → e.name ≡ codes "openat"
        → Outcome (some r) (record (returned p r) {
          fds = insert r (record { number = r; target = e.path }) p.fds;
        })
    -- S5
    closed :
        {r : ℤ} (fd : ℤ)
        → is_negative r ≡ false
        → e.name ≡ codes "close"
        → e.fd ≡ some fd
        → Outcome (some r) (record (returned p r) { fds = erase fd p.fds })
    closed_nothing :
        {r : ℤ}
        → is_negative r ≡ false
        → e.name ≡ codes "close"
        → e.fd ≡ none
        → Outcome (some r) (returned p r)
    -- S7
    mapped :
        {r : ℤ} (start length : ℤ) (rest : List ℤ)
        → is_negative r ≡ false
        → e.name ≡ codes "mmap"
        → e.args ≡ start ∷ length ∷ rest
        → Outcome (some r) (record (returned p r) {
          regions = insert r (record { start = r; length = length }) p.regions;
        })
    mapped_empty :
        {r : ℤ}
        → is_negative r ≡ false
        → e.name ≡ codes "mmap"
        → (e.args ≡ []) ⊎ ((start : ℤ) × (e.args ≡ start ∷ []))
        → Outcome (some r) (record (returned p r) {
          regions = insert r (record { start = r; length = pos 0 }) p.regions;
        })
    -- S8
    unmapped :
        {r : ℤ} (start : ℤ) (rest : List ℤ)
        → is_negative r ≡ false
        → e.name ≡ codes "munmap"
        → e.args ≡ start ∷ rest
        → Outcome (some r) (record (returned p r) { regions = erase start p.regions })
    unmapped_nothing :
        {r : ℤ}
        → is_negative r ≡ false
        → e.name ≡ codes "munmap"
        → e.args ≡ []
        → Outcome (some r) (returned p r)
    -- S10
    renamed :
        {r : ℤ} (dir base : Str)
        → is_negative r ≡ false
        → e.name ≡ codes "execve"
        → e.path ≡ some (dir ++ b'/' ∷ base)
        → All (λ d. d ≢ b'/') base
        → Outcome (some r) (record (returned p r) { name = base })
    renamed_plain :
        {r : ℤ} (path : Str)
        → is_negative r ≡ false
        → e.name ≡ codes "execve"
        → e.path ≡ some path
        → All (λ d. d ≢ b'/') path
        → Outcome (some r) (record (returned p r) { name = path })
    kept_name :
        {r : ℤ}
        → is_negative r ≡ false
        → e.name ≡ codes "execve"
        → e.path ≡ none
        → Outcome (some r) (returned p r)
    -- S6
    other :
        {r : ℤ}
        → is_negative r ≡ false
        → (e.name == codes "openat") ≡ false
        → (e.name == codes "close") ≡ false
        → (e.name == codes "mmap") ≡ false
        → (e.name == codes "munmap") ≡ false
        → (e.name == codes "execve") ≡ false
        → Outcome (some r) (returned p r)
