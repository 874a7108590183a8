-- ===== src/Model/Syscalls.antt =====
-- What a syscall leaves behind, from its ENTER to its EXIT, while other processes go on in between.
use fuddy_duddy.Prelude.{
  ◌≡◌, ◌∙◌, ap, true, false, none, some, List, [], ◌∷◌, ◌++◌, ◌==◌, nat_eq, list_eq, Bool-cases,
  inl, inr, All, if◌then◌else◌,
}
use fuddy_duddy.Int.{ℤ, int_eq, is_negative}
use fuddy_duddy.Text.{Str, codes}
use fuddy_duddy.Dict.{insert, erase}
use fuddy_duddy.Event.{Phase, Event, SyscallEvent, syscall}
use fuddy_duddy.Model.{Process, World, settle, complete, effect, length_arg, run}
use fuddy_duddy.Model.Invariant.{IsValid}
use fuddy_duddy.Model.Frame.{Avoids, IsKnown}
use fuddy_duddy.Model.Phases.{seen}
use fuddy_duddy.Model.Phases.{seen_of}
use fuddy_duddy.Model.Pairing.{pair_completes}
use fuddy_duddy.Model.Effects.{
  effect-openat, effect-close, effect-mmap, effect-munmap, effect-execve, effect-other,
}
use fuddy_duddy.Text.Split.{contains_char}
use fuddy_duddy.Text.Split.Laws.{after_last-append}

-- The world behind an ENTER, the events in between, and an EXIT.
abbrev pub behind : SyscallEvent → SyscallEvent → List Event → World → World
behind e x others w = run ((syscall e ∷ others) ++ syscall x ∷ []) w

-- The process of an ENTER as it was before, with the result of the EXIT recorded.
abbrev pub settled : SyscallEvent → World → ℤ → Process
settled e w r = record (seen e.pid w) { in_syscall = none; last_result = some r }

module _ (e x : SyscallEvent) (others : List Event) (w : World) (r : ℤ) (hw : IsValid w)
    (known : IsKnown w) (entering : e.phase ≡ Phase.enter) (leaving : x.phase ≡ Phase.exit)
    (same_pid : x.pid ≡ e.pid) (same_name : x.name ≡ e.name) (avoid : All (Avoids e.pid) others)
    (returned : x.result ≡ some r) where
  seen-behind : seen e.pid (behind e x others w) ≡ complete (some e) (some r) (settled e w r)
  unfolding settle
  seen-behind =
      seen_of e.pid _ (behind e x others w)
        (pair_completes e x others w hw known entering leaving same_pid same_name avoid).0
      ∙ ap (λ o. complete (some e) o (settle o (seen e.pid w))) returned

  succeeded : is_negative r ≡ false → seen e.pid (behind e x others w) ≡ effect e r (settled e w r)
  unfolding complete
  succeeded ok =
      seen-behind ∙ ap (λ b. if b then (settled e w r) else effect e r (settled e w r)) ok

  -- In a valid world whose initial pid is known, an ENTER and the EXIT of the same pid and name,
  -- with only events of other pids in between and a negative result (S4): nothing of the process
  -- changes but what S2 records.
  pub failed_changes_nothing :
      is_negative r ≡ true → seen e.pid (behind e x others w) ≡ (settled e w r)
  unfolding complete
  failed_changes_nothing bad =
      seen-behind ∙ ap (λ b. if b then (settled e w r) else effect e r (settled e w r)) bad

  -- In a valid world whose initial pid is known, an ENTER of `openat` and the EXIT of the same pid
  -- and name, with only events of other pids in between and a result that is not negative (S3):
  -- the path of the ENTER stands under the returned descriptor, and nothing else of the process
  -- changes but what S2 records.
  pub openat_opens :
      is_negative r ≡ false
      → e.name ≡ codes "openat"
      → seen e.pid (behind e x others w) ≡ record (settled e w r) {
        fds = insert r (record { number = r; target = e.path }) (seen e.pid w).fds;
      }
  openat_opens ok name = succeeded ok ∙ effect-openat e r (settled e w r) name

  -- In a valid world whose initial pid is known, an ENTER of `close` with a descriptor and the
  -- EXIT of the same pid and name, with only events of other pids in between and a result that is
  -- not negative (S5): that descriptor is gone, and nothing else of the process changes but what
  -- S2 records.
  pub close_closes :
      (fd : ℤ)
      → is_negative r ≡ false
      → e.name ≡ codes "close"
      → e.fd ≡ some fd
      → seen e.pid (behind e x others w)
        ≡ record (settled e w r) { fds = erase fd (seen e.pid w).fds }
  close_closes fd ok name arg = succeeded ok ∙ effect-close e r (settled e w r) fd name arg

  -- In a valid world whose initial pid is known, an ENTER of `mmap` and the EXIT of the same pid
  -- and name, with only events of other pids in between and a result that is not negative (S7): a
  -- region of the length in the second argument, or 0 without one, stands under the returned
  -- address, and nothing else of the process changes but what S2 records.
  pub mmap_maps :
      is_negative r ≡ false
      → e.name ≡ codes "mmap"
      → seen e.pid (behind e x others w) ≡ record (settled e w r) {
        regions =
            insert r (record { start = r; length = length_arg e.args }) (seen e.pid w).regions;
      }
  mmap_maps ok name = succeeded ok ∙ effect-mmap e r (settled e w r) name

  -- In a valid world whose initial pid is known, an ENTER of `munmap` with at least one argument
  -- and the EXIT of the same pid and name, with only events of other pids in between and a result
  -- that is not negative (S8): the region at the first argument is gone, and nothing else of the
  -- process changes but what S2 records.
  pub munmap_unmaps :
      (start : ℤ) (rest : List ℤ)
      → is_negative r ≡ false
      → e.name ≡ codes "munmap"
      → e.args ≡ start ∷ rest
      → seen e.pid (behind e x others w)
        ≡ record (settled e w r) { regions = erase start (seen e.pid w).regions }
  munmap_unmaps start rest ok name args =
      succeeded ok ∙ effect-munmap e r (settled e w r) start rest name args

  -- In a valid world whose initial pid is known, an ENTER of `execve` with a path that has a slash
  -- and the EXIT of the same pid and name, with only events of other pids in between and a result
  -- that is not negative (S10): the name of the process is what follows the last slash, and
  -- nothing else of the process changes but what S2 records.
  pub execve_renames :
      (dir base : Str)
      → is_negative r ≡ false
      → e.name ≡ codes "execve"
      → e.path ≡ some (dir ++ b'/' ∷ base)
      → contains_char b'/' base ≡ false
      → seen e.pid (behind e x others w) ≡ record (settled e w r) { name = base }
  execve_renames dir base ok name path plain =
      succeeded ok
      ∙ effect-execve e r (settled e w r) (dir ++ b'/' ∷ base) name path
      ∙ ap (λ s. record (settled e w r) { name = s }) (after_last-append b'/' dir base plain)

  -- In a valid world whose initial pid is known, an ENTER of a syscall that is not `openat`,
  -- `close`, `mmap`, `munmap` or `execve` and the EXIT of the same pid and name with any result,
  -- with only events of other pids in between (S6): nothing of the process changes but what S2
  -- records.
  pub unknown_changes_nothing :
      (e.name == codes "openat") ≡ false
      → (e.name == codes "close") ≡ false
      → (e.name == codes "mmap") ≡ false
      → (e.name == codes "munmap") ≡ false
      → (e.name == codes "execve") ≡ false
      → seen e.pid (behind e x others w) ≡ (settled e w r)
  unknown_changes_nothing h1 h2 h3 h4 h5 = elim (Bool-cases (is_negative r)) [
    | inl bad ↦ failed_changes_nothing bad
    | inr ok ↦ succeeded ok ∙ effect-other e r (settled e w r) h1 h2 h3 h4 h5
  ]
