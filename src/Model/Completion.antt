-- ===== src/Model/Completion.antt =====
-- Every paired ENTER and EXIT against the cases of `Outcome`.
use mathlib.Core.Path.{subst}
use fuddy_duddy.Prelude.{
  ◌≡◌, refl, sym, ◌∙◌, ap, false, Option, none, some, List, [], ◌∷◌, ◌++◌, ◌==◌, nat_eq, list_eq,
  of_eq_true, if_cases, Bool-cases, Option-cases, inl, inr, All,
}
use fuddy_duddy.Int.{ℤ, int_eq, is_negative}
use fuddy_duddy.Text.{Str, codes}
use fuddy_duddy.Text.Split.{contains_char, after_last}
use fuddy_duddy.Text.Split.Laws.{
  contains_char-none, after_last-append, after_last_whole, last_split,
}
use fuddy_duddy.Dict.{lookup, insert}
use fuddy_duddy.Event.{Phase, Event, SyscallEvent, syscall}
use fuddy_duddy.Model.{Process, World, settle, complete, effect, length_arg, run}
use fuddy_duddy.Model.Outcome.{
  returned, Outcome, unfinished, failed, opened, closed, closed_nothing, mapped, mapped_empty,
  unmapped, unmapped_nothing, renamed, renamed_plain, kept_name, other,
}
use fuddy_duddy.Model.Invariant.{IsValid}
use fuddy_duddy.Model.Frame.{Avoids, IsKnown}
use fuddy_duddy.Model.Phases.{seen}
use fuddy_duddy.Model.Pairing.{pair_completes}
use fuddy_duddy.Model.Effects.{
  effect-openat, effect-close, effect-close_nothing, effect-mmap, effect-munmap,
  effect-munmap_nothing, effect-execve, effect-execve_nothing, effect-other,
}

module _ (e : SyscallEvent) (p : Process) (r : ℤ) (ok : is_negative r ≡ false) where
  -- The effect on the process with its result.
  abbrev Ends : Process → Type 0
  Ends = Outcome e p (some r)

  close-Outcome : e.name ≡ codes "close" → Ends (effect e r (returned p r))
  close-Outcome name = elim (Option-cases e.fd) [
    | inl nothing ↦
        subst Ends (sym (effect-close_nothing e r (returned p r) name nothing))
          (closed_nothing ok name nothing)
    | inr (fd, arg) ↦
        subst Ends (sym (effect-close e r (returned p r) fd name arg)) (closed fd ok name arg)
  ]

  -- The outcome with a region of a length.
  abbrev Sized : ℤ → Type 0
  Sized n =
      Ends
        (record (returned p r) { regions = insert r (record { start = r; length = n }) p.regions })

  mmap-Outcome : e.name ≡ codes "mmap" → Ends (effect e r (returned p r))
  unfolding length_arg
  mmap-Outcome name = subst Ends (sym (effect-mmap e r (returned p r) name)) (region e.args refl)
    where
      region : (args : List ℤ) → e.args ≡ args → Sized (length_arg e.args)
      region [] given = subst Sized (sym (ap length_arg given)) (mapped_empty ok name (inl given))
      region (start ∷ []) given =
          subst Sized (sym (ap length_arg given)) (mapped_empty ok name (inr (start, given)))
      region (start ∷ length ∷ rest) given =
          subst Sized (sym (ap length_arg given)) (mapped start length rest ok name given)

  munmap-Outcome :
      (args : List ℤ) → e.args ≡ args → e.name ≡ codes "munmap" → Ends (effect e r (returned p r))
  munmap-Outcome [] given name =
      subst Ends (sym (effect-munmap_nothing e r (returned p r) name given))
        (unmapped_nothing ok name given)
  munmap-Outcome (start ∷ rest) given name =
      subst Ends (sym (effect-munmap e r (returned p r) start rest name given))
        (unmapped start rest ok name given)

  path-Outcome :
      (path : Str)
      → e.path ≡ some path
      → e.name ≡ codes "execve"
      → Ends (record (returned p r) { name = after_last b'/' path })
  path-Outcome path given name = elim (Bool-cases (contains_char b'/' path)) [
    | inl slash ↦
        let (dir, base, split, plain) = last_split b'/' path slash in
        subst (λ s. Ends (record (returned p r) { name = s }))
          (sym (ap (after_last b'/') split ∙ after_last-append b'/' dir base plain))
          (renamed dir base ok name (given ∙ ap some split) (contains_char-none b'/' base plain))
    | inr plain ↦
        subst (λ s. Ends (record (returned p r) { name = s }))
          (sym (after_last_whole b'/' path plain))
          (renamed_plain path ok name given (contains_char-none b'/' path plain))
  ]

  execve-Outcome : e.name ≡ codes "execve" → Ends (effect e r (returned p r))
  execve-Outcome name = elim (Option-cases e.path) [
    | inl nothing ↦
        subst Ends (sym (effect-execve_nothing e r (returned p r) name nothing))
          (kept_name ok name nothing)
    | inr (path, given) ↦
        subst Ends (sym (effect-execve e r (returned p r) path name given))
          (path-Outcome path given name)
  ]

  effect-Outcome : Ends (effect e r (returned p r))
  effect-Outcome = elim (Bool-cases (e.name == codes "openat")) [
    | inl is ↦
        let name = of_eq_true e.name (codes "openat") is in
        subst Ends (sym (effect-openat e r (returned p r) name)) (opened ok name)
    | inr h1 ↦ elim (Bool-cases (e.name == codes "close")) [
      | inl is ↦ close-Outcome (of_eq_true e.name (codes "close") is)
      | inr h2 ↦ elim (Bool-cases (e.name == codes "mmap")) [
        | inl is ↦ mmap-Outcome (of_eq_true e.name (codes "mmap") is)
        | inr h3 ↦ elim (Bool-cases (e.name == codes "munmap")) [
          | inl is ↦ munmap-Outcome e.args refl (of_eq_true e.name (codes "munmap") is)
          | inr h4 ↦ elim (Bool-cases (e.name == codes "execve")) [
            | inl is ↦ execve-Outcome (of_eq_true e.name (codes "execve") is)
            | inr h5 ↦
                subst Ends (sym (effect-other e r (returned p r) h1 h2 h3 h4 h5))
                  (other ok h1 h2 h3 h4 h5)
          ]
        ]
      ]
    ]
  ]

complete-Outcome :
    (e : SyscallEvent) (p : Process) (result : Option ℤ)
    → Outcome e p result (complete (some e) result (settle result p))
unfolding complete settle
complete-Outcome e p none = unfinished
complete-Outcome e p (some r) =
    if_cases (Outcome e p (some r)) (is_negative r) _ _ (λ bad. failed bad)
      (λ ok. effect-Outcome e p r ok)

-- In a valid world whose initial pid is known, an ENTER, then events that are not about its pid,
-- then an EXIT of the same pid and name: no ENTER is pending for the pid, and its process is what
-- it was before the ENTER, but in no syscall, with the result recorded if there is one (S2), and
-- with the following change, where the result is not negative. `openat` puts the path of the ENTER
-- under the returned descriptor (S3); `close` removes the descriptor of the ENTER, if it has one
-- (S5); `mmap` puts a region under the returned address, whose length is the second argument, or 0
-- if there are fewer than two (S7); `munmap` removes the region at the first argument, if there is
-- one (S8); `execve` renames the process to what follows the last slash of the path, to the whole
-- path if it has no slash, and not at all without a path (S10). In all other cases nothing else
-- changes (S4, S6).
pub syscall_completes :
    (e x : SyscallEvent) (others : List Event) (w : World)
    → IsValid w
    → IsKnown w
    → e.phase ≡ Phase.enter
    → x.phase ≡ Phase.exit
    → x.pid ≡ e.pid
    → x.name ≡ e.name
    → All (Avoids e.pid) others
    → let v = run ((syscall e ∷ others) ++ syscall x ∷ []) w in
      (q : Process) × (lookup e.pid v.processes ≡ some q)
      × Outcome e (seen e.pid w) x.result q
      × (lookup e.pid v.pending ≡ none)
syscall_completes e x others w hw known entering leaving same_pid same_name avoid =
    let (process, pending) =
      pair_completes e x others w hw known entering leaving same_pid same_name avoid in
    (_, process, complete-Outcome e (seen e.pid w) x.result, pending)
