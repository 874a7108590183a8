-- ===== src/Model/Effects.antt =====
-- What each completed syscall leaves in the tables of its process.
use fuddy_duddy.Prelude.{
  ◌≡◌, ◌∙◌, ap, true, false, Option, none, some, List, [], ◌∷◌, ◌==◌, nat_eq, list_eq, list_beq,
  if◌then◌else◌,
}
use fuddy_duddy.Int.{ℤ, int_eq}
use fuddy_duddy.Text.{Str, codes}
use fuddy_duddy.Dict.{insert, erase}
use fuddy_duddy.Event.{SyscallEvent}
use fuddy_duddy.Model.{Process, effect, length_arg}
use fuddy_duddy.Model.{branch}
use fuddy_duddy.Text.Split.{after_last}

module _ (e : SyscallEvent) (r : ℤ) (p : Process) where
  pub effect-openat :
      e.name ≡ codes "openat"
      → effect e r p ≡ record p { fds = insert r (record { number = r; target = e.path }) p.fds }
  unfolding effect list_beq
  effect-openat h = ap (λ s. branch s e r p) h

  pub effect-close :
      (fd : ℤ)
      → e.name ≡ codes "close"
      → e.fd ≡ some fd
      → effect e r p ≡ record p { fds = erase fd p.fds }
  unfolding effect list_beq
  effect-close fd h g =
      ap (λ s. branch s e r p) h
      ∙ ap
          (λ (o : Option ℤ).
            if elim o [ none ↦ false | some _ ↦ true ]
            then elim o [ none ↦ p | some n ↦ record p { fds = erase n p.fds } ]
            else p)
          g

  pub effect-mmap :
      e.name ≡ codes "mmap"
      → effect e r p ≡ record p {
        regions = insert r (record { start = r; length = length_arg e.args }) p.regions;
      }
  unfolding effect list_beq
  effect-mmap h = ap (λ s. branch s e r p) h

  pub effect-munmap :
      (start : ℤ) (rest : List ℤ)
      → e.name ≡ codes "munmap"
      → e.args ≡ start ∷ rest
      → effect e r p ≡ record p { regions = erase start p.regions }
  unfolding effect list_beq
  effect-munmap start rest h g =
      ap (λ s. branch s e r p) h
      ∙ ap
          (λ (args : List ℤ).
            let q : Process = elim args [
              | [] ↦ p
              | start ∷ _ ↦ record p { regions = erase start p.regions }
            ] in
            q)
          g

  pub effect-execve :
      (path : Str)
      → e.name ≡ codes "execve"
      → e.path ≡ some path
      → effect e r p ≡ record p { name = after_last b'/' path }
  unfolding effect list_beq
  effect-execve path h g =
      ap (λ s. branch s e r p) h
      ∙ ap
          (λ (o : Option Str).
            let q : Process = elim o [
              | none ↦ p
              | some s ↦ record p { name = after_last b'/' s }
            ] in
            q)
          g

  pub effect-close_nothing : e.name ≡ codes "close" → e.fd ≡ none → effect e r p ≡ p
  unfolding effect list_beq
  effect-close_nothing h g =
      ap (λ s. branch s e r p) h
      ∙ ap
          (λ (o : Option ℤ).
            if elim o [ none ↦ false | some _ ↦ true ]
            then elim o [ none ↦ p | some n ↦ record p { fds = erase n p.fds } ]
            else p)
          g

  pub effect-munmap_nothing : e.name ≡ codes "munmap" → e.args ≡ [] → effect e r p ≡ p
  unfolding effect list_beq
  effect-munmap_nothing h g =
      ap (λ s. branch s e r p) h
      ∙ ap
          (λ (args : List ℤ).
            let q : Process = elim args [
              | [] ↦ p
              | start ∷ _ ↦ record p { regions = erase start p.regions }
            ] in
            q)
          g

  pub effect-execve_nothing : e.name ≡ codes "execve" → e.path ≡ none → effect e r p ≡ p
  unfolding effect list_beq
  effect-execve_nothing h g =
      ap (λ s. branch s e r p) h
      ∙ ap
          (λ (o : Option Str).
            let q : Process = elim o [
              | none ↦ p
              | some s ↦ record p { name = after_last b'/' s }
            ] in
            q)
          g

  pub effect-other :
      (e.name == codes "openat") ≡ false
      → (e.name == codes "close") ≡ false
      → (e.name == codes "mmap") ≡ false
      → (e.name == codes "munmap") ≡ false
      → (e.name == codes "execve") ≡ false
      → effect e r p ≡ p
  unfolding effect
  effect-other h1 h2 h3 h4 h5 = rw (h1, h2, h3, h4, h5)
