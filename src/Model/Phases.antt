-- ===== src/Model/Phases.antt =====
-- What one ENTER and what one EXIT does to its process and to the pending ENTER of its pid.
use mathlib.Core.Path.{subst, ap₂}
use fuddy_duddy.Prelude.{
  ◌≡◌, refl, sym, ◌∙◌, ap, Option, none, some, List, [], ◌∷◌, ◌++◌, nat_eq, list_eq, arith,
}
use fuddy_duddy.Int.{ℤ, int_eq}
use fuddy_duddy.Dict.{Dict, lookup, insert, erase}
use fuddy_duddy.Dict.Laws.{lookup-insert_self, lookup-erase_self}
use fuddy_duddy.Event.{Phase, Event, SyscallEvent, syscall}
use fuddy_duddy.Model.{
  Process, World, find_or_create, process_for, fresh_process, paired_with, settle, complete,
  begin_syscall, end_syscall, apply_syscall, apply, run,
}
use fuddy_duddy.Model.Invariant.{IsValid, process_for-Found}
use fuddy_duddy.Model.Frame.{IsKnown, process_for_known}

-- The process `k`, made on demand.
unfoldable pub seen : ℤ → World → Process
seen k w = elim (lookup k w.processes) [ some p ↦ p | none ↦ fresh_process k [] ]

pub process_for-seen : (k : ℤ) (w : World) → IsKnown w → (process_for k w).0 ≡ seen k w
unfolding find_or_create seen
process_for-seen k w known = rw (process_for_known k w known) (ground arith)

pub process_for_pending : (k : ℤ) (w : World) → IsKnown w → (process_for k w).1.pending ≡ w.pending
unfolding find_or_create
process_for_pending k w known = rw (process_for_known k w known) (ground arith)

process_for_initial :
    (k : ℤ) (w : World) → IsKnown w → (process_for k w).1.initial_pid ≡ w.initial_pid
unfolding find_or_create
process_for_initial k w known = rw (process_for_known k w known) (ground arith)

pub run-append : (es fs : List Event) (w : World) → run (es ++ fs) w ≡ run fs (run es w)
unfolding run
run-append [] fs w = refl
run-append (e ∷ es) fs w = run-append es fs (apply e w).1

-- What a syscall's event leaves of its own process, of the pending ENTER, and of the initial pid.
pub record After (k : ℤ) (p : Process) (o : Option SyscallEvent) (root : ℤ) (w : World)
    : Type 0 where
  pub process : lookup k w.processes ≡ some p
  pub pending : lookup k w.pending ≡ o
  pub initial : w.initial_pid ≡ root

begin-After :
    (e : SyscallEvent) (p : Process) (w : World)
    → p.pid ≡ e.pid
    → After e.pid
        (record p { in_syscall = some e.name })
        (some e)
        w.initial_pid
        (begin_syscall e (p, w))
unfolding begin_syscall
begin-After e p w own = record {
  process = lookup-insert_self e.pid _ w.processes;
  pending =
      subst (λ k. lookup e.pid (insert k e w.pending) ≡ some e) (sym own)
        (lookup-insert_self e.pid e w.pending);
  initial = refl;
}

-- What is left of the pending ENTER by an EXIT.
abbrev pub left : Option SyscallEvent → Option SyscallEvent → Option SyscallEvent
left none pending = pending
left (some _) pending = none

erase-left :
    (k : ℤ) (paired : Option SyscallEvent) (d : Dict ℤ SyscallEvent)
    → lookup k (elim paired [ none ↦ d | some _ ↦ erase k d ]) ≡ left paired (lookup k d)
erase-left k none d = refl
erase-left k (some _) d = lookup-erase_self k d

abbrev pub partner : SyscallEvent → World → Option SyscallEvent
partner e w = paired_with e.name (lookup e.pid w.pending)

end-After :
    (e : SyscallEvent) (p : Process) (w : World)
    → p.pid ≡ e.pid
    → After e.pid
        (complete (partner e w) e.result (settle e.result p))
        (left (partner e w) (lookup e.pid w.pending))
        w.initial_pid
        (end_syscall e (p, w))
unfolding end_syscall
end-After e p w own = record {
  process =
      subst
        (λ k.
          lookup e.pid (
            insert e.pid
              (complete (paired_with e.name (lookup k w.pending)) e.result (settle e.result p))
              w.processes)
          ≡ some (complete (partner e w) e.result (settle e.result p)))
        (sym own) (lookup-insert_self e.pid _ w.processes);
  pending =
      subst
        (λ k.
          lookup e.pid (elim (paired_with e.name (lookup k w.pending)) [
            | none ↦ w.pending
            | some _ ↦ erase k w.pending
          ])
          ≡ left (partner e w) (lookup e.pid w.pending))
        (sym own) (erase-left e.pid (partner e w) w.pending);
  initial = refl;
}

apply_enter :
    (e : SyscallEvent) (w : World)
    → e.phase ≡ Phase.enter
    → apply_syscall e w ≡ begin_syscall e (process_for e.pid w)
unfolding apply_syscall
apply_enter e w h =
    ap
      (λ (p : Phase).
        let v : World = elim p [
          | Phase.enter ↦ begin_syscall e (process_for e.pid w)
          | Phase.exit ↦ end_syscall e (process_for e.pid w)
        ] in
        v)
      h

apply_leave :
    (e : SyscallEvent) (w : World)
    → e.phase ≡ Phase.exit
    → apply_syscall e w ≡ end_syscall e (process_for e.pid w)
unfolding apply_syscall
apply_leave e w h =
    ap
      (λ (p : Phase).
        let v : World = elim p [
          | Phase.enter ↦ begin_syscall e (process_for e.pid w)
          | Phase.exit ↦ end_syscall e (process_for e.pid w)
        ] in
        v)
      h

module _ (e : SyscallEvent) (w : World) (hw : IsValid w) (known : IsKnown w) where
  own_pid : (process_for e.pid w).0.pid ≡ e.pid
  own_pid = (process_for-Found e.pid w hw).0.pid

  pub enter-After :
      e.phase ≡ Phase.enter
      → After e.pid
          (record (seen e.pid w) { in_syscall = some e.name })
          (some e)
          w.initial_pid
          (apply (syscall e) w).1
  unfolding apply
  enter-After entering =
      let got = begin-After e (process_for e.pid w).0 (process_for e.pid w).1 own_pid in
      subst (After e.pid _ _ _) (sym (apply_enter e w entering)) (record {
        process =
            got.process
            ∙ ap (λ (p : Process). some (record p { in_syscall = some e.name }))
                (process_for-seen e.pid w known);
        pending = got.pending;
        initial = got.initial ∙ process_for_initial e.pid w known;
      })

  pub exit-After :
      e.phase ≡ Phase.exit
      → After e.pid
          (complete (partner e w) e.result (settle e.result (seen e.pid w)))
          (left (partner e w) (lookup e.pid w.pending))
          w.initial_pid
          (apply (syscall e) w).1
  unfolding apply
  exit-After leaving =
      let got = end-After e (process_for e.pid w).0 (process_for e.pid w).1 own_pid in
      let same = process_for_pending e.pid w known in
      subst (After e.pid _ _ _) (sym (apply_leave e w leaving)) (record {
        process =
            got.process
            ∙ ap₂
                (λ (d : Dict ℤ SyscallEvent) (p : Process).
                  some
                    (complete (paired_with e.name (lookup e.pid d)) e.result (settle e.result p)))
                same (process_for-seen e.pid w known);
        pending =
            got.pending
            ∙ ap
                (λ (d : Dict ℤ SyscallEvent).
                  left (paired_with e.name (lookup e.pid d)) (lookup e.pid d))
                same;
        initial = got.initial ∙ process_for_initial e.pid w known;
      })

pub seen_of : (k : ℤ) (p : Process) (w : World) → lookup k w.processes ≡ some p → seen k w ≡ p
unfolding seen
seen_of k p w h = ground arith
