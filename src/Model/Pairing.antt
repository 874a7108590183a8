-- ===== src/Model/Pairing.antt =====
-- An ENTER and the EXIT that answers it, with events of other processes in between.
use mathlib.Core.Path.{subst, ap₂}
use fuddy_duddy.Prelude.{
  ◌≡◌, sym, ◌∙◌, ap, Option, none, some, List, [], ◌∷◌, ◌++◌, ◌==◌, nat_eq, list_eq, eq_true_of,
  All,
}
use fuddy_duddy.Int.{ℤ, pos, int_eq}
use fuddy_duddy.Text.{Str}
use fuddy_duddy.Dict.{lookup}
use fuddy_duddy.Event.{Phase, Event, SyscallEvent, syscall}
use fuddy_duddy.Model.{Process, World, paired_with, settle, complete, apply, run}
use fuddy_duddy.Model.Invariant.{IsValid}
use fuddy_duddy.Model.Preserve.{apply-IsValid, run-IsValid}
use fuddy_duddy.Model.Frame.{Avoids, IsKnown, run-Agree}
use fuddy_duddy.Model.Phases.{seen, seen_of, run-append, left, partner, enter-After, exit-After}

paired_self : (e : SyscallEvent) (name : Str) → name ≡ e.name → paired_with name (some e) ≡ some e
unfolding paired_with
paired_self e name h = rw (eq_true_of e.name name (sym h))

-- What the EXIT finds when the pending ENTER and the process are known.
module _ (e x : SyscallEvent) (p : Process) (w : World) (same_pid : x.pid ≡ e.pid)
    (same_name : x.name ≡ e.name) where
  partner_found : lookup e.pid w.pending ≡ some e → partner x w ≡ some e
  partner_found h =
      ap (λ k. paired_with x.name (lookup k w.pending)) same_pid
      ∙ ap (paired_with x.name) h
      ∙ paired_self e x.name same_name

  settle_found :
      lookup e.pid w.processes ≡ some (record p { in_syscall = some e.name })
      → settle x.result (seen x.pid w) ≡ settle x.result p
  unfolding settle
  settle_found h =
      ap (λ k. settle x.result (seen k w)) same_pid
      ∙ ap (settle x.result) (seen_of e.pid (record p { in_syscall = some e.name }) w h)

-- In a valid world whose initial pid is known, an ENTER, then events that are not about its pid,
-- then an EXIT of the same pid and name: the process is what it was before the ENTER, with the
-- result recorded (S2) and the effect of that ENTER completed (S3 to S10), and no ENTER is pending
-- for the pid.
pub pair_completes :
    (e x : SyscallEvent) (others : List Event) (w : World)
    → IsValid w
    → IsKnown w
    → e.phase ≡ Phase.enter
    → x.phase ≡ Phase.exit
    → x.pid ≡ e.pid
    → x.name ≡ e.name
    → All (Avoids e.pid) others
    → let v = run ((syscall e ∷ others) ++ syscall x ∷ []) w in
      (lookup e.pid v.processes
        ≡ some (complete (some e) x.result (settle x.result (seen e.pid w))))
      × (lookup e.pid v.pending ≡ none)
unfolding run
pair_completes e x others w hw known entering leaving same_pid same_name avoid =
    let w1 = (apply (syscall e) w).1 in
    let w2 = run others w1 in
    let hw1 = apply-IsValid (syscall e) w hw in
    let entered = enter-After e w hw known entering in
    let known1 : IsKnown w1 = ap (λ (k : ℤ). k == pos 0) entered.initial ∙ known in
    let kept = run-Agree e.pid others w1 hw1 known1 avoid in
    let known2 : IsKnown w2 = ap (λ (k : ℤ). k == pos 0) kept.initial ∙ known1 in
    let done = exit-After x w2 (run-IsValid others w1 hw1) known2 leaving in
    let found =
      partner_found e x (seen e.pid w) w2 same_pid same_name (kept.pending ∙ entered.pending) in
    let settled =
      settle_found e x (seen e.pid w) w2 same_pid same_name (kept.process ∙ entered.process) in
    subst
      (λ v.
        (lookup e.pid v.processes
          ≡ some (complete (some e) x.result (settle x.result (seen e.pid w))))
        × (lookup e.pid v.pending ≡ none))
      (sym (run-append (syscall e ∷ others) (syscall x ∷ []) w))
      (
        ap (λ k. lookup k (apply (syscall x) w2).1.processes) (sym same_pid)
            ∙ done.process
            ∙ ap₂ (λ (o : Option SyscallEvent) (p : Process). some (complete o x.result p)) found
                settled,
        ap (λ k. lookup k (apply (syscall x) w2).1.pending) (sym same_pid)
            ∙ done.pending
            ∙ ap (λ o. left o (lookup x.pid w2.pending)) found,
      )
