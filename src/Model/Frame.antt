-- ===== src/Model/Frame.antt =====
-- Events that are not about one process, and that process.
use fuddy_duddy.Prelude.{
  ◌≡◌, refl, ◌∙◌, false, ◌||◌, not, List, [], ◌∷◌, ◌==◌, nat_eq, list_eq, Option-cases, inl, inr,
  All, if_intro, elim_intro,
}
use fuddy_duddy.Int.{ℤ, pos, int_eq}
use fuddy_duddy.Dict.{lookup, contains}
use fuddy_duddy.Dict.Laws.{lookup-insert_ne, lookup-erase_ne}
use fuddy_duddy.Event.{
  Phase-cases, Event, SyscallEvent, SpawnEvent, ExitEvent, syscall, spawn, exited,
}
use fuddy_duddy.Model.{
  Process, World, find_or_create, process_for, fresh_process, paired_with, shares_box, put_process,
  begin_syscall, end_syscall, apply_syscall, apply_exit, spawn_from, apply_spawn, apply, run,
}
use fuddy_duddy.Model.Invariant.{IsValid, process_for-Found}
use fuddy_duddy.Model.Preserve.{apply-IsValid}

-- The event is not about the process `k`.
abbrev pub Avoids : ℤ → Event → Type 0
Avoids k (syscall e) = (e.pid == k) ≡ false
Avoids k (spawn e) = ((e.parent == k) ≡ false) × ((e.child == k) ≡ false)
Avoids k (exited e) = (e.pid == k) ≡ false

-- The pid of the initial process has been adopted.
abbrev pub IsKnown : World → Type 0
IsKnown w = (w.initial_pid == pos 0) ≡ false

-- Two worlds agree on the process `k`, on its pending ENTER and on which process is the initial one.
pub record Agree (k : ℤ) (v w : World) : Type 0 where
  pub process : lookup k v.processes ≡ lookup k w.processes
  pub pending : lookup k v.pending ≡ lookup k w.pending
  pub initial : v.initial_pid ≡ w.initial_pid

Agree-refl : (k : ℤ) (w : World) → Agree k w w
Agree-refl k w = record { process = refl; pending = refl; initial = refl }

Agree-trans : {k : ℤ} {u v w : World} → Agree k u v → Agree k v w → Agree k u w
Agree-trans h g = record {
  process = h.process ∙ g.process;
  pending = h.pending ∙ g.pending;
  initial = h.initial ∙ g.initial;
}

pub process_for_known : (k : ℤ) (w : World) → IsKnown w → process_for k w ≡ find_or_create k w
unfolding process_for
process_for_known k w h = rw (h, process_for)

module _ (j k : ℤ) (other : (j == k) ≡ false) where
  put-Agree : (p : Process) (w : World) → Agree k (put_process j p w) w
  put-Agree p w = record {
    process = lookup-insert_ne j k p w.processes other;
    pending = refl;
    initial = refl;
  }

  find_or_create-Agree : (w : World) → Agree k (find_or_create j w).1 w
  unfolding find_or_create
  find_or_create-Agree w = elim (Option-cases (lookup j w.processes)) [
    | inl new ↦ rw (new, find_or_create) (put-Agree (fresh_process j []) w)
    | inr (p, old) ↦ rw (old, find_or_create) (Agree-refl k w)
  ]

  process_for-Agree : (w : World) → IsKnown w → Agree k (process_for j w).1 w
  process_for-Agree w h = rw (process_for_known j w h) (find_or_create-Agree w)

begin-Agree :
    (k : ℤ) (e : SyscallEvent) (r : Process × World)
    → (e.pid == k) ≡ false
    → r.0.pid ≡ e.pid
    → Agree k (begin_syscall e r) r.1
unfolding begin_syscall
begin-Agree k e (p, w) other own = record {
  process = lookup-insert_ne e.pid k _ w.processes other;
  pending = rw own (lookup-insert_ne e.pid k e w.pending other);
  initial = refl;
}

end-Agree :
    (k : ℤ) (e : SyscallEvent) (r : Process × World)
    → (e.pid == k) ≡ false
    → r.0.pid ≡ e.pid
    → Agree k (end_syscall e r) r.1
unfolding end_syscall
end-Agree k e (p, w) other own = record {
  process = lookup-insert_ne e.pid k _ w.processes other;
  pending =
      elim_intro (λ d. lookup k d ≡ lookup k w.pending)
        (paired_with e.name (lookup p.pid w.pending)) _ _ refl
        (λ _. rw own (lookup-erase_ne e.pid k w.pending other));
  initial = refl;
}

exit-Agree : (k : ℤ) (e : ExitEvent) (w : World) → (e.pid == k) ≡ false → Agree k (apply_exit e w) w
unfolding apply_exit
exit-Agree k e w other =
    if_intro (λ v. Agree k v w) (e.pid == w.initial_pid || not (contains e.pid w.processes)) _ _
      (record { process = refl; pending = lookup-erase_ne e.pid k w.pending other; initial = refl })
      (record {
        process = lookup-erase_ne e.pid k w.processes other;
        pending = lookup-erase_ne e.pid k w.pending other;
        initial = refl;
      })

spawn-Agree :
    (k : ℤ) (e : SpawnEvent) (r : Process × World)
    → Avoids k (spawn e)
    → Agree k (spawn_from e r) r.1
unfolding spawn_from
spawn-Agree k e (p, w) (parent_other, child_other) =
    if_intro (λ v. Agree k v w) (shares_box (lookup p.pid w.pending)) _ _
      (put-Agree e.parent k parent_other _ w) (put-Agree e.child k child_other _ w)

syscall-Agree :
    (k : ℤ) (e : SyscallEvent) (w : World)
    → IsValid w
    → IsKnown w
    → (e.pid == k) ≡ false
    → Agree k (apply_syscall e w) w
unfolding apply_syscall
syscall-Agree k e w hw known other =
    let own = (process_for-Found e.pid w hw).0.pid in
    let found = process_for-Agree e.pid k other w known in
    elim (Phase-cases e.phase) [
      | inl entering ↦
          rw (entering, apply_syscall)
            (Agree-trans (begin-Agree k e (process_for e.pid w) other own) found)
      | inr leaving ↦
          rw (leaving, apply_syscall)
            (Agree-trans (end-Agree k e (process_for e.pid w) other own) found)
    ]

-- An event of other processes leaves the process `k`, its pending ENTER and the choice of the initial
-- process alone, in a valid world whose initial pid is known.
pub apply-Agree :
    (k : ℤ) (e : Event) (w : World) → IsValid w → IsKnown w → Avoids k e → Agree k (apply e w).1 w
unfolding apply
apply-Agree k (syscall e) w hw known other = syscall-Agree k e w hw known other
apply-Agree k (spawn e) w hw known other =
    unfold apply_spawn in
    Agree-trans (spawn-Agree k e (process_for e.parent w) other)
      (process_for-Agree e.parent k other.0 w known)
apply-Agree k (exited e) w hw known other = exit-Agree k e w other

-- In a valid world whose initial pid is known, any list of events that are not about the pid `k`
-- leaves the process `k`, its pending ENTER and the initial pid as they are.
pub run-Agree :
    (k : ℤ) (es : List Event) (w : World)
    → IsValid w
    → IsKnown w
    → All (Avoids k) es
    → Agree k (run es w) w
unfolding run
run-Agree k [] w hw known _ = Agree-refl k w
run-Agree k (e ∷ es) w hw known (other, others) =
    let step = apply-Agree k e w hw known other in
    Agree-trans (run-Agree k es (apply e w).1 (apply-IsValid e w hw) (rw step.initial known) others)
      step
