-- ===== src/Model/Lifecycle.antt =====
-- Processes come and go: spawns, exits, and the adoption of the initial pid.
use fuddy_duddy.Prelude.{
  ◌≡◌, refl, sym, ◌∙◌, ap, Bool, true, false, ◌&&◌, not, none, some, List, [], ◌∷◌, ◌==◌, nat_eq,
  list_eq, arith, Bool-cases, inl, inr, eq_self, if◌then◌else◌,
}
use fuddy_duddy.Int.{ℤ, pos, int_eq, int_beq, int_beq_iff}
use fuddy_duddy.Dict.{Dict, lookup, contains, insert, erase}
use fuddy_duddy.Dict.Laws.{lookup-insert, lookup-erase}
use fuddy_duddy.Event.{Phase, Event, SyscallEvent, SpawnEvent, ExitEvent, syscall, spawn, exited}
use fuddy_duddy.Model.{
  Process, World, init, find_or_create, process_for, fresh_process, shares_box, begin_syscall,
  end_syscall, apply_syscall, apply_exit, rekey, adopt, forked, add, spawn_from, apply_spawn, apply,
  run,
}
use fuddy_duddy.Model.Invariant.{IsValid, process_for-Found}
use fuddy_duddy.Model.Frame.{IsKnown, process_for_known}
use mathlib.Core.Path.{subst, ap₂}
use fuddy_duddy.Model.Phases.{seen, process_for-seen, process_for_pending}

-- An exit event takes its process away, unless that is the initial process, and takes the pending
-- ENTER of its pid away (S11); every other process, every other pending ENTER and the initial pid
-- stay.
pub exit_removes :
    (e : ExitEvent) (w : World) (k : ℤ)
    → let v = (apply (exited e) w).1 in
      (lookup k v.processes
        ≡ (if e.pid == k && not (e.pid == w.initial_pid) then none else lookup k w.processes))
      × (lookup k v.pending ≡ (if e.pid == k then none else lookup k w.pending))
      × (v.initial_pid ≡ w.initial_pid)
unfolding apply apply_exit contains
exit_removes e w k =
    ground
      (arith, lookup-erase e.pid k w.processes, lookup-erase e.pid k w.pending, int_beq_iff e.pid k)

-- Processes as a spawn finds them: the parent may be made on demand.
process_for_processes :
    (j k : ℤ) (w : World)
    → IsKnown w
    → lookup k (process_for j w).1.processes
      ≡ (if j == k then some (seen j w) else lookup k w.processes)
unfolding find_or_create seen
process_for_processes j k w known =
    rw (process_for_known j w known)
      (ground (arith, int_beq_iff j k, lookup-insert j k (fresh_process j []) w.processes))

module _ (e : SpawnEvent) (w : World) (hw : IsValid w) (known : IsKnown w) where
  shares_box_found :
      (b : Bool)
      → shares_box (lookup e.parent w.pending) ≡ b
      → shares_box (lookup (process_for e.parent w).0.pid (process_for e.parent w).1.pending) ≡ b
  shares_box_found b h =
      ap₂ (λ k (d : Dict ℤ SyscallEvent). shares_box (lookup k d))
        (process_for-Found e.parent w hw).0.pid (process_for_pending e.parent w known)
      ∙ h

  pub spawn_processes :
      (k : ℤ)
      → lookup k (apply (spawn e) w).1.processes ≡ (
          if shares_box (lookup e.parent w.pending)
          then (if e.parent == k
              then some
                  (record (seen e.parent w) { threads = add e.child (seen e.parent w).threads })
              else lookup k w.processes)
          else if e.child == k
          then some (forked e.child (seen e.parent w))
          else if e.parent == k
          then some (seen e.parent w)
          else lookup k w.processes)
  unfolding apply apply_spawn spawn_from
  spawn_processes k = elim (Bool-cases (shares_box (lookup e.parent w.pending))) [
    | inl thread ↦
        rw
          (
            thread,
            shares_box_found true thread,
            process_for-seen e.parent w known,
            lookup-insert,
            process_for_processes e.parent k w known,
          )
          (ground arith)
    | inr fork ↦ rw (
      fork,
      shares_box_found false fork,
      process_for-seen e.parent w known,
      lookup-insert,
      process_for_processes e.parent k w known,
    )
  ]

-- The event is about the process `k`, and is no exit.
abbrev pub IsAbout : ℤ → Event → Type 0
IsAbout k (syscall e) = e.pid ≡ k
IsAbout k (spawn e) = e.parent ≡ k
IsAbout k (exited e) = ⊥

module _ (k : ℤ) (p : Process) (nonzero : (k == pos 0) ≡ false) where
  process_for_adopts :
      process_for k (init (record p { pid = pos 0 })) ≡ process_for k (init (record p { pid = k }))
  unfolding process_for init adopt find_or_create lookup insert erase rekey int_beq
  process_for_adopts = rw (nonzero, eq_self k, find_or_create, lookup) refl

  acting :
      (j : ℤ)
      → j ≡ k
      → process_for j (init (record p { pid = pos 0 }))
        ≡ process_for j (init (record p { pid = k }))
  acting j h =
      subst
        (λ i.
          process_for i (init (record p { pid = pos 0 }))
          ≡ process_for i (init (record p { pid = k })))
        (sym h) process_for_adopts

  -- A world that starts with a process of the unknown pid 0 is, from its first event on, the world
  -- that would have started with the pid of that event, if this is not 0 and the event is a
  -- syscall or a spawn (S0).
  pub adoption :
      (e : Event) (es : List Event)
      → IsAbout k e
      → run (e ∷ es) (init (record p { pid = pos 0 })) ≡ run (e ∷ es) (init (record p { pid = k }))
  unfolding run apply apply_syscall apply_spawn
  adoption (syscall e) es h =
      ap
        (λ (r : Process × World).
          let v : World = elim e.phase [
            | Phase.enter ↦ begin_syscall e r
            | Phase.exit ↦ end_syscall e r
          ] in
          run es v)
        (acting e.pid h)
  adoption (spawn e) es h =
      ap (λ (r : Process × World). run es (spawn_from e r)) (acting e.parent h)
  adoption (exited e) es h = absurd h
