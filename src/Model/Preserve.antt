-- ===== src/Model/Preserve.antt =====
-- Valid worlds under each operation of the model.
use fuddy_duddy.Prelude.{
  ◌≡◌, refl, if_intro, elim_intro, not, true, false, ◌&&◌, ◌||◌, Option, none, some, List, [], ◌∷◌,
  ◌==◌, nat_eq, list_eq, arith, Bool-cases, inl, inr, eq_self,
}
use fuddy_duddy.Int.{ℤ, int_eq, int_beq_iff, is_negative}
use fuddy_duddy.Text.{codes}
use fuddy_duddy.Dict.{lookup, contains, insert, erase}
use fuddy_duddy.Dict.Laws.{lookup-erase, contains-insert, contains-erase}
use fuddy_duddy.Dict.Entries.{Entries, Entries-nil, Entries-insert, Entries-erase}
use fuddy_duddy.Event.{
  Phase, Phase-cases, Event, SyscallEvent, SpawnEvent, ExitEvent, syscall, spawn, exited,
}
use fuddy_duddy.Model.{
  Process, World, init, process_for, begin_syscall, settle, effect, complete, end_syscall,
  apply_syscall, apply_exit, forked, spawn_from, apply_spawn, apply, run, paired_with, shares_box,
}
use fuddy_duddy.Model.Invariant.{IsKeyed, IsTracked, IsValid, Found, put-IsValid, process_for-Found}

effect-IsKeyed :
    (k : ℤ) (e : SyscallEvent) (r : ℤ) (p : Process) → IsKeyed k p → IsKeyed k (effect e r p)
unfolding effect
effect-IsKeyed k e r p h =
    if_intro (IsKeyed k) (e.name == codes "openat") _ _
      (record { pid = h.pid; fds = Entries-insert _ r _ p.fds refl h.fds; regions = h.regions })
      (if_intro (IsKeyed k) (e.name == codes "close" && elim e.fd [ none ↦ false | some _ ↦ true ])
        _ _
        (elim_intro (IsKeyed k) e.fd _ _ h
          (λ fd. record { pid = h.pid; fds = Entries-erase _ fd p.fds h.fds; regions = h.regions }))
        (if_intro (IsKeyed k) (e.name == codes "mmap") _ _
          (record {
            pid = h.pid;
            fds = h.fds;
            regions = Entries-insert _ r _ p.regions refl h.regions;
          })
          (if_intro (IsKeyed k) (e.name == codes "munmap") _ _ (unmapped e.args) (
            if_intro (IsKeyed k) (e.name == codes "execve") _ _
              (elim_intro (IsKeyed k) e.path _ _ h
                (λ path. record { pid = h.pid; fds = h.fds; regions = h.regions }))
              h))))
  where
    unmapped :
        (args : List ℤ)
        → IsKeyed k
            (elim args [ [] ↦ p | start ∷ _ ↦ record p { regions = erase start p.regions } ])
    unmapped [] = h
    unmapped (start ∷ _) = record {
      pid = h.pid;
      fds = h.fds;
      regions = Entries-erase _ start p.regions h.regions;
    }

complete-IsKeyed :
    (k : ℤ) (paired : Option SyscallEvent) (result : Option ℤ) (p : Process)
    → IsKeyed k p
    → IsKeyed k (complete paired result p)
unfolding complete
complete-IsKeyed k none result p h = h
complete-IsKeyed k (some e) none p h = h
complete-IsKeyed k (some e) (some r) p h =
    if_intro (IsKeyed k) (is_negative r) _ _ h (effect-IsKeyed k e r p h)

settle-IsKeyed :
    (k : ℤ) (result : Option ℤ) (p : Process) → IsKeyed k p → IsKeyed k (settle result p)
unfolding settle
settle-IsKeyed k result p h = record { pid = h.pid; fds = h.fds; regions = h.regions }

begin-IsValid :
    (e : SyscallEvent) (r : Process × World)
    → e.phase ≡ Phase.enter
    → Found e.pid r
    → IsValid (begin_syscall e r)
unfolding begin_syscall
begin-IsValid e (p, w) entering (hp, here, hw) =
    let marked : IsKeyed e.pid (record p { in_syscall = some e.name }) = record {
      pid = hp.pid;
      fds = hp.fds;
      regions = hp.regions;
    } in
    let hw' = put-IsValid e.pid (record p { in_syscall = some e.name }) w marked hw in
    record {
      keyed = hw'.keyed;
      rooted = hw'.rooted;
      tracked =
          Entries-insert
            (IsTracked (insert e.pid (record p { in_syscall = some e.name }) w.processes)) p.pid e
            w.pending (rw (hp.pid, contains-insert, eq_self e.pid) refl, entering) hw'.tracked;
    }

end-IsValid : (e : SyscallEvent) (r : Process × World) → Found e.pid r → IsValid (end_syscall e r)
unfolding end_syscall
end-IsValid e (p, w) (hp, here, hw) =
    let paired = paired_with e.name (lookup p.pid w.pending) in
    let done = complete paired e.result (settle e.result p) in
    let hw' =
      put-IsValid e.pid done w
        (complete-IsKeyed e.pid paired e.result _ (settle-IsKeyed e.pid e.result p hp)) hw in
    record {
      keyed = hw'.keyed;
      rooted = hw'.rooted;
      tracked =
          elim_intro (Entries (IsTracked (insert e.pid done w.processes))) paired _ _ hw'.tracked
            (λ _. Entries-erase _ p.pid w.pending hw'.tracked);
    }

-- A process other than the initial one leaves; its pending ENTER leaves with it.
apply_exit-IsValid : (e : ExitEvent) (w : World) → IsValid w → IsValid (apply_exit e w)
unfolding apply_exit
apply_exit-IsValid e w hw =
    elim (Bool-cases (e.pid == w.initial_pid || not (contains e.pid w.processes))) [
      | inl stays ↦
          rw (stays, apply_exit)
            (record {
              keyed = hw.keyed;
              rooted = hw.rooted;
              tracked = Entries-erase _ e.pid w.pending hw.tracked;
            })
      | inr leaves ↦
          rw (leaves, apply_exit)
            (record {
              keyed = Entries-erase _ e.pid w.processes hw.keyed;
              rooted = ground (arith, hw.rooted, contains-erase e.pid w.initial_pid w.processes);
              tracked = λ j q h. ground (
                arith,
                lookup-erase e.pid j w.pending,
                hw.tracked j q,
                contains-erase e.pid j w.processes,
              );
            })
    ]

forked-IsKeyed : (k child : ℤ) (p : Process) → IsKeyed k p → IsKeyed child (forked child p)
forked-IsKeyed k child p h = record { pid = refl; fds = h.fds; regions = Entries-nil _ }

spawn_from-IsValid :
    (e : SpawnEvent) (r : Process × World) → Found e.parent r → IsValid (spawn_from e r)
unfolding spawn_from
spawn_from-IsValid e (p, w) (hp, here, hw) =
    if_intro IsValid (shares_box (lookup p.pid w.pending)) _ _
      (put-IsValid e.parent _ w (record { pid = hp.pid; fds = hp.fds; regions = hp.regions }) hw)
      (put-IsValid e.child _ w (forked-IsKeyed e.parent e.child p hp) hw)

syscall-IsValid : (e : SyscallEvent) (w : World) → IsValid w → IsValid (apply_syscall e w)
unfolding apply_syscall
syscall-IsValid e w hw =
    let found = process_for-Found e.pid w hw in
    elim (Phase-cases e.phase) [
      | inl entering ↦ rw (entering, apply_syscall) (begin-IsValid e _ entering found)
      | inr leaving ↦ rw (leaving, apply_syscall) (end-IsValid e _ found)
    ]

-- Every event keeps a world valid.
pub apply-IsValid : (e : Event) (w : World) → IsValid w → IsValid (apply e w).1
unfolding apply
apply-IsValid (syscall e) w hw = syscall-IsValid e w hw
apply-IsValid (spawn e) w hw =
    unfold apply_spawn in
    spawn_from-IsValid e (process_for e.parent w) (process_for-Found e.parent w hw)
apply-IsValid (exited e) w hw = apply_exit-IsValid e w hw

-- Any list of events takes a valid world to a valid world: each process, descriptor and region
-- stands under its own key, the initial process is present, and each pending event is an ENTER of
-- a present process.
pub run-IsValid : (es : List Event) (w : World) → IsValid w → IsValid (run es w)
unfolding run
run-IsValid [] w hw = hw
run-IsValid (e ∷ es) w hw = run-IsValid es (apply e w).1 (apply-IsValid e w hw)

pub init-IsValid : (p : Process) → IsKeyed p.pid p → IsValid (init p)
unfolding init contains lookup insert
init-IsValid p h = record {
  keyed = Entries-insert IsKeyed p.pid p [] h (Entries-nil _);
  rooted = ground (arith, int_beq_iff p.pid p.pid);
  tracked = Entries-nil _;
}
