-- ===== src/Model/Clone.antt =====
-- Spawns while a syscall of the parent is pending.
use fuddy_duddy.Prelude.{
  refl, ◌≡◌, ◌∙◌, ap, Bool, true, false, ◌&&◌, Option, none, some, sym, List, [], ◌∷◌, ◌++◌, ◌==◌,
  nat_eq, list_eq, list_beq, eq_self, All, if◌then◌else◌,
}
use fuddy_duddy.Int.{ℤ, pos, int_eq}
use fuddy_duddy.Text.{Str, codes}
use fuddy_duddy.Dict.{lookup}
use fuddy_duddy.Event.{Phase, Event, SyscallEvent, syscall, spawn}
use fuddy_duddy.Model.{Process, World, shares_box, forked, add, has_clone_thread, apply, run}
use fuddy_duddy.Model.Invariant.{IsValid, process_for-Found}
use fuddy_duddy.Model.Preserve.{apply-IsValid, run-IsValid}
use fuddy_duddy.Model.Frame.{Avoids, IsKnown, run-Agree}
use mathlib.Core.Path.{ap₂}
use fuddy_duddy.Model.Phases.{process_for-seen, seen, seen_of, enter-After, run-append}
use fuddy_duddy.Model.Lifecycle.{spawn_processes}

abbrev pub spawned : ℤ → ℤ → Event
spawned parent child = spawn (record { parent = parent; child = child })

-- The process while its syscall is pending.
abbrev pub blocked : SyscallEvent → World → Process
blocked e w = record (seen e.pid w) { in_syscall = some e.name }

-- The process `k` behind a spawn by the parent `p`, which shares its box or forks.
abbrev spawn_view : Bool → ℤ → ℤ → Process → ℤ → Option Process → Option Process
spawn_view shares parent child p k old =
    if shares
    then (if parent == k then some (record p { threads = add child p.threads }) else old)
    else if child == k
    then some (forked child p)
    else if parent == k
    then some p
    else old

clone_flag :
    (e : SyscallEvent) (flags : ℤ) (rest : List ℤ)
    → e.name ≡ codes "clone"
    → e.args ≡ flags ∷ rest
    → has_clone_thread flags ≡ true
    → shares_box (some e) ≡ true
unfolding shares_box list_beq
clone_flag e flags rest name args thread =
    ap₂
      (λ (s : Str) (l : List ℤ).
        s == codes "clone" && elim l [ [] ↦ false | f ∷ _ ↦ has_clone_thread f ])
      name args
    ∙ thread

-- An ENTER that does not ask for a thread.
pub data IsFork (e : SyscallEvent) : Type 0 where
  no_clone : (e.name == codes "clone") ≡ false → IsFork e
  no_flags : e.args ≡ [] → IsFork e
  no_thread :
      (flags : ℤ) (rest : List ℤ)
      → e.args ≡ flags ∷ rest
      → has_clone_thread flags ≡ false
      → IsFork e

and_false : (b : Bool) → (b && false) ≡ false
and_false true = refl
and_false false = refl

fork_flag : (e : SyscallEvent) → IsFork e → shares_box (some e) ≡ false
unfolding shares_box
fork_flag e (no_clone other) = rw other refl
fork_flag e (no_flags args) =
    ap
      (λ (l : List ℤ).
        e.name == codes "clone" && elim l [ [] ↦ false | f ∷ _ ↦ has_clone_thread f ])
      args
    ∙ and_false (e.name == codes "clone")
fork_flag e (no_thread flags rest args plain) =
    ap
      (λ (l : List ℤ).
        e.name == codes "clone" && elim l [ [] ↦ false | f ∷ _ ↦ has_clone_thread f ])
      args
    ∙ ap (λ b. e.name == codes "clone" && b) plain
    ∙ and_false (e.name == codes "clone")

-- The worlds before and behind the spawn.
abbrev pub before : SyscallEvent → List Event → World → World
before e others w = run (syscall e ∷ others) w

abbrev pub after : SyscallEvent → List Event → ℤ → World → World
after e others child w = run ((syscall e ∷ others) ++ spawned e.pid child ∷ []) w

module _ (e : SyscallEvent) (others : List Event) (child : ℤ) (w : World) (hw : IsValid w)
    (known : IsKnown w) (entering : e.phase ≡ Phase.enter) (avoid : All (Avoids e.pid) others) where
  record Blocked : Type 0 where
    valid : IsValid (before e others w)
    adopted : IsKnown (before e others w)
    pending : lookup e.pid (before e others w).pending ≡ some e
    process : seen e.pid (before e others w) ≡ blocked e w

  is_blocked : Blocked
  unfolding run
  is_blocked =
      let entered = enter-After e w hw known entering in
      let hw1 = apply-IsValid (syscall e) w hw in
      let known1 : IsKnown (apply (syscall e) w).1 =
        ap (λ (k : ℤ). k == pos 0) entered.initial ∙ known in
      let kept = run-Agree e.pid others _ hw1 known1 avoid in
      record {
        valid = run-IsValid others _ hw1;
        adopted = ap (λ (k : ℤ). k == pos 0) kept.initial ∙ known1;
        pending = kept.pending ∙ entered.pending;
        process = seen_of e.pid _ (before e others w) (kept.process ∙ entered.process);
      }

  own_pid : (seen e.pid w).pid ≡ e.pid
  own_pid =
      ap (λ (p : Process). p.pid) (sym (process_for-seen e.pid w known))
      ∙ (process_for-Found e.pid w hw).0.pid

  after_spawn :
      (k : ℤ)
      → lookup k (after e others child w).processes
        ≡ spawn_view
            (shares_box (some e))
            e.pid
            child
            (blocked e w)
            k
            (lookup k (before e others w).processes)
  unfolding run apply
  after_spawn k =
      ap (λ (v : World). lookup k v.processes)
        (run-append (syscall e ∷ others) (spawned e.pid child ∷ []) w)
      ∙ spawn_processes (record { parent = e.pid; child = child }) (before e others w)
          is_blocked.valid is_blocked.adopted k
      ∙ ap₂
          (λ (o : Option SyscallEvent) (p : Process).
            spawn_view (shares_box o) e.pid child p k (lookup k (before e others w).processes))
          is_blocked.pending is_blocked.process

  -- In a valid world whose initial pid is known, an ENTER of `clone` whose first argument has the
  -- flag CLONE_THREAD, then events that are not about its pid, then a spawn by the pid (S9): the
  -- spawn adds the child to the threads of its parent, and changes no other process, so that the
  -- child has no box of its own unless it had one.
  pub thread_joins :
      (flags : ℤ) (rest : List ℤ)
      → e.name ≡ codes "clone"
      → e.args ≡ flags ∷ rest
      → has_clone_thread flags ≡ true
      → (lookup e.pid (after e others child w).processes
          ≡ some (record (blocked e w) { threads = add child (seen e.pid w).threads }))
        × ((k : ℤ)
            → (e.pid == k) ≡ false
            → lookup k (after e others child w).processes ≡ lookup k (before e others w).processes)
  thread_joins flags rest name args thread =
      let shares = clone_flag e flags rest name args thread in
      (rw (after_spawn e.pid, shares, eq_self e.pid), λ k other. rw (after_spawn k, shares, other))

  -- In a valid world whose initial pid is known, an ENTER that is not a `clone` with the flag
  -- CLONE_THREAD, then events that are not about its pid, then a spawn by the pid (S9): the child
  -- is a new process with its pid, the name and the descriptors that its parent had before the
  -- ENTER and the parent's pid as its ppid, in no syscall, with no result, regions or threads; and
  -- the spawn changes no process but the child and the parent.
  pub fork_splits :
      IsFork e
      → (lookup child (after e others child w).processes
          ≡ some (record {
            pid = child;
            name = (seen e.pid w).name;
            ppid = e.pid;
            in_syscall = none;
            last_result = none;
            fds = (seen e.pid w).fds;
            regions = [];
            threads = [];
          }))
        × ((k : ℤ)
            → (child == k) ≡ false
            → (e.pid == k) ≡ false
            → lookup k (after e others child w).processes ≡ lookup k (before e others w).processes)
  fork_splits forks =
      let alone = fork_flag e forks in
      (
        rw (after_spawn child, alone, eq_self child)
            (ap (λ (parent : ℤ). some (record (forked child (blocked e w)) { ppid = parent }))
              own_pid),
        λ k h g. rw (after_spawn k, alone, h, g),
      )
