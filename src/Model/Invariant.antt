-- ===== src/Model/Invariant.antt =====
-- Valid worlds, and the look-up of a process in one.
use fuddy_duddy.Prelude.{
  ◌≡◌, refl, true, some, [], ◌==◌, nat_eq, list_eq, arith, Bool-cases, Option-cases, inl, inr,
  eq_self,
}
use fuddy_duddy.Int.{ℤ, pos, int_eq}
use fuddy_duddy.Text.{Str}
use fuddy_duddy.Dict.{Dict, lookup, contains, insert, erase}
use fuddy_duddy.Dict.Laws.{lookup-erase, contains-insert, contains-erase, contains_of_lookup}
use fuddy_duddy.Dict.Entries.{Entries, Entries-nil, Entries-insert, Entries-erase}
use fuddy_duddy.Event.{Phase, SyscallEvent}
use fuddy_duddy.Model.{
  Process, World, fresh_process, rekey, adopt, find_or_create, process_for, put_process,
}

pub record IsKeyed (k : ℤ) (p : Process) : Type 0 where
  pub pid : p.pid ≡ k
  pub fds : Entries (λ n f. f.number ≡ n) p.fds
  pub regions : Entries (λ n r. r.start ≡ n) p.regions

abbrev pub IsTracked : Dict ℤ Process → ℤ → SyscallEvent → Type 0
IsTracked processes k e = (contains k processes ≡ true) × (e.phase ≡ Phase.enter)

pub record IsValid (w : World) : Type 0 where
  pub keyed : Entries IsKeyed w.processes
  pub rooted : contains w.initial_pid w.processes ≡ true
  pub tracked : Entries (IsTracked w.processes) w.pending

-- A process in a valid world, under the key `k`.
abbrev pub Found : ℤ → Process × World → Type 0
Found k r = IsKeyed k r.0 × (contains k r.1.processes ≡ true) × IsValid r.1

fresh-IsKeyed : (k : ℤ) (name : Str) → IsKeyed k (fresh_process k name)
fresh-IsKeyed k name = record { pid = refl; fds = Entries-nil _; regions = Entries-nil _ }

pub put-IsValid :
    (k : ℤ) (p : Process) (w : World) → IsKeyed k p → IsValid w → IsValid (put_process k p w)
put-IsValid k p w hp hw = record {
  keyed = Entries-insert IsKeyed k p w.processes hp hw.keyed;
  rooted = ground (arith, hw.rooted, contains-insert k w.initial_pid p w.processes);
  tracked = λ j e h. ground (arith, hw.tracked j e h, contains-insert k j p w.processes);
}

find_or_create-Found : (k : ℤ) (w : World) → IsValid w → Found k (find_or_create k w)
unfolding find_or_create
find_or_create-Found k w hw = elim (Option-cases (lookup k w.processes)) [
  | inl new ↦
      rw (new, find_or_create)
        (
          fresh-IsKeyed k [],
          rw (contains-insert, eq_self k),
          put-IsValid k (fresh_process k []) w (fresh-IsKeyed k []) hw,
        )
  | inr (p, old) ↦
      rw (old, find_or_create) (hw.keyed k p old, contains_of_lookup k p w.processes old, hw)
]

module _ (k : ℤ) (p : Process) (w : World) (hp : lookup (pos 0) w.processes ≡ some p)
    (hw : IsValid w) where
  abbrev adopted : Dict ℤ Process
  adopted = insert k (record p { pid = k }) (erase (pos 0) w.processes)

  others-IsTracked : Entries (IsTracked adopted) (erase (pos 0) w.pending)
  others-IsTracked j e h = ground (
    arith,
    lookup-erase (pos 0) j w.pending,
    hw.tracked j e,
    contains-insert k j (record p { pid = k }) (erase (pos 0) w.processes),
    contains-erase (pos 0) j w.processes,
  )

  rekey-IsTracked : Entries (IsTracked adopted) (rekey k w.pending)
  unfolding rekey
  rekey-IsTracked = elim (Option-cases (lookup (pos 0) w.pending)) [
    | inl idle ↦ rw (idle, rekey) others-IsTracked
    | inr (e, busy) ↦
        rw (busy, rekey)
          (Entries-insert (IsTracked adopted) k e (erase (pos 0) w.pending)
            (rw (contains-insert, eq_self k) refl, (hw.tracked (pos 0) e busy).1) others-IsTracked)
  ]

  adopt-Found : Found k (adopt k p w)
  unfolding adopt
  adopt-Found =
      let old = hw.keyed (pos 0) p hp in
      let new : IsKeyed k (record p { pid = k }) = record {
        pid = refl;
        fds = old.fds;
        regions = old.regions;
      } in
      (
        new,
        rw (contains-insert, eq_self k),
        record {
          keyed =
              Entries-insert IsKeyed k _ _ new (Entries-erase IsKeyed (pos 0) w.processes hw.keyed);
          rooted = rw (contains-insert, eq_self k);
          tracked = rekey-IsTracked;
        },
      )

pub process_for-Found : (k : ℤ) (w : World) → IsValid w → Found k (process_for k w)
unfolding process_for
process_for-Found k w hw = elim (Bool-cases (w.initial_pid == pos 0)) [
  | inr known ↦ rw (known, process_for) (find_or_create-Found k w hw)
  | inl unknown ↦ elim (Option-cases (lookup (pos 0) w.processes)) [
    | inl gone ↦ rw (unknown, gone, process_for) (find_or_create-Found k w hw)
    | inr (p, here) ↦ rw (unknown, here, process_for) (adopt-Found k p w here hw)
  ]
]
