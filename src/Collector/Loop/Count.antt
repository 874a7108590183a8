-- ===== src/Collector/Loop/Count.antt =====
-- The variables of the loop behind a report.
use fuddy_duddy.Prelude.{
  ℕ, ◌+◌, ◌≡◌, refl, ap, Bool-cases, inl, inr, Option, none, some, List, [], ◌∷◌, ◌==◌, nat_eq,
  of_eq_true, if_intro, if◌then◌else◌,
}
use fuddy_duddy.Int.{ℤ, int_eq}
use fuddy_duddy.Collector.Loop.{
  Status, exited, signaled, stopped, continued, Report, Action, resume, Tracer, syscall_trap,
  sigtrap, sigstop, ended, handle_spawn, handle_stop, handle_status,
}
use fuddy_duddy.Collector.Loop.Observed.{lines_of, is_fork, counted}

-- What the stops other than syscall stops and forks do.
unfoldable pub quiet : Report → ℕ → Tracer → List Action × Tracer
quiet r stopsig t =
    if stopsig == sigtrap
    then (resume r.pid 0 ∷ [], t)
    else if stopsig == sigstop
    then (resume r.pid 0 ∷ [], t)
    else (resume r.pid stopsig ∷ [], t)

pub quiet_lem :
    (r : Report) (stopsig : ℕ) (t : Tracer)
    → (lines_of (quiet r stopsig t).0 ≡ []) × ((quiet r stopsig t).1 ≡ t)
unfolding quiet lines_of
quiet_lem r stopsig t =
    let P = λ (p : List Action × Tracer). (lines_of p.0 ≡ []) × (p.1 ≡ t) in
    if_intro P (stopsig == sigtrap) _ _ (refl, refl)
      (if_intro P (stopsig == sigstop) _ _ (refl, refl) (refl, refl))

spawn_after :
    (r : Report) (t : Tracer) (message : Option ℕ)
    → (handle_spawn r message t).1
      ≡ record t { ntraced = elim message [ none ↦ t.ntraced | some _ ↦ t.ntraced + 1 ] }
unfolding handle_spawn
spawn_after r t none = refl
spawn_after r t (some newpid) = refl

stop_after :
    (r : Report) (stopsig event : ℕ) (t : Tracer)
    → (handle_stop r stopsig event t).1
      ≡ record t { ntraced = counted r (stopped stopsig event) t.ntraced }
unfolding handle_stop quiet
stop_after r stopsig event t = elim (Bool-cases (stopsig == syscall_trap)) [
  | inl trap ↦ rw (of_eq_true stopsig syscall_trap trap) refl
  | inr other ↦ rw other (elim (Bool-cases (is_fork stopsig event)) [
    | inl fork ↦ rw fork (spawn_after r t r.message)
    | inr plain ↦ rw plain (quiet_lem r stopsig t).1
  ])
]

-- The exit code that the loop holds for a pid, behind a report.
abbrev pub coded : Report → Status → ℤ → ℕ → ℕ
coded r (exited code) pid before = if r.pid == pid then code else before
coded r (signaled sig) pid before = if r.pid == pid then 128 + sig else before
coded r _ pid before = before

pub status_after :
    (r : Report) (status : Status) (t : Tracer)
    → (handle_status r status t).1 ≡ record {
      initial_pid = t.initial_pid;
      initial_code = coded r status t.initial_pid t.initial_code;
      ntraced = counted r status t.ntraced;
    }
unfolding handle_status ended
status_after r (exited code) t = refl
status_after r (signaled sig) t = refl
status_after r (stopped stopsig event) t = stop_after r stopsig event t
status_after r continued t = refl

pub status_counted :
    (r : Report) (status : Status) (t : Tracer)
    → (handle_status r status t).1.ntraced ≡ counted r status t.ntraced
status_counted r status t = ap (λ u. u.ntraced) (status_after r status t)
