-- ===== src/Collector/Loop/Resume.antt =====
-- The threads that the loop resumes.
use fuddy_duddy.Prelude.{
  ℕ, ◌≡◌, refl, ◌∙◌, ap, Bool, ◌||◌, Bool-cases, inl, inr, Option, none, some, List, [], ◌∷◌, ◌++◌,
  map, ◌==◌, nat_eq, of_eq_true, if_cases, if◌then◌else◌,
}
use fuddy_duddy.Int.{ℤ}
use fuddy_duddy.Text.{Str}
use fuddy_duddy.Collector.Stop.{handle_syscall_stop}
use fuddy_duddy.Collector.Loop.{
  Status, exited, signaled, stopped, continued, Report, Wait, report, interrupted, no_child, failed,
  Action, write, diagnose, resume, Tracer, Outcome, syscall_trap, sigtrap, sigstop, is_spawn_event,
  handle_spawn, handle_stop, handle_status, run,
}
use fuddy_duddy.Collector.Loop.Observed.{handled}
use fuddy_duddy.Collector.Loop.Count.{status_counted}

-- The resumptions: a pid and the signal that is injected, or 0.
unfoldable pub resumptions : List Action → List (ℤ × ℕ)
resumptions [] = []
resumptions (write _ ∷ actions) = resumptions actions
resumptions (diagnose _ ∷ actions) = resumptions actions
resumptions (resume pid sig ∷ actions) = (pid, sig) ∷ resumptions actions

-- The signals that a stop may have without being the delivery of a signal.
abbrev pub is_internal : ℕ → Bool
is_internal sig = sig == syscall_trap || sig == sigtrap || sig == sigstop

-- The resumption that a report asks for: a stopped thread goes on, with its signal if that is delivered.
abbrev pub resumed_at : Report → Status → List (ℤ × ℕ)
resumed_at r (stopped sig event) = (r.pid, if is_internal sig then 0 else sig) ∷ []
resumed_at r _ = []

abbrev pub resumed : List Report → List (ℤ × ℕ)
resumed [] = []
resumed (r ∷ rs) = resumed_at r r.status ++ resumed rs

resumptions-append :
    (xs ys : List Action) → resumptions (xs ++ ys) ≡ resumptions xs ++ resumptions ys
unfolding resumptions
resumptions-append [] ys = refl
resumptions-append (write _ ∷ xs) ys = resumptions-append xs ys
resumptions-append (diagnose _ ∷ xs) ys = resumptions-append xs ys
resumptions-append (resume pid sig ∷ xs) ys = ap (λ l. (pid, sig) ∷ l) (resumptions-append xs ys)

resumptions-write :
    (lines : List Str) (pid : ℤ)
    → resumptions (map write lines ++ resume pid 0 ∷ []) ≡ (pid, 0) ∷ []
unfolding resumptions
resumptions-write [] pid = refl
resumptions-write (line ∷ lines) pid = resumptions-write lines pid

spawn_resumes :
    (r : Report) (t : Tracer) (message : Option ℕ)
    → resumptions (handle_spawn r message t).0 ≡ (r.pid, 0) ∷ []
unfolding handle_spawn resumptions
spawn_resumes r t none = refl
spawn_resumes r t (some _) = refl

stop_resumes :
    (r : Report) (sig event : ℕ) (t : Tracer)
    → resumptions (handle_stop r sig event t).0 ≡ resumed_at r (stopped sig event)
unfolding handle_stop
stop_resumes r sig event t = elim (Bool-cases (sig == syscall_trap)) [
  | inl trap ↦
      rw (of_eq_true sig syscall_trap trap)
        (resumptions-write (handle_syscall_stop r.pid r.ts r.info r.readv) r.pid)
  | inr no_trap ↦ elim (Bool-cases (sig == sigtrap)) [
    | inl event_stop ↦ rw (of_eq_true sig sigtrap event_stop) (
        if_cases (λ (p : List Action × Tracer). resumptions p.0 ≡ (r.pid, 0) ∷ [])
          (is_spawn_event event) _ _ (λ _. spawn_resumes r t r.message)
          (λ _. unfold resumptions in refl))
    | inr no_event ↦ elim (Bool-cases (sig == sigstop)) [
      | inl group ↦ rw (no_trap, no_event, group) (unfold resumptions in refl)
      | inr signal ↦ rw (no_trap, no_event, signal) (unfold resumptions in refl)
    ]
  ]
]

status_resumes :
    (r : Report) (status : Status) (t : Tracer)
    → resumptions (handle_status r status t).0 ≡ resumed_at r status
unfolding handle_status resumptions
status_resumes r (exited _) t = refl
status_resumes r (signaled _) t = refl
status_resumes r (stopped sig event) t = stop_resumes r sig event t
status_resumes r continued t = refl

-- Whatever `waitpid` returns, the loop resumes, for each report of a stop up to its end and in
-- their order, the stopped thread once, and nothing else: with the signal of the stop, unless that
-- is the signal of a syscall stop, SIGTRAP or SIGSTOP, which are not injected.
pub run_resumes :
    (ws : List Wait) (t : Tracer) → resumptions (run ws t).0 ≡ resumed (handled t.ntraced ws)
unfolding run handled resumptions
run_resumes [] t = refl
run_resumes (report r ∷ ws) t = elim (Bool-cases (t.ntraced == 0)) [
  | inl ends ↦ rw ends refl
  | inr goes ↦
      let (actions, t') = handle_status r r.status t in
      rw goes (
        resumptions-append actions (run ws t').0
        ∙ ap (λ l. l ++ resumptions (run ws t').0) (status_resumes r r.status t)
        ∙ ap (λ l. resumed_at r r.status ++ l)
            (run_resumes ws t' ∙ ap (λ n. resumed (handled n ws)) (status_counted r r.status t)))
]
run_resumes (interrupted ∷ ws) t = elim (Bool-cases (t.ntraced == 0)) [
  | inl ends ↦ rw ends refl
  | inr goes ↦ rw goes (run_resumes ws t)
]
run_resumes (no_child ∷ ws) t = refl
run_resumes (failed ∷ ws) t =
    if_cases (λ (p : List Action × Outcome). resumptions p.0 ≡ []) (t.ntraced == 0) _ _ (λ _. refl)
      (λ _. refl)
