-- ===== src/Collector/Loop/Exit.antt =====
-- The end of the loop, and what the collector returns.
use fuddy_duddy.Prelude.{
  ltb, some, true, ◌≤◌, arith, ℕ, ◌≡◌, ◌≢◌, refl, sym, ◌∙◌, ap, true, false, List, [], ◌∷◌, ◌++◌,
  length, All, ◌==◌, nat_eq, eq_self, if_cases, if◌then◌else◌, of_eq_true,
}
use fuddy_duddy.Int.{ℤ, int_eq}
use fuddy_duddy.Collector.Loop.{
  trace, main, Status, exited, signaled, stopped, continued, Report, Wait, report, interrupted,
  Action, Tracer, Outcome, waiting, returned, to_int, handle_status, run, attached,
}
use fuddy_duddy.Collector.Loop.Count.{coded, status_after}
use fuddy_duddy.Collector.Loop.Observed.{counted, handled}
use fuddy_duddy.Collector.Loop.Lives.{
  Ends, by_exit, by_signal, Lives, over, again, stops, forks, ends, reports, alive, count_stop,
  count_fork, count_end, handles_all,
}

abbrev at_end : ℕ → ℕ → Outcome
at_end n code = if n == 0 then returned code else waiting

-- The exit code of a pid behind some reports.
abbrev code_of : ℤ → ℕ → List Report → ℕ
code_of pid code [] = code
code_of pid code (r ∷ rs) = code_of pid (coded r r.status pid code) rs

run_zero :
    (ws : List Wait) (t : Tracer) → (t.ntraced == 0) ≡ true → (run ws t).1 ≡ returned t.initial_code
unfolding run
run_zero [] t e = rw e refl
run_zero (report r ∷ ws) t e = rw e refl
run_zero (interrupted ∷ ws) t e = rw e refl
run_zero (Wait.no_child ∷ ws) t e = refl
run_zero (Wait.failed ∷ ws) t e = rw e refl

run_report :
    (r : Report) (ws : List Wait) (t : Tracer)
    → (t.ntraced == 0) ≡ false
    → (run (report r ∷ ws) t).1 ≡ (run ws (handle_status r r.status t).1).1
unfolding run
run_report r ws t e = rw e refl

-- The state of the loop with some threads.
abbrev tracing : ℤ → ℕ → List ℤ → Tracer
tracing pid code live = record { initial_pid = pid; initial_code = code; ntraced = length live }

run_step :
    (front back live next : List ℤ) (r : Report) (ws : List Wait) (pid : ℤ) (code : ℕ) (o : Outcome)
    → live ≡ front ++ r.pid ∷ back
    → counted r r.status (length live) ≡ length next
    → (run ws (tracing pid (coded r r.status pid code) next)).1 ≡ o
    → (run (report r ∷ ws) (tracing pid code live)).1 ≡ o
run_step front back live next r ws pid code o e count rest =
    run_report r ws (tracing pid code live) (alive front back live r.pid e)
    ∙ ap (λ u. (run ws u).1) (status_after r r.status (tracing pid code live))
    ∙ ap
        (λ n.
          (run ws (record {
            initial_pid = pid;
            initial_code = coded r r.status pid code;
            ntraced = n;
          })).1)
        count
    ∙ rest

run-Lives :
    {live after : List ℤ} {ws : List Wait} (pid : ℤ) (code : ℕ)
    → Lives live ws after
    → (run ws (tracing pid code live)).1 ≡ at_end (length after) (code_of pid code (reports ws))
unfolding run
run-Lives pid code over = refl
run-Lives {live} {after} pid code (again {ws} h) =
    if_cases
      (λ (p : List Action × Outcome). p.1 ≡ at_end (length after) (code_of pid code (reports ws)))
      (length live == 0) _ _
      (λ none_left. sym (run_zero ws (tracing pid code live) none_left) ∙ run-Lives pid code h)
      (λ _. run-Lives pid code h)
run-Lives {live} pid code (stops {ws} front back sig event r e is plain h) =
    run_step front back live live r ws pid code _ e (count_stop r sig event (length live) is plain)
      (run-Lives pid _ h)
run-Lives {live} pid code (forks {ws} front back sig event newpid r e is fork said h) =
    run_step front back live (to_int newpid ∷ live) r ws pid code _ e
      (count_fork r sig event newpid (length live) is fork said) (run-Lives pid _ h)
run-Lives {live} pid code (ends {ws} front back ended_with r e end h) =
    run_step front back live (front ++ back) r ws pid code _ e
      (count_end front back live r ended_with e end) (run-Lives pid _ h)

coded_other :
    (r : Report) (status : Status) (pid : ℤ) (code : ℕ)
    → r.pid ≢ pid
    → coded r status pid code ≡ code
coded_other r (exited _) pid code h =
    if_cases (λ n. n ≡ code) (r.pid == pid) _ _ (λ e. absurd (h (of_eq_true r.pid pid e)))
      (λ _. refl)
coded_other r (signaled _) pid code h =
    if_cases (λ n. n ≡ code) (r.pid == pid) _ _ (λ e. absurd (h (of_eq_true r.pid pid e)))
      (λ _. refl)
coded_other r (stopped _ _) pid code h = refl
coded_other r continued pid code h = refl

coded_end :
    (r : Report) (status : Status) (pid : ℤ) (before code : ℕ)
    → r.pid ≡ pid
    → Ends status code
    → coded r status pid before ≡ code
coded_end r _ pid before _ same (by_exit code) = rw (same, eq_self pid) refl
coded_end r _ pid before _ same (by_signal sig) = rw (same, eq_self pid) refl

-- Reports of other pids do not change the code.
code_of-others :
    (pid : ℤ) (code : ℕ) (rs : List Report) → All (λ r. r.pid ≢ pid) rs → code_of pid code rs ≡ code
code_of-others pid code [] _ = refl
code_of-others pid code (r ∷ rs) (h, hs) =
    ap (λ n. code_of pid n rs) (coded_other r r.status pid code h) ∙ code_of-others pid code rs hs

code_of-last :
    (pid : ℤ) (before : ℕ) (early late : List Report) (r : Report) (code : ℕ)
    → r.pid ≡ pid
    → Ends r.status code
    → All (λ s. s.pid ≢ pid) late
    → code_of pid before (early ++ r ∷ late) ≡ code
code_of-last pid before [] late r code same end h =
    ap (λ n. code_of pid n late) (coded_end r r.status pid before code same end)
    ∙ code_of-others pid code late h
code_of-last pid before (a ∷ early) late r code same end h =
    code_of-last pid (coded a a.status pid before) early late r code same end h

main_runs :
    (argc sig event : ℕ) (pid : ℤ) (ws : List Wait)
    → 2 ≤ argc
    → main argc (some pid) (some (stopped sig event)) true ws ≡ run ws (attached pid)
unfolding main trace
main_runs argc sig event pid ws h =
    if_cases (λ r. r ≡ run ws (attached pid)) (ltb argc 2) _ _ (λ few. absurd (ground arith))
      (λ _. refl)

-- The collector is called with a command, its fork has succeeded, the first `waitpid` reports a
-- stop and the first PTRACE_SYSCALL succeeds. While `waitpid` reports only on threads that are
-- traced, forks tell the new pids before these are reported on, and no call of it fails, the loop
-- handles every report; it still waits as long as a traced thread is left, and when none is, the
-- collector returns the exit code of the program that it has started, which is 128 and the signal
-- where a signal has killed that. The end of the started program is among the reports, and none
-- behind it has the same pid.
pub collector_returns :
    {ws : List Wait} (argc sig event : ℕ) (pid : ℤ) (after : List ℤ) (early late : List Report)
    (r : Report) (code : ℕ)
    → 2 ≤ argc
    → Lives (pid ∷ []) ws after
    → reports ws ≡ early ++ r ∷ late
    → r.pid ≡ pid
    → Ends r.status code
    → All (λ s. s.pid ≢ pid) late
    → (handled 1 ws ≡ reports ws)
      × ((main argc (some pid) (some (stopped sig event)) true ws).1
          ≡ (if length after == 0 then returned code else waiting))
collector_returns {ws} argc sig event pid after early late r code args h split same end others = (
  handles_all h,
  ap (λ p. p.1) (main_runs argc sig event pid ws args)
      ∙ run-Lives pid 0 h
      ∙ ap (at_end (length after))
          (ap (code_of pid 0) split ∙ code_of-last pid 0 early late r code same end others),
)
