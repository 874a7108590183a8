-- ===== src/Collector/Loop/Lives.antt =====
-- The threads that live while the loop runs, and the loop's end.
use fuddy_duddy.Prelude.{
  ℕ, suc, ◌+◌, ◌-◌, ◌≡◌, refl, sym, ◌∙◌, ap, true, false, some, List, [], ◌∷◌, ◌++◌, length,
  length-append, ◌==◌, nat_eq, if_cases, arith,
}
use fuddy_duddy.Int.{ℤ, int_eq}
use fuddy_duddy.Collector.Loop.{
  Status, exited, signaled, stopped, Report, Wait, report, interrupted, to_int,
}
use fuddy_duddy.Collector.Loop.Observed.{is_fork, counted, handled}

-- A report of the end of a thread, with the exit code that a shell shows for it.
pub data Ends : Status → ℕ → Type 0 where
  by_exit : (code : ℕ) → Ends (exited code) code
  by_signal : (sig : ℕ) → Ends (signaled sig) (128 + sig)

-- The traced threads before and after some results of `waitpid`, as the kernel has them: only traced
-- threads are reported, a fork tells the new pid, which is traced from then on, and an end ends one.
pub data Lives : List ℤ → List Wait → List ℤ → Type 0 where
  over : {live : List ℤ} → Lives live [] live
  again :
      {live after : List ℤ} {ws : List Wait}
      → Lives live ws after
      → Lives live (interrupted ∷ ws) after
  stops :
      {live after : List ℤ} {ws : List Wait} (front back : List ℤ) (sig event : ℕ) (r : Report)
      → live ≡ front ++ r.pid ∷ back
      → r.status ≡ stopped sig event
      → is_fork sig event ≡ false
      → Lives live ws after
      → Lives live (report r ∷ ws) after
  forks :
      {live after : List ℤ} {ws : List Wait} (front back : List ℤ) (sig event newpid : ℕ)
      (r : Report)
      → live ≡ front ++ r.pid ∷ back
      → r.status ≡ stopped sig event
      → is_fork sig event ≡ true
      → r.message ≡ some newpid
      → Lives (to_int newpid ∷ live) ws after
      → Lives live (report r ∷ ws) after
  ends :
      {live after : List ℤ} {ws : List Wait} (front back : List ℤ) (code : ℕ) (r : Report)
      → live ≡ front ++ r.pid ∷ back
      → Ends r.status code
      → Lives (front ++ back) ws after
      → Lives live (report r ∷ ws) after

abbrev pub reports : List Wait → List Report
reports [] = []
reports (report r ∷ ws) = r ∷ reports ws
reports (_ ∷ ws) = reports ws

size :
    (front back live : List ℤ) (pid : ℤ)
    → live ≡ front ++ pid ∷ back
    → length live ≡ suc (length front + length back)
size front back live pid e = rw e (omega (arith, length-append front (pid ∷ back)))

pub alive :
    (front back live : List ℤ) (pid : ℤ) → live ≡ front ++ pid ∷ back → (length live == 0) ≡ false
alive front back live pid e = rw (size front back live pid e) (ground arith)

counted-Ends :
    (r : Report) (status : Status) (code n : ℕ) → Ends status code → counted r status n ≡ n - 1
counted-Ends r _ _ n (by_exit code) = refl
counted-Ends r _ _ n (by_signal sig) = refl

-- What the reports of a step do to the count.
pub count_stop :
    (r : Report) (sig event n : ℕ)
    → r.status ≡ stopped sig event
    → is_fork sig event ≡ false
    → counted r r.status n ≡ n
count_stop r sig event n is plain = rw is (rw plain refl)

pub count_fork :
    (r : Report) (sig event newpid n : ℕ)
    → r.status ≡ stopped sig event
    → is_fork sig event ≡ true
    → r.message ≡ some newpid
    → counted r r.status n ≡ suc n
count_fork r sig event newpid n is fork said = rw is (rw fork (rw said (omega arith)))

pub count_end :
    (front back live : List ℤ) (r : Report) (code : ℕ)
    → live ≡ front ++ r.pid ∷ back
    → Ends r.status code
    → counted r r.status (length live) ≡ length (front ++ back)
count_end front back live r code e end =
    counted-Ends r r.status code (length live) end
    ∙ omega (arith, size front back live r.pid e, length-append front back)

handled_zero : (n : ℕ) (ws : List Wait) → (n == 0) ≡ true → handled n ws ≡ []
unfolding handled
handled_zero n [] e = refl
handled_zero n (report r ∷ ws) e = rw e refl
handled_zero n (interrupted ∷ ws) e = rw e refl
handled_zero n (Wait.no_child ∷ ws) e = refl
handled_zero n (Wait.failed ∷ ws) e = refl

handled_report :
    (front back live : List ℤ) (r : Report) (ws : List Wait) (n : ℕ)
    → live ≡ front ++ r.pid ∷ back
    → counted r r.status (length live) ≡ n
    → handled n ws ≡ reports ws
    → handled (length live) (report r ∷ ws) ≡ r ∷ reports ws
unfolding handled
handled_report front back live r ws n e count rest =
    rw (alive front back live r.pid e, count) (ap (λ l. r ∷ l) rest)

-- The loop handles every report of the traced threads.
pub handles_all :
    {live after : List ℤ} {ws : List Wait}
    → Lives live ws after
    → handled (length live) ws ≡ reports ws
unfolding handled
handles_all over = refl
handles_all {live} (again {ws} h) =
    if_cases (λ l. l ≡ reports ws) (length live == 0) _ _
      (λ none_left. sym (handled_zero (length live) ws none_left) ∙ handles_all h)
      (λ _. handles_all h)
handles_all {live} (stops {ws} front back sig event r e is plain h) =
    handled_report front back live r ws _ e (count_stop r sig event (length live) is plain)
      (handles_all h)
handles_all {live} (forks {ws} front back sig event newpid r e is fork said h) =
    handled_report front back live r ws _ e
      (count_fork r sig event newpid (length live) is fork said) (handles_all h)
handles_all {live} (ends {ws} front back code r e end h) =
    handled_report front back live r ws _ e (count_end front back live r code e end) (handles_all h)
