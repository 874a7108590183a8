-- ===== src/Main/Run/Ending.antt =====
-- What a live run leaves behind.
use fuddy_duddy.Prelude.{◌≡◌, refl, ap, true, Option, none, some, List, ◌∷◌}
use fuddy_duddy.Int.{ℤ}
use fuddy_duddy.Text.{Str}
use fuddy_duddy.Floats.{Floats}
use fuddy_duddy.Director.{Director}
use fuddy_duddy.Source.{ScriptedSource}
use fuddy_duddy.App.{App}
use fuddy_duddy.Live.Process.{
  System, IsSystem, started, begin_pump, start, kill_late, stop_polled, stop,
}
use fuddy_duddy.Main.{Mode, behind_dashes, command_mode, mode, live_app}
use fuddy_duddy.Main.Run.{ended, finally_stop, run_started, run_live, run_mode, main}

module _ {P S : Type 0} (sys : System P S) (IsDown : P → S → Type 0)
    (laws : IsSystem sys IsDown) where
  kill_late-IsDown :
      (p : P) (r : Option ℤ × S)
      → ((code : ℤ) → r.0 ≡ some code → IsDown p r.1)
      → IsDown p (kill_late sys p r)
  unfolding kill_late
  kill_late-IsDown p (some code, s) h = h code refl
  kill_late-IsDown p (none, s) h = laws.kill_down p s

  stop_polled-IsDown :
      (p : P) (r : Option ℤ × S)
      → ((code : ℤ) → r.0 ≡ some code → IsDown p r.1)
      → IsDown p (stop_polled sys p r)
  unfolding stop_polled
  stop_polled-IsDown p (some code, s) h = h code refl
  stop_polled-IsDown p (none, s) h =
      kill_late-IsDown p (sys.wait 2 p (sys.terminate p s)) (λ code e. laws.wait_down 2 p _ code e)

  stop-IsDown : (p : P) (s : S) → IsDown p (stop sys (some p) s)
  unfolding stop
  stop-IsDown p s = stop_polled-IsDown p (sys.poll p s) (λ code e. laws.poll_down p s code e)

  run_live-IsDown :
      {E : Type 0} (F : Floats) (tracer program : Str) (args : List Str)
      → (backend : App F Director → S → Option E × S) → (s s' : S) (p : P)
      → start sys tracer (program ∷ args) s ≡ (started p, s')
      → ((run_live F sys tracer backend program args s).0
          ≡ ended (backend (live_app F program) s').0)
        × IsDown p (run_live F sys tracer backend program args s).1
  unfolding run_live run_started finally_stop
  run_live-IsDown F tracer program args backend s s' p e = rw e (refl, stop-IsDown p _)

  starts :
      (tracer : Str) (cmd : List Str) (s s' : S) (p : P)
      → sys.exists s ≡ true
      → sys.popen (tracer ∷ cmd) s ≡ (some p, s')
      → start sys tracer cmd s ≡ (started p, sys.start_thread p s')
  unfolding start begin_pump
  starts tracer cmd s s' p built made = rw (built, made) refl

  mode-live :
      (argv args : List Str) (program : Str)
      → behind_dashes argv ≡ some (program ∷ args)
      → mode argv ≡ Mode.live program args
  unfolding mode command_mode
  mode-live argv args program e =
      ap (λ o. elim o as (λ _. Mode) [ none ↦ Mode.demo | some cmd ↦ command_mode cmd ]) e

  -- Where the calls of the system do what is documented, the arguments have a command behind "--",
  -- the tracer is built and Popen makes a process of it with the command: the program gives the
  -- app of a live run to the backend, ends as the backend does, without an exception or with the
  -- same one, and in either case the process has ended at the end, or SIGKILL was sent to it.
  pub main-IsDown :
      {E : Type 0} (F : Floats) (tracer program : Str) (argv args : List Str)
      → (demo_backend : App F ScriptedSource → S → Option E × S)
      → (live_backend : App F Director → S → Option E × S) → (s s' : S) (p : P)
      → behind_dashes argv ≡ some (program ∷ args)
      → sys.exists s ≡ true
      → sys.popen (tracer ∷ program ∷ args) s ≡ (some p, s')
      → ((main F sys tracer demo_backend live_backend argv s).0
          ≡ ended (live_backend (live_app F program) (sys.start_thread p s')).0)
        × IsDown p (main F sys tracer demo_backend live_backend argv s).1
  unfolding main run_mode
  main-IsDown F tracer program argv args demo_backend live_backend s s' p command built made =
      rw (mode-live argv args program command) (
        run_live-IsDown F tracer program args live_backend s (sys.start_thread p s') p
          (starts tracer (program ∷ args) s s' p built made))
