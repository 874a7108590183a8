-- ===== src/Main/Run.antt =====
-- __main__.py: `run_live` with its `try` and `finally`, `run_demo`, and `main`. The backend's loop, which
-- opens a window, is an argument: it takes an app and ends with an exception or without.
pub mod Ending
use fuddy_duddy.Prelude.{Option, none, some, List, ◌∷◌}
use fuddy_duddy.Text.{Str}
use fuddy_duddy.Floats.{Floats}
use fuddy_duddy.Source.{ScriptedSource}
use fuddy_duddy.Director.{Director}
use fuddy_duddy.App.{App}
use fuddy_duddy.Live.Process.{System, StartError, Start, started, refused, start, stop}
use fuddy_duddy.Main.{Mode, mode, demo_app, live_app}

-- How the program ends: without an exception, with the usage message of sys.exit, or with an
-- exception of the collector's start or of the backend.
pub data End (E : Type 0) : Type 0 where
  returned : End E
  usage_exit : End E
  not_started : StartError → End E
  raised : E → End E

abbrev pub ended : {E : Type 0} → Option E → End E
ended none = returned
ended (some e) = raised e

-- The `try` with its `finally`.
unfoldable pub finally_stop : {E P S : Type 0} → System P S → P → Option E × S → End E × S
unfolding stop
finally_stop sys p (e, s) = (ended e, stop sys (some p) s)

unfoldable pub run_started :
    {E P S : Type 0} → System P S → (S → Option E × S) → Start P × S → End E × S
unfolding finally_stop
run_started sys backend (refused e, s) = (not_started e, s)
run_started sys backend (started p, s) = finally_stop sys p (backend s)

module _ (F : Floats) {E P S : Type 0} (sys : System P S) (tracer : Str) where
  -- run_live, for the program and the arguments of `cmd`
  unfoldable pub run_live : (App F Director → S → Option E × S) → Str → List Str → S → End E × S
  unfolding run_started start
  run_live backend program args s =
      run_started sys (backend (live_app F program)) (start sys tracer (program ∷ args) s)

  module _ (demo_backend : App F ScriptedSource → S → Option E × S)
      (live_backend : App F Director → S → Option E × S) where
    -- run_demo
    unfoldable pub run_demo : S → End E × S
    run_demo s = let (e, s') = demo_backend (demo_app F) s in (ended e, s')

    unfoldable pub run_mode : Mode → S → End E × S
    unfolding run_demo run_live
    run_mode Mode.demo s = run_demo s
    run_mode Mode.usage s = (usage_exit, s)
    run_mode (Mode.live program args) s = run_live live_backend program args s

    -- main
    unfoldable pub main : List Str → S → End E × S
    unfolding mode run_mode
    main argv s = run_mode (mode argv) s
