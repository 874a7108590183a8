-- ===== src/Tests/System.antt =====
-- The theorem on a live run, at a system whose process ignores SIGTERM.
use fuddy_duddy.Prelude.{ℕ, ◌≡◌, refl, true, Option, none, some, List, [], ◌∷◌, list_beq}
use fuddy_duddy.Int.{ℤ, pos}
use fuddy_duddy.Text.{Str, codes}
use fuddy_duddy.Live.Process.{System, IsSystem}
use fuddy_duddy.Main.{behind_dashes}
use fuddy_duddy.Main.Run.{raised, main}
use fuddy_duddy.Main.Run.Ending.{main-IsDown}
use fuddy_duddy.Tests.Whole.{whole}

-- The states of a single process.
data State : Type 0 where
  absent : State
  stubborn : State
  over : State

poll_state : State → Option ℤ × State
poll_state over = (some (pos 0), over)
poll_state s = (none, s)

killed : State → State
killed _ = over

abbrev system : System ℕ State
system = record {
  exists = λ _. true;
  popen = λ _ _. (some 1, stubborn);
  start_thread = λ _ s. s;
  poll = λ _ s. poll_state s;
  terminate = λ _ s. s;
  wait = λ _ _ s. poll_state s;
  kill = λ _ s. killed s;
}

abbrev IsDown : ℕ → State → Type 0
IsDown _ s = s ≡ over

poll_state-IsDown : (s : State) (code : ℤ) → (poll_state s).0 ≡ some code → (poll_state s).1 ≡ over
unfolding poll_state
poll_state-IsDown absent code h = cc
poll_state-IsDown stubborn code h = cc
poll_state-IsDown over code h = refl

system-IsSystem : IsSystem system IsDown
unfolding killed
system-IsSystem = record {
  poll_down = λ _ s code h. poll_state-IsDown s code h;
  wait_down = λ _ _ s code h. poll_state-IsDown s code h;
  kill_down = λ _ s. refl;
}

-- A backend that ends with an exception.
abbrev failing : {A : Type 0} → A → State → Option Str × State
failing _ s = (some (codes "no display"), s)

abbrev argv : List Str
argv = codes "--" ∷ codes "ls" ∷ []

argv_command : behind_dashes argv ≡ some (codes "ls" ∷ [])
unfolding behind_dashes list_beq
argv_command = refl

main-IsDown_example :
    ((main whole system (codes "tracer") failing failing argv absent).0
      ≡ raised (codes "no display"))
    × IsDown 1 (main whole system (codes "tracer") failing failing argv absent).1
main-IsDown_example =
    main-IsDown system IsDown system-IsSystem whole (codes "tracer") (codes "ls") argv [] failing
      failing absent stubborn 1 argv_command refl refl
