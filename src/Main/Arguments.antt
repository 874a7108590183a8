-- ===== src/Main/Arguments.antt =====
-- The command line.
use fuddy_duddy.Prelude.{
  Bool, true, false, ◌≡◌, refl, none, some, List, [], ◌∷◌, ◌++◌, ◌==◌, list_eq, nat_eq, All, arith,
}
use fuddy_duddy.Text.{Str, codes}
use fuddy_duddy.Main.{demo, usage, live, behind_dashes, command_mode, mode}

-- No argument is "--".
abbrev pub HasNoDashes : List Str → Type 0
HasNoDashes = All (λ arg. (arg == codes "--") ≡ false)

behind_dashes-none : (before : List Str) → HasNoDashes before → behind_dashes before ≡ none
unfolding behind_dashes
behind_dashes-none [] _ = refl
behind_dashes-none (arg ∷ args) (h, hs) = rw (h, behind_dashes-none args hs, behind_dashes) refl

behind_dashes-some :
    (before cmd : List Str)
    → HasNoDashes before
    → behind_dashes (before ++ codes "--" ∷ cmd) ≡ some cmd
unfolding behind_dashes fuddy_duddy.Prelude.list_beq
behind_dashes-some [] cmd _ = refl
behind_dashes-some (arg ∷ args) cmd (h, hs) =
    rw (h, behind_dashes-some args cmd hs, behind_dashes) refl

-- With any arguments before it none of which is `--`: without `--` the demo runs, `--` alone is an
-- error, and a command behind `--` is run live.
pub modes :
    (before : List Str) (program : Str) (args : List Str)
    → HasNoDashes before
    → (mode before ≡ demo)
      × (mode (before ++ codes "--" ∷ []) ≡ usage)
      × (mode (before ++ codes "--" ∷ program ∷ args) ≡ live program args)
unfolding mode command_mode
modes before program args h = (
  rw (behind_dashes-none before h, mode) refl,
  rw (behind_dashes-some before [] h, mode) refl,
  rw (behind_dashes-some before (program ∷ args) h, mode) refl,
)
