-- ===== src/Source.antt =====
-- source.py: the scripted source. Frames are counted from 0, and the frames of a script are numbers
-- too. `none` is the `ZeroDivisionError` of a loop over a period of no frames.
pub mod Sorting
pub mod Playback
use fuddy_duddy.Prelude.{
  ℕ, ◌+◌, ◌%◌, Bool, true, false, Option, none, some, List, [], ◌∷◌, leb, nat_beq, if◌then◌else◌,
}
use fuddy_duddy.Event.{Event}

abbrev pub Item : Type 0
Item = ℕ × Event

-- sorted(script, key=lambda item: item[0]), which is stable
unfoldable pub insert_item : Item → List Item → List Item
insert_item x [] = x ∷ []
insert_item x (y ∷ ys) = let rest = insert_item x ys in if leb x.0 y.0 then x ∷ y ∷ ys else y ∷ rest

unfoldable pub sorted : List Item → List Item
unfolding insert_item
sorted [] = []
sorted (x ∷ xs) = insert_item x (sorted xs)

pub record ScriptedSource : Type 0 where
  pub script : List Item
  pub loop : Bool
  pub period : ℕ

-- script[-1][0] if script else 0
unfoldable pub last_frame : List Item → ℕ
last_frame [] = 0
last_frame (x ∷ []) = x.0
last_frame (x ∷ y ∷ ys) = last_frame (y ∷ ys)

-- ScriptedSource.__init__
unfoldable pub scripted : List Item → Bool → ℕ → ScriptedSource
unfolding sorted last_frame
scripted script loop loop_pause = record {
  script = sorted script;
  loop = loop;
  period = last_frame (sorted script) + loop_pause;
}

-- [event for when, event in script if when == frame]
unfoldable pub due : ℕ → List Item → List Event
due frame [] = []
due frame ((w, e) ∷ xs) = let rest = due frame xs in if nat_beq w frame then e ∷ rest else rest

-- ScriptedSource.poll
unfoldable pub poll : ScriptedSource → ℕ → Option (List Event)
unfolding due
poll s frame =
    if s.loop
    then (if nat_beq s.period 0 then none else some (due (frame % s.period) s.script))
    else some (due frame s.script)
