-- ===== src/Main/Demo.antt =====
-- The demo, loop after loop.
use fuddy_duddy.Prelude.{
  list_beq, ℕ, zero, suc, ◌*◌, ◌≡◌, refl, ◌∙◌, ap, some, List, [], ◌∷◌, map, arith,
}
use fuddy_duddy.Dict.{insert, lookup, erase, contains}
use fuddy_duddy.Int.{int_beq, pos, int_eq}
use fuddy_duddy.Text.{codes}
use fuddy_duddy.Event.{Event}
use fuddy_duddy.Source.{ScriptedSource, scripted, sorted}
use fuddy_duddy.Model
use fuddy_duddy.Model.{World, Process, init, fresh_process}
use fuddy_duddy.Floats.{Floats}
use fuddy_duddy.App.{App, scripted_source, run}
use fuddy_duddy.App.Replay.{run-append}
use fuddy_duddy.App.Scripted.{repeated, loops_play}
use fuddy_duddy.Main.{shell, child, script, demo_world, demo_app}

-- The events of the story.
abbrev story : List Event
story = map (λ x. x.1) (sorted script)

-- The shell behind a loop: the child is gone, the profile is open.
abbrev pub ended : World
ended = init (record (fresh_process shell (codes "sh")) {
  last_result = some child;
  fds = (pos 3, record { number = pos 3; target = some (codes "/etc/profile") }) ∷ [];
})

first_loop : Model.run story demo_world ≡ ended
unfolding Model.run init sorted script Model.apply insert Model.process_for int_beq lookup list_beq
    erase Model.effect contains
first_loop = refl

next_loop : Model.run story ended ≡ ended
unfolding Model.run init sorted script Model.apply insert Model.process_for int_beq lookup list_beq
    erase Model.effect contains
next_loop = refl

run-repeated : (n : ℕ) → Model.run (repeated (suc n) story) demo_world ≡ ended
unfolding Model.run
run-repeated zero = first_loop
run-repeated (suc n) =
    run-append (repeated (suc n) story) story demo_world
    ∙ ap (Model.run story) (run-repeated n)
    ∙ next_loop

-- Whatever the floating point numbers, the demo plays any number of whole loops but none, and its
-- world is then that of the shell with the child gone.
pub demo_returns :
    (F : Floats) (n : ℕ)
    → (b : App F ScriptedSource) × (run F scripted_source (suc n * 405) (demo_app F) ≡ some b)
      × (b.world ≡ ended)
unfolding scripted script
demo_returns F n =
    let (b, made, world) = loops_play F script 60 (suc n) demo_world (omega arith) in
    (b, made, world ∙ run-repeated n)
