-- ===== src/App/Scripted.antt =====
-- The app with a scripted source.
use mathlib.Core.Option
use mathlib.Core.Option.{some-injective}
use fuddy_duddy.Prelude.{
  ℕ, zero, suc, ◌+◌, ◌*◌, ◌<◌, ◌≡◌, refl, sym, ◌∙◌, ap, true, Option, Option-cases, none, some,
  List, [], ◌++◌, inl, inr, map, arith,
}
use fuddy_duddy.Event.{Event}
use fuddy_duddy.Floats.{Floats}
use fuddy_duddy.Source
use fuddy_duddy.Source.{Item, ScriptedSource, scripted, sorted}
use fuddy_duddy.Source.Playback
use fuddy_duddy.Source.Playback.{chain, loop_plays_script}
use fuddy_duddy.Model
use fuddy_duddy.Model.{World}
use fuddy_duddy.App.{App, start, scripted_source, play, advance, run}
use fuddy_duddy.App.Replay.{run-append, show-world}

chain-some :
    (o r : Option (List Event)) (es : List Event)
    → chain o r ≡ some es
    → (xs : List Event) × (ys : List Event) × (o ≡ some xs) × (r ≡ some ys) × (xs ++ ys ≡ es)
chain-some none r es h = cc
chain-some (some xs) none es h = cc
chain-some (some xs) (some ys) es h = (xs, ys, refl, refl, some-injective _ _ h)

-- `n` copies of a list.
abbrev pub repeated : ℕ → List Event → List Event
repeated zero es = []
repeated (suc n) es = repeated n es ++ es

module _ (F : Floats) where
  -- The app behind the polls of `k` frames, all of whose events are applied to the world.
  abbrev pub Plays : ℕ → App F ScriptedSource → List Event → Type 0
  Plays k a es =
      (b : App F ScriptedSource) × (run F scripted_source k a ≡ some b)
      × (b.world ≡ Model.run es a.world)
      × (b.source ≡ a.source)
      × (b.frame ≡ a.frame + k)

  run-next :
      (k : ℕ) (a b : App F ScriptedSource)
      → advance F scripted_source a ≡ some b
      → run F scripted_source (suc k) a ≡ run F scripted_source k b
  unfolding run
  run-next k a b h = rw (h, run) refl

  pub run-Plays :
      (k : ℕ) (a : App F ScriptedSource) (es : List Event)
      → Source.Playback.play a.source a.frame k ≡ some es
      → Plays k a es
  unfolding run advance play Model.run
  run-Plays zero a es h =
      (a, refl, ap (λ xs. Model.run xs a.world) (some-injective _ _ h), refl, omega arith)
  run-Plays (suc k) a es h =
      let (xs, ys, first, rest, joined) = chain-some _ _ es h in
      let (b, made, world, source, frame) =
        run-Plays k (play F scripted_source (xs, a.source) a) ys rest in
      (
        b,
        run-next k a _ (
              ap (Option.map (λ r. play F scripted_source r a))
                (ap (Option.map (λ es. (es, a.source))) first))
            ∙ made,
        world
            ∙ ap (Model.run ys) (show-world F xs a.world a.scene)
            ∙ sym (run-append xs ys a.world)
            ∙ ap (λ v. Model.run v a.world) joined,
        source,
        frame ∙ omega arith,
      )

  run-add :
      (j k : ℕ) (a b : App F ScriptedSource)
      → run F scripted_source j a ≡ some b
      → run F scripted_source (j + k) a ≡ run F scripted_source k b
  unfolding run
  run-add zero k a b h =
      ap (λ n. run F scripted_source n a) (omega arith)
      ∙ ap (run F scripted_source k) (some-injective _ _ h)
  run-add (suc j) k a b h = elim (Option-cases (advance F scripted_source a)) [
    | inl fails ↦ absurd (ground (arith, fails, h))
    | inr (c, made) ↦
        ap (λ n. run F scripted_source n a) {y = suc (j + k)} (omega arith)
        ∙ run-next (j + k) a c made
        ∙ run-add j k c b (sym (run-next j a c made) ∙ h)
  ]

  module _ (script : List Item) (pause : ℕ) (delayed : 0 < pause) where
    abbrev source : ScriptedSource
    source = scripted script true pause

    -- One loop of the script.
    loop-Plays :
        (n : ℕ) (a : App F ScriptedSource)
        → a.source ≡ source
        → a.frame ≡ n * source.period
        → Plays source.period a (map (λ x. x.1) (sorted script))
    loop-Plays n a same at = run-Plays source.period a (map (λ x. x.1) (sorted script)) (
        ap (λ s. Source.Playback.play s a.frame source.period) same
        ∙ ap (λ f. Source.Playback.play source f source.period) at
        ∙ loop_plays_script script pause n delayed)

    abbrev Looped : ℕ → World → App F ScriptedSource → Type 0
    Looped n w b =
        (run F scripted_source (n * source.period) (start F w source) ≡ some b)
        × (b.world ≡ Model.run (repeated n (map (λ x. x.1) (sorted script))) w)
        × (b.source ≡ source)
        × (b.frame ≡ n * source.period)

    looped : (n : ℕ) (w : World) → (b : App F ScriptedSource) × Looped n w b
    unfolding run Model.run
    looped zero w = (
      start F w source,
      (
        ap (λ k. run F scripted_source k (start F w source)) {y = 0} (omega arith),
        refl,
        refl,
        omega arith,
      ),
    )
    looped (suc n) w =
        let es = map (λ x. x.1) (sorted script) in
        let (b, (made, world, same, at)) = looped n w in
        let (c, more, world', same', at') = loop-Plays n b same at in
        (
          c,
          (
            ap (λ k. run F scripted_source k (start F w source)) (omega arith)
                ∙ run-add (n * source.period) source.period (start F w source) b made
                ∙ more,
            world' ∙ ap (Model.run es) world ∙ sym (run-append (repeated n es) es w),
            same' ∙ same,
            at' ∙ omega arith,
          ),
        )

  -- A new app over any world, whose source is any script that loops with a pause that is not 0,
  -- plays any number n of whole loops, and its world is then what n times the events of the
  -- script, in the order in which the script is sorted, make of the world before.
  pub loops_play :
      (script : List Item) (pause n : ℕ) (w : World)
      → 0 < pause
      → let s = scripted script true pause in
        (b : App F ScriptedSource) × (run F scripted_source (n * s.period) (start F w s) ≡ some b)
        × (b.world ≡ Model.run (repeated n (map (λ x. x.1) (sorted script))) w)
  loops_play script pause n w delayed =
      let (b, (made, world, _, _)) = looped script pause delayed n w in (b, made, world)
