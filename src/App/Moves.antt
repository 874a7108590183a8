-- ===== src/App/Moves.antt =====
-- An app with a director that another thread feeds: the steps that the two threads may take.
use mathlib.Core.Path.{subst}
use mathlib.Core.Option
use mathlib.Core.Option.{some-injective}
use fuddy_duddy.Prelude.{ℕ, zero, suc, ◌≡◌, sym, ◌∙◌, ap, Option-cases, inl, inr, some, List, arith}
use fuddy_duddy.Event.{Event}
use fuddy_duddy.Floats.{Floats}
use fuddy_duddy.Director.{Director, feed}
use fuddy_duddy.Render.{Command}
use fuddy_duddy.Scene.State.{Scene}
use fuddy_duddy.Scene.Draw.{render}
use fuddy_duddy.App.{App, director_source, advance, run, commands}

module _ (F : Floats) where
  -- The other thread feeds an event, a frame is played, a frame is drawn.
  pub data Move : App F Director → App F Director → Type 0 where
    feeds : (a : App F Director) (e : Event) → Move a (record a { source = feed e a.source })
    plays : {a b : App F Director} → advance F director_source a ≡ some b → Move a b
    draws :
        {a b : App F Director} (cs : List Command)
        → commands F director_source a ≡ some (cs, b)
        → Move a b

  pub data Reach (a : App F Director) : App F Director → Type 0 where
    here : Reach a a
    next : {b c : App F Director} → Reach a b → Move b c → Reach a c

  -- A frame that is drawn changes the scene alone, by `render`.
  pub drawn_by_render :
      (a b : App F Director) (cs : List Command)
      → commands F director_source a ≡ some (cs, b)
      → (cs' : List Command) × (s : Scene F) × (render F a.world a.scene ≡ some (cs', s))
        × (record a { scene = s } ≡ b)
  unfolding commands
  drawn_by_render a b cs drawn = elim (Option-cases (render F a.world a.scene)) [
    | inl fails ↦ absurd (ground (arith, drawn, fails))
    | inr ((cs', s), made) ↦
        let same : (cs', record a { scene = s }) ≡ (cs, b) =
          some-injective _ _
            (sym (ap (Option.map (λ r. (r.0, record a { scene = r.1 }))) made) ∙ drawn) in
        (cs', s, made, ap (λ r. r.1) same)
  ]

  Reach-trans : {a b c : App F Director} → Reach a b → Reach b c → Reach a c
  Reach-trans r here = r
  Reach-trans r (next r' m) = next (Reach-trans r r') m

  -- Frames in a row.
  pub run-Reach : (k : ℕ) (a b : App F Director) → run F director_source k a ≡ some b → Reach a b
  unfolding run
  run-Reach zero a b h = subst (Reach a) (some-injective _ _ h) here
  run-Reach (suc k) a b h = elim (Option-cases (advance F director_source a)) [
    | inl fails ↦ absurd (ground (arith, fails, h))
    | inr (c, made) ↦
        Reach-trans (next here (plays made)) (run-Reach k c b (ground (arith, made, h)))
  ]
