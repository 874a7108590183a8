-- ===== src/Visualizer/Session/Shown.antt =====
-- What a live session shows in the end.
use mathlib.Core.Path.{subst}
use mathlib.Core.Option
use fuddy_duddy.Prelude.{
  ℕ, zero, suc, ◌+◌, ◌*◌, ◌≤◌, ◌≡◌, refl, sym, ◌∙◌, ap, if_cases, if◌then◌else◌, Option, none, some,
  List, [], ◌∷◌, ◌++◌, length, length-append, append_assoc, append-nil, arith,
}
use fuddy_duddy.Text.{Str}
use fuddy_duddy.Event.{Event}
use fuddy_duddy.Floats.{Floats}
use fuddy_duddy.Wire.{WireEvent}
use fuddy_duddy.Decode.{Decoder, push, push_all}
use fuddy_duddy.Decode.Pending.{push_all-append}
use fuddy_duddy.Director.{Director, empty, poll, release, waits}
use fuddy_duddy.Director.Fifo.{poll_splits}
use fuddy_duddy.Director.Drain.{IsPast, measure, measure-le, step, empty_of_measure}
use fuddy_duddy.Model
use fuddy_duddy.Model.{World}
use fuddy_duddy.Model.Invariant.{IsValid}
use fuddy_duddy.Model.Preserve.{run-IsValid}
use fuddy_duddy.Live.{LiveCollector, pump}
use fuddy_duddy.Live.Pump.{wires, pump_decodes}
use fuddy_duddy.App.{App, start, director_source, play, advance, commands}
use fuddy_duddy.App.Replay.{run-append, show-world}
use fuddy_duddy.App.Safety.{render_total}
use fuddy_duddy.Visualizer.{Pyxel, execute_all, update, draw, frame, color_black}
use fuddy_duddy.Visualizer.Session.{receive, session, quiet}

-- The wire events of all lines of the batches, in their order.
unfoldable pub wires_of : List (List Str) → List WireEvent
wires_of [] = []
wires_of (lines ∷ batches) = wires lines ++ wires_of batches

abbrev decoded : List WireEvent → List Event
decoded ws = (push_all ws []).0

push_all-append_state :
    (es fs : List WireEvent) (d : Decoder)
    → (push_all (es ++ fs) d).1 ≡ (push_all fs (push_all es d).1).1
unfolding push_all
push_all-append_state [] fs d = refl
push_all-append_state (e ∷ es) fs d = push_all-append_state es fs (push e d).1

later : (f : ℕ) (last : Option ℕ) → IsPast f last → IsPast (suc f) last
later f none h = tt
later f (some last) h = omega arith

release-IsPast :
    (f : ℕ) (d : Director) (es : List Event)
    → IsPast f d.last_release
    → IsPast (suc f) (release f d es).1.last_release
unfolding release
release-IsPast f d [] h = later f d.last_release h
release-IsPast f d (e ∷ es) h = omega arith

poll-IsPast :
    (f : ℕ) (d : Director) → IsPast f d.last_release → IsPast (suc f) (poll f d).1.last_release
unfolding poll
poll-IsPast f d h =
    if_cases (λ (r : List Event × Director). IsPast (suc f) r.1.last_release)
      (waits f d.last_release d.last_phase) _ _ (λ _. later f d.last_release h)
      (λ _. release-IsPast f d d.queue h)

module _ (P : Pyxel) (F : Floats) where
  -- What a session keeps, after the wire events `ws` and from the world `w`.
  record IsBehind (w : World) (ws : List WireEvent) (d : Decoder) (a : App F Director)
      : Type 0 where
    pub decoder_left : d ≡ (push_all ws []).1
    pub to_come : Model.run a.source.queue a.world ≡ Model.run (decoded ws) w
    pub short : length a.source.queue ≤ length (decoded ws)
    pub past : IsPast a.frame a.source.last_release
    pub valid : IsValid a.world

  receive-IsBehind :
      (w : World) (ws : List WireEvent) (d : Decoder) (a : App F Director) (lines : List Str)
      → IsBehind w ws d a
      → IsBehind w (ws ++ wires lines) (receive F lines d a).0 (receive F lines d a).1
  unfolding receive
  receive-IsBehind w ws d a lines h =
      let es = (push_all (wires lines) d).0 in
      let here : LiveCollector = record { decoder = d; director = a.source } in
      let read = pump_decodes lines here in
      let queued : (pump lines here).director.queue ≡ a.source.queue ++ es =
        ap (λ c. c.director.queue) read in
      let all : decoded (ws ++ wires lines) ≡ decoded ws ++ es =
        push_all-append ws (wires lines) []
        ∙ ap (λ e. decoded ws ++ (push_all (wires lines) e).0) (sym h.decoder_left) in
      record {
        decoder_left =
            ap (λ c. c.decoder) read
            ∙ ap (λ e. (push_all (wires lines) e).1) h.decoder_left
            ∙ sym (push_all-append_state ws (wires lines) []);
        to_come =
            ap (λ q. Model.run q a.world) queued
            ∙ run-append a.source.queue es a.world
            ∙ ap (Model.run es) h.to_come
            ∙ sym (run-append (decoded ws) es w)
            ∙ ap (λ q. Model.run q w) (sym all);
        short =
            rw (queued, all)
              (omega
                (arith, length-append a.source.queue es, length-append (decoded ws) es, h.short));
        past = subst (IsPast a.frame) (sym (ap (λ c. c.director.last_release) read)) h.past;
        valid = h.valid;
      }

  -- A frame of an app with a valid world.
  frame_goes :
      (a : App F Director) (s : P.Screen)
      → IsValid a.world
      → (c : App F Director) × (t : P.Screen) × (frame P F director_source a s ≡ some (c, t))
        × (c.world ≡ Model.run (poll a.frame a.source).0 a.world)
        × (c.source ≡ (poll a.frame a.source).1)
        × (c.frame ≡ suc a.frame)
  unfolding frame update draw advance commands play
  frame_goes a s h =
      let polled = poll a.frame a.source in
      let b = play F director_source polled a in
      let shown : b.world ≡ Model.run polled.0 a.world = show-world F polled.0 a.world a.scene in
      let (drawn, made) =
        render_total F b.world b.scene
          (subst IsValid (sym shown) (run-IsValid polled.0 a.world h)) in
      let painted : commands F director_source b ≡ some (drawn.0, record b { scene = drawn.1 }) =
        ap (Option.map (λ q. (q.0, record b { scene = q.1 }))) made in
      (
        record b { scene = drawn.1 },
        execute_all P drawn.0 (P.cls color_black (if P.is_q_pressed s then P.quit s else s)),
        rw (painted, frame) refl,
        shown,
        refl,
        refl,
      )

  frame-IsBehind :
      (w : World) (ws : List WireEvent) (d : Decoder) (a c : App F Director)
      → IsBehind w ws d a
      → c.world ≡ Model.run (poll a.frame a.source).0 a.world
      → c.source ≡ (poll a.frame a.source).1
      → c.frame ≡ suc a.frame
      → IsBehind w ws d c
  frame-IsBehind w ws d a c h world source frame =
      let polled = poll a.frame a.source in
      let split = poll_splits a.frame a.source in
      record {
        decoder_left = h.decoder_left;
        to_come =
            ap (λ q. Model.run q.queue c.world) source
            ∙ ap (Model.run polled.1.queue) world
            ∙ sym (run-append polled.0 polled.1.queue a.world)
            ∙ ap (λ q. Model.run q a.world) split
            ∙ h.to_come;
        short =
            rw source
              (omega (arith, length-append polled.0 polled.1.queue, ap length split, h.short));
        past = rw (source, frame) (poll-IsPast a.frame a.source h.past);
        valid = subst IsValid (sym world) (run-IsValid polled.0 a.world h.valid);
      }

  Ends : World → List WireEvent → List (List Str) → Decoder → App F Director → P.Screen → Type 0
  Ends w ws batches d a s =
      (r : Decoder × App F Director × P.Screen) × (session P F batches d a s ≡ some r)
      × (r.1.world ≡ Model.run (decoded ws) w)
      × (r.1.source.queue ≡ [])

  -- A frame of a session.
  session_frame :
      (w : World) (ws : List WireEvent) (lines : List Str) (batches : List (List Str)) (d : Decoder)
      (a c : App F Director) (s t : P.Screen)
      → frame P F director_source (receive F lines d a).1 s ≡ some (c, t)
      → Ends w ws batches (receive F lines d a).0 c t
      → Ends w ws (lines ∷ batches) d a s
  unfolding session Ends
  session_frame w ws lines batches d a c s t made (r, goes, world, queue) = (
    r,
    ap
          (λ o. elim o as (λ _. Option (Decoder × App F Director × P.Screen)) [
            | none ↦ none
            | some q ↦ session P F batches (receive F lines d a).0 q.0 q.1
          ])
          made
        ∙ goes,
    world,
    queue,
  )

  session_quiet :
      (w : World) (ws : List WireEvent) (k : ℕ) (d : Decoder) (a : App F Director) (s : P.Screen)
      → IsBehind w ws d a
      → measure a.frame a.source.last_release a.source.last_phase a.source.queue ≤ k
      → Ends w ws (quiet k) d a s
  unfolding quiet receive pump
  session_quiet w ws zero d a s h m =
      let done =
        empty_of_measure a.frame a.source.last_release a.source.last_phase a.source.queue m in
      unfold session Ends Model.run in
      ((d, a, s), refl, sym (ap (λ q. Model.run q a.world) done) ∙ h.to_come, done)
  session_quiet w ws (suc k) d a s h m =
      let (c, t, made, world, source, count) = frame_goes a s h.valid in
      let less : measure c.frame c.source.last_release c.source.last_phase c.source.queue ≤ k =
        rw (source, count) (step a.frame k a.source m) in
      session_frame w ws [] (quiet k) d a c s t made
        (session_quiet w ws k d c t (frame-IsBehind w ws d a c h world source count) less)

  session-Ends :
      (w : World) (batches : List (List Str)) (ws vs : List WireEvent) (k : ℕ) (d : Decoder)
      (a : App F Director) (s : P.Screen)
      → ws ++ wires_of batches ≡ vs
      → IsBehind w ws d a
      → 20 * length (decoded vs) + 1 ≤ k
      → Ends w vs (batches ++ quiet k) d a s
  unfolding wires_of
  session-Ends w [] ws vs k d a s e h enough =
      let same : ws ≡ vs = sym (append-nil ws) ∙ e in
      let h' : IsBehind w vs d a = subst (λ us. IsBehind w us d a) same h in
      session_quiet w vs k d a s h' (
        omega (
          arith,
          measure-le a.frame a.source.last_release a.source.last_phase a.source.queue h.past,
          h'.short,
        ))
  session-Ends w (lines ∷ batches) ws vs k d a s e h enough =
      let (d', a') = receive F lines d a in
      let after = receive-IsBehind w ws d a lines h in
      let (c, t, made, world, source, count) = frame_goes a' s after.valid in
      session_frame w vs lines (batches ++ quiet k) d a c s t made (
        session-Ends w batches (ws ++ wires lines) vs k d' c t
          (append_assoc ws (wires lines) (wires_of batches) ∙ e)
          (frame-IsBehind w (ws ++ wires lines) d' a' c after world source count) enough)

  begins : (w : World) → IsValid w → IsBehind w [] [] (start F w empty)
  unfolding push_all Model.run
  begins w h = record {
    decoder_left = refl;
    to_come = refl;
    short = omega arith;
    past = tt;
    valid = h;
  }

  -- A session of batches of lines, one before each frame, and then of at least 20 n + 1 frames without
  -- a line, for the n events that the lines decode to, goes on without an exception, and shows at
  -- its end what these events, in the order of the lines, make of the world.
  pub session_shows :
      (w : World) (batches : List (List Str)) (k : ℕ) (s : P.Screen)
      → IsValid w
      → let es = (push_all (wires_of batches) []).0 in
        20 * length es + 1 ≤ k
        → (r : Decoder × App F Director × P.Screen) × (session P F
              (batches ++ quiet k)
              []
              (start F w empty)
              s
            ≡ some r)
          × (r.1.world ≡ Model.run es w)
          × (r.1.source.queue ≡ [])
  unfolding Ends
  session_shows w batches k s h enough =
      session-Ends w batches [] (wires_of batches) k [] (start F w empty) s refl (begins w h) enough
