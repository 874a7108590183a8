-- ===== src/Director/Fifo.antt =====
-- The order of the director's releases.
use fuddy_duddy.Prelude.{
  ◌≡◌, refl, sym, ◌∙◌, ap, ℕ, List, [], ◌∷◌, ◌++◌, map, append-nil, append_assoc, arith, ◌≤◌,
  length,
}
use fuddy_duddy.Event.{Event}
use fuddy_duddy.Director.{Director, feed, poll, release, at_frame, run, Step, feeds, polls}

-- The events of the calls of `feed`.
abbrev pub fed : List Step → List Event
fed [] = []
fed (feeds e ∷ ss) = e ∷ fed ss
fed (polls f ∷ ss) = fed ss

abbrev pub events : List (ℕ × Event) → List Event
events = map (λ r. r.1)

pub events-append :
    (rs : List (ℕ × Event)) (ss : List (ℕ × Event)) → events (rs ++ ss) ≡ events rs ++ events ss
events-append [] ss = refl
events-append (r ∷ rs) ss = ap (◌∷◌ r.1) (events-append rs ss)

pub events-at_frame : (f : ℕ) (es : List Event) → events (at_frame f es) ≡ es
unfolding at_frame
events-at_frame f [] = refl
events-at_frame f (e ∷ es) = ap (◌∷◌ e) (events-at_frame f es)

release_splits :
    (f : ℕ) (d : Director) (es : List Event)
    → d.queue ≡ es
    → (release f d es).0 ++ (release f d es).1.queue ≡ es
unfolding release
release_splits f d [] h = h
release_splits f d (e ∷ es) h = refl

-- A poll takes its events from the front of the queue.
pub poll_splits : (f : ℕ) (d : Director) → (poll f d).0 ++ (poll f d).1.queue ≡ d.queue
unfolding poll
poll_splits f d = ground (arith, release_splits f d d.queue refl)

pub length-poll : (f : ℕ) (d : Director) → length (poll f d).0 ≤ 1
unfolding poll release
length-poll f d = ground arith

-- For every sequence of calls of `feed` and `poll` on every director, the events released,
-- followed by the events still queued, are the events queued at the start, followed by the events
-- fed, in this order: none is lost, doubled or overtaken.
pub run_fifo :
    (ss : List Step) (d : Director) → events (run ss d).0 ++ (run ss d).1.queue ≡ d.queue ++ fed ss
unfolding run feed
run_fifo [] d = sym (append-nil d.queue)
run_fifo (feeds e ∷ ss) d = run_fifo ss (feed e d) ∙ append_assoc d.queue (e ∷ []) (fed ss)
run_fifo (polls f ∷ ss) d =
    let d' = (poll f d).1 in
    let es = (poll f d).0 in
    ap (λ out. out ++ (run ss d').1.queue)
      (events-append (at_frame f es) (run ss d').0
        ∙ ap (λ out. out ++ events (run ss d').0) (events-at_frame f es))
    ∙ append_assoc es (events (run ss d').0) (run ss d').1.queue
    ∙ ap (λ out. es ++ out) (run_fifo ss d')
    ∙ sym (append_assoc es d'.queue (fed ss))
    ∙ ap (λ out. out ++ fed ss) (poll_splits f d)
