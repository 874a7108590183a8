-- ===== src/Director.antt =====
-- director.py: the queue that paces live events onto frames. `feed` and `poll` hold the lock for their
-- whole bodies, so the calls of the two threads are a sequence of steps in some order: a list of
-- `Step`s. Frames are counted from 0. The source tests `frame - last < gap` on Python's integers; here
-- `frame < last + gap` says the same.
pub mod Fifo
pub mod Spacing
pub mod Drain
use fuddy_duddy.Prelude.{
  ℕ, zero, suc, ◌+◌, ◌<◌, Bool, true, false, Option, none, some, List, [], ◌∷◌, ◌++◌, ltb,
  if◌then◌else◌,
}
use fuddy_duddy.Event.{Phase, Event, syscall, spawn, exited}

abbrev pub min_gap_frames : ℕ
min_gap_frames = 6

abbrev pub enter_hold_frames : ℕ
enter_hold_frames = 20

pub record Director : Type 0 where
  pub queue : List Event
  pub last_release : Option ℕ
  pub last_phase : Option Phase

-- Director.__init__
abbrev pub empty : Director
empty = record { queue = []; last_release = none; last_phase = none }

-- Director.feed
unfoldable pub feed : Event → Director → Director
feed e d = record d { queue = d.queue ++ e ∷ [] }

-- event.phase if isinstance(event, SyscallEvent) else None
unfoldable pub phase_of : Event → Option Phase
phase_of (syscall e) = some e.phase
phase_of (spawn e) = none
phase_of (exited e) = none

-- The frames to wait behind a release.
unfoldable pub gap_behind : Option Phase → ℕ
gap_behind none = min_gap_frames
gap_behind (some Phase.enter) = enter_hold_frames
gap_behind (some Phase.exit) = min_gap_frames

-- It is too early for a release.
unfoldable pub waits : ℕ → Option ℕ → Option Phase → Bool
unfolding gap_behind
waits frame none phase = false
waits frame (some last) phase = ltb frame (last + gap_behind phase)

unfoldable pub release : ℕ → Director → List Event → List Event × Director
unfolding phase_of
release frame d [] = ([], d)
release frame d (e ∷ es) =
    (e ∷ [], record { queue = es; last_release = some frame; last_phase = phase_of e })

-- Director.poll
unfoldable pub poll : ℕ → Director → List Event × Director
unfolding waits release
poll frame d = if waits frame d.last_release d.last_phase then ([], d) else release frame d d.queue

-- A call of one of the two threads.
pub data Step : Type 0 where
  feeds : Event → Step
  polls : ℕ → Step

-- What a list of events polled at one frame adds to the releases.
unfoldable pub at_frame : ℕ → List Event → List (ℕ × Event)
at_frame frame [] = []
at_frame frame (e ∷ es) = (frame, e) ∷ at_frame frame es

-- The releases of a sequence of calls, each with its frame, and the director that is left.
unfoldable pub run : List Step → Director → List (ℕ × Event) × Director
unfolding at_frame
run [] d = ([], d)
run (feeds e ∷ ss) d = run ss (feed e d)
run (polls f ∷ ss) d =
    let (es, d') = poll f d in let (rs, d'') = run ss d' in (at_frame f es ++ rs, d'')
