-- ===== src/Lib.antt =====
-- fuddy-duddy shows the system calls of a running program as an animation. A collector in C traces
-- the program and writes a line per event; the Python package parses the lines, decodes them to
-- events, paces the events onto frames, applies them to a model of the traced processes and draws
-- the model. This library models that path, from the kernel's reports to the collector up to the
-- drawing commands of a frame, with the tables and screen zones that the drawing uses.
--
-- The way of an event: the collector's loop over the reports of `waitpid` (Collector) writes lines
-- (Wire/Tracer); `parse_line` (Wire/Parse) reads a line; `push` (Decode) makes events of it and
-- names them by the table of syscall numbers (Syscalls); the live collector's thread does this
-- line by line and calls `feed` of the director (Live, Director), and the frame loop calls `poll`;
-- a demo has the scripted source (Source) in place of the director; the frame loop (App) applies
-- what was polled to the world (Model), notifies the scene and steps it (Scene), and a frame is
-- the list of commands that the scene renders of the world, which the backend (Visualizer)
-- executes. The results of syscalls are shown as Results and Errno say, in the columns of
-- Subsystems and Render.
--
-- The files, with the code that each is about:
--
--   Event: src/fuddy_duddy/event.py, with a data type for the union of the three events.
--   Model: src/fuddy_duddy/model.py. `apply` is World.apply, `apply_syscall`, `apply_exit`,
--     `apply_spawn` and `process_for` are its private methods, and `run` applies a list of events,
--     as App.step in src/fuddy_duddy/app.py does. A Process is a value that each method writes back
--     under its key. Model/Invariant has the invariant, Model/Preserve its preservation,
--     Model/Frame what events of other pids leave alone, Model/Phases what one ENTER and one EXIT
--     does, Model/Pairing an ENTER with its EXIT, Model/Outcome and Model/Completion what they
--     leave, case by case, Model/Effects and Model/Syscalls each syscall, Model/Clone spawns while
--     a syscall is pending, Model/Lifecycle exits and the adoption of the initial pid.
--   Wire: src/fuddy_duddy/wire.py. Wire/Unescape is unescape, Wire/Fields is _fields, Wire/Parse
--     is parse_line, and Wire/Parse/Order is about the order of fields. Every failure is an `err`,
--     where Python raises a ValueError. Wire/Tracer is the format strings and the escaping loop of
--     collector/tracer.c; below it stand the round trips, and in Wire/Tracer/Kept what a short
--     buffer keeps.
--   Collector: collector/tracer.c. Collector/Memory is the reading part of read_child_string,
--     with Collector/Memory/Reading about the string that it finds Collector/Memory/Bounds about
--     its reads and Collector/Memory/Rounds about the end of its loop; Collector/Stop is
--     handle_syscall_stop, with the lengths of its lines in Collector/Stop/Bounds; Collector/Loop
--     is main. A report of waitpid is a value with what ptrace and the clock answer on it, and the
--     loop's effects are a list of lines and resumptions. Collector/Loop/Observed says what reports
--     stand for, Collector/Loop/Events compares the lines with that, Collector/Loop/Resume is about
--     resumptions, Collector/Loop/Lives has the threads that live, as a step relation, and
--     Collector/Loop/Exit the end of the loop.
--   Decode: src/fuddy_duddy/decode.py. `push` is Decoder.push; `push_all` is the decoder's part
--     of LiveCollector._pump in src/fuddy_duddy/live.py. Decode/Pending is about the pending names,
--     Decode/Names about the names of numbers, Decode/Live about wire events up to the world.
--   Director: src/fuddy_duddy/director.py. The lock is held for the whole of feed and poll, so
--     any two threads make a sequence of `Step`s; `run` gives its releases with their frames.
--     Director/Fifo, Director/Spacing and Director/Drain are about order, pace and progress.
--   Live: src/fuddy_duddy/live.py. `pump` is LiveCollector._pump on the lines that it reads.
--     Live/Process is start and stop, over an interface of the system's calls. Live/Pump is about
--     any lines, Live/Openat about the lines of an openat, from the collector up to the world.
--   Floats: Python's float, as a record of a type and its operations; IsExact is what the proofs
--     use of binary64: sums, differences, products and comparisons of integers below 2^20 are
--     exact, a quotient of equal ones is 1, and one of a smaller by a larger is below 1.
--   Scene: src/fuddy_duddy/scene.py. Scene/State is notify and step, with the data in
--     Scene/State/Data, Scene/Layout the boxes of processes (_box_pids, _depth_of, _layout,
--     _box_rect), Scene/Layers the layers of render without floating point numbers, Scene/Draw the
--     others with render itself. Each _draw method is a function that returns the commands which
--     the method appends. Scene/Depth is about the walk along the parents, Scene/Rows, Scene/Cover,
--     Scene/Tree, Scene/Below and Scene/Userland about the layout, Scene/Pulse, Scene/Descent,
--     Scene/Return, Scene/Waiting, Scene/Arrival and Scene/Fading about the pulse from frame to
--     frame and what is drawn of it, Scene/Blocks and Scene/Listing about regions, descriptors and
--     boxes in a frame.
--   App: src/fuddy_duddy/app.py. `advance` is App.step, `run` so many frames, `commands` is
--     App.commands. App/Moves has the steps of the app and of the thread that feeds its director,
--     in any order; App/Replay, App/Scripted, App/Openat and App/Traced are about many frames,
--     App/Pacing about releases and the pulse, App/Safety about exceptions.
--   Main: src/fuddy_duddy/__main__.py, with `mode` for the choice in main. Main/Run is main,
--     run_demo and run_live, with the window's loop as an argument; Main/Run/Ending is about the
--     end of a live run, Main/Demo about the demo, Main/Arguments about the command line.
--     Visualizer: src/fuddy_duddy/visualizer.py, with the graphics library as a parameter;
--     Visualizer/Loop is about a frame. Visualizer/Session is PyxelBackend.run together with the
--     collector's thread, Visualizer/Session/Shown and Visualizer/Session/Traced what is shown at
--     its end.
--   Source: src/fuddy_duddy/source.py, with the stable sort of a script (Source/Sorting) and the
--     loop (Source/Playback).
--   Syscalls: src/fuddy_duddy/syscalls_x86_64.py, with `numbers` for NR; Errno:
--     src/fuddy_duddy/errno_names.py; Results: src/fuddy_duddy/results.py; Subsystems:
--     src/fuddy_duddy/subsystems.py; Render: src/fuddy_duddy/render.py.
--   Prelude, Int, Text, Dict: the parts of Python that the code uses: tests and lists, int, str
--     with split, partition and int(), bytes.decode, and dict with its insertion order. Tests holds
--     inputs at which the theorems are applied.
--
-- Numbers and texts. Pids, results and arguments are Python's unbounded integers (`ℤ` of Int, over
-- the native naturals); frames are naturals, so the director's `frame - last < gap` is written
-- `frame < last + gap`. A str is the list of its code points. The bit CLONE_THREAD of a negative
-- number is read off its two's complement. The collector's registers and times are naturals, which
-- the theorems that need it take to be below 2^64; the address arithmetic of its reads wraps at
-- 2^64, and (int) of a new pid at 2^32. Its buffer for an escape is a count of the room that is
-- left, 6144 at the start, and that for a string what has been read.
--
-- `walk` of Scene/Layout runs on fuel, a turn for each process of the world: each turn but the
-- last comes to a process of the world for the first time. `read_chunks` of Collector/Memory runs
-- on fuel, 4096 tests of the loop's condition, and is `none` where that is used up: each round but
-- the last reads a byte at least, and the buffer has room for 4095. The loop of the collector goes
-- over the list of what waitpid returns; behind the end of the list it waits. Every other loop
-- goes over a list or a text and is structural recursion. A loop of the scripted source over a
-- period of 0 frames is `none`, where Python raises ZeroDivisionError.
--
-- Frames and ages are naturals too. A lookup of a missing process in the scene is `none`, where
-- Python raises KeyError. What a mutation leaves in an object that nothing reads any more, such as
-- a pulse behind its landing, is dropped.
--
-- Not modelled. The operating system: what ptrace, waitpid and process_vm_readv answer, and what
-- subprocess and threading do, are arguments, with their documented behaviour as hypotheses; the
-- traced program itself, behind fork and exec. The graphics library: what a window shows, and when
-- the program is left, which is the length of the list of frames here. The script that generates
-- the syscall table, the fixtures and the build files. int() is modelled on ASCII text without
-- white space, and without the limit on the number of digits: a token of a line holds no white
-- space, and digits of other scripts, which Python's int() also takes, are refused here. The
-- messages of the errors are left out.
pub mod Prelude
pub mod Int
pub mod Text
pub mod Dict
pub mod Event
pub mod Model
pub mod Wire
pub mod Collector
pub mod Decode
pub mod Director
pub mod Live
pub mod Floats
pub mod Scene
pub mod Source
pub mod App
pub mod Main
pub mod Visualizer
pub mod Syscalls
pub mod Errno
pub mod Results
pub mod Subsystems
pub mod Render
mod Tests
