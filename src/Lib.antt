-- ===== src/Lib.antt =====
-- A verification of the core of the Python recorder in codetracer-python-recorder: the part of
-- the Rust extension that decides which events of the interpreter are recorded, captures and
-- encodes values, reconstructs assignments, captures output, writes steps, finishes a trace, and
-- reads the recorder's policy.
--
-- How the parts interact. The interpreter calls the callbacks of an installed tracer (Monitoring)
-- for events of code objects, and these the handlers (Handlers). The gate (Tracer) asks the
-- activation window (Activation) and the trace filter whether the event counts; the filter's
-- engine (FilterEngine) keeps its answers on the code objects, and derives names of modules from
-- paths (ModuleNames). Behind the gate a start captures the arguments of the call (Values), a
-- line flushes the captured output of its thread, looks up the assignments that were read off the
-- bytecode (Reconstructor), emits binds and assignments (Emission), writes a step with its column
-- (Stepping) and captures the variables (Values), and a return captures the value. Captured
-- values go through the policy of values to the encoder (Encoder). What the program prints goes
-- through proxies, is given its origin (Enricher), and comes to the batcher (IoCapture), which
-- cuts it into chunks; the coordinator (Coordinator) drains them into the trace. Native output
-- below the proxies is mirrored, less what a proxy wrote (FdMirror). The policy (Policy) says
-- which of these are on, and what happens on an error. The end of a trace is Handlers/Run and
-- Lifecycle.
--
-- Which file models what, with paths below codetracer-python-recorder/src:
--
--   IoCapture/Events           runtime/io_capture/events.rs, runtime/io_capture/sink/types.rs
--   IoCapture/Buffer           StreamBuffer of runtime/io_capture/sink/batcher.rs
--   IoCapture/Batcher          IoChunkBatcher there, and the dispatch of sink/mod.rs
--   Coordinator                runtime/tracer/io.rs, runtime/io_capture/pipeline.rs
--   Activation                 ActivationController of runtime/activation.rs
--   Policy                     policy/model.rs; Policy/Parse and Policy/Env: policy/env.rs,
--                              policy/ffi.rs
--   FdMirror                   runtime/io_capture/fd_mirror/unix.rs
--   Reconstructor/Window       the classifiers of runtime/assignment_reconstructor.rs
--   Reconstructor/Table        build_table and the cache there
--   Emission                   emit_assignment_events, build_rvalue of runtime/tracer/events.rs
--   Stepping                   the steps of on_line and read_line_lengths there
--   Encoder                    runtime/value_encoder.rs
--   Values                     runtime/value_capture.rs
--   Tracer                     runtime/tracer/filtering.rs and evaluate_gate of
--                              runtime/tracer/runtime_tracer.rs
--   Tracer/Exit                SessionExitState of runtime/tracer/runtime_tracer.rs
--   Handlers                   RuntimeTracer there, on_py_start, on_py_resume and on_py_throw of
--                              runtime/tracer/events.rs
--   Handlers/Returns           on_py_return, on_py_yield, on_py_unwind there
--   Handlers/Lines             on_line there
--   Handlers/Run               finish, set_exit_status, notify_failure there, and histories
--   FilterEngine               trace_filter/engine.rs; FilterEngine/Index:
--                              ensure_code_extra_index there, with several threads
--   ModuleNames                module_identity.rs
--   Monitoring                 monitoring/callbacks.rs, monitoring/install.rs, the calls of CPython
--                              in monitoring/mod.rs
--   Lifecycle                  runtime/tracer/lifecycle.rs
--   Enricher                   runtime/line_snapshots.rs, runtime/io_capture/mute.rs,
--                              runtime/io_capture/sink/enricher.rs
--   Prelude                    what the modules share: tests, lists, integers, texts,
--                              maps, the lossy decoding of UTF-8
--   Tests                      the theorems at concrete inputs
--
-- The modules below each of these hold its proofs. Functions and types keep the names of the
-- source; a part of a function that is a function here has a comment that says which part.
--
-- How state is modelled. A struct is a record, a method a function from the old record to the new
-- one and its result, with the calls that it makes on the trace writer as a list. A mutex that a
-- panic poisons is a flag of the batcher. A hash map is an association list, so its order of
-- iteration is the order of insertion. Python's objects live on a heap, a function from
-- identities to objects, so that a container can hold itself. Time stamps are counts of
-- nanoseconds that come with the events. Text is a list of code points where characters matter,
-- else a string; the content of an output event is the bytes of its text. Counters of 64 bits
-- wrap; ids, lines, columns and the counters of the value policy are unbounded.
--
-- Fuel. A loop that the source writes with while runs on fuel, and a theorem or the type of the
-- loop shows that the fuel is enough: the length of the payload for the lines of a buffer, the
-- length of the chunk and the number of entries for the ledger, the timeout for the wait for a
-- thread, the number of instructions for the table. The tree encoding of a value, which the
-- source does not bound, runs on a number of levels. The depth of 30 of the streaming encoding is
-- the source's own.
--
-- Parameters. The bytecode that Python's dis decodes, the trace writer and the ids it gives, the
-- classifier and the policy of values of the trace filter, the resolution and equality of paths,
-- the environment, what is read of frames, and the reads and writes of files and descriptors are
-- arguments.
--
-- Not modelled are the capture of frames from the interpreter, the formatting of minified sources
-- and the view of it that on_line registers, the injection of failures for tests, the install of
-- descriptors, log files, and the start of a session: they call the interpreter, the file system
-- or the operating system at nearly every line, or come later.
mod Prelude
pub mod IoCapture
pub mod Activation
pub mod Policy
pub mod FdMirror
pub mod Reconstructor
pub mod Emission
pub mod Tracer
pub mod Lifecycle
pub mod Enricher
pub mod Coordinator
pub mod Encoder
pub mod Values
pub mod ModuleNames
pub mod FilterEngine
pub mod Monitoring
pub mod Stepping
pub mod Handlers
mod Tests
