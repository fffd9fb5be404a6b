-- ===== src/Coordinator.antt =====
-- What the tracer does with captured output: `IoCoordinator` of runtime/tracer/io.rs and the buffer
-- between the sink and it, `IoChunkBuffer` of runtime/io_capture/pipeline.rs. The trace writer's id
-- for a path is a parameter; the content of an event is the bytes of its text. The sink never panics (module IoCapture.Batcher.Flush), so its flag is not looked at. What the mirror
-- still hands over while it is shut down is an argument.
pub mod Ends
use codetracer_python_record.Prelude.{
  ℕ, ℤ, Bool, true, false, ◌||◌, Option, none, some, List, [], ◌∷◌, ◌++◌, String, if◌then◌else◌,
  or_else, is_empty, not, from_utf8_lossy,
}
use codetracer_python_record.IoCapture.Events.{
  IoStream, stdout, stderr, stdin, IoChunk, IoChunkFlags, newline_terminated, explicit_flush,
  step_boundary, time_split, input_chunk, fd_mirror,
}
use codetracer_python_record.IoCapture.Batcher.{
  Batcher, Ran, empty, Call, recorded, stepping, draining, flush_before_step, flush_all,
  handle_enriched_event,
}
use codetracer_python_record.Enricher.{
  LineSnapshot, LineSnapshotStore, snapshot_for_thread, record_snapshot, clear_snapshots,
}

-- `EventLogKind`, of the three kinds in use.
pub data EventLogKind : Type 0 where
  write_event write_other_event read_event : EventLogKind

-- `IoEventMetadata`, before it is serialised.
pub record IoEventMetadata : Type 0 where
  pub stream : IoStream
  pub thread : ℕ
  pub path_id : Option ℕ
  pub line : Option ℤ
  pub frame_id : Option ℕ
  pub labels : List String

-- A call on the trace writer.
pub data IoCall : Type 0 where
  ensure_path_id : String → IoCall
  register_special_event : EventLogKind → IoEventMetadata → List ℕ → IoCall

-- `IoCapturePipeline`: the sink, and the chunks that wait in the buffer.
pub record IoCapturePipeline : Type 0 where
  pub sink : Batcher
  pub queue : List IoChunk

pub record IoCoordinator : Type 0 where
  pub snapshots : LineSnapshotStore
  pub pipeline : Option IoCapturePipeline

unfoldable pub new_coordinator : IoCoordinator
new_coordinator = record { snapshots = []; pipeline = none }

-- `install` with what `IoCapturePipeline::install` answers: a pipeline if the proxies are asked for.
unfoldable pub install : IoCoordinator → Bool → IoCoordinator
install io line_proxies = record io {
  pipeline = if line_proxies then some (record { sink = empty; queue = [] }) else none;
}

-- `consume`, for all chunks that a call of the sink hands over.
unfoldable pub consume : IoCapturePipeline → Ran → IoCapturePipeline
consume p r = record { sink = r.batcher; queue = p.queue ++ r.sent }

-- Each chunk has one flag.
unfoldable pub flag_labels : IoChunkFlags → List String
flag_labels newline_terminated = "newline" ∷ []
flag_labels explicit_flush = "flush" ∷ []
flag_labels step_boundary = "step_boundary" ∷ []
flag_labels time_split = "time_split" ∷ []
flag_labels input_chunk = "input" ∷ []
flag_labels fd_mirror = "mirror" ∷ []

abbrev pub kind_of : IoStream → EventLogKind
kind_of stdout = write_event
kind_of stderr = write_other_event
kind_of stdin = read_event

abbrev pub snapshot_path : Option LineSnapshot → Option ℕ
snapshot_path none = none
snapshot_path (some s) = some s.path_id

abbrev pub snapshot_line : Option LineSnapshot → Option ℤ
snapshot_line none = none
snapshot_line (some s) = some s.line

abbrev pub snapshot_frame : Option LineSnapshot → Option ℕ
snapshot_frame none = none
snapshot_frame (some s) = some s.frame_id

unfoldable pub build_metadata : LineSnapshotStore → IoChunk → Option ℕ → IoEventMetadata
unfolding flag_labels snapshot_for_thread
build_metadata store chunk path_id =
    let snapshot = snapshot_for_thread store chunk.thread_id in
    record {
      stream = chunk.stream;
      thread = chunk.thread_id;
      path_id = or_else path_id (snapshot_path snapshot);
      line = or_else chunk.line (snapshot_line snapshot);
      frame_id = or_else chunk.frame_id (snapshot_frame snapshot);
      labels = flag_labels chunk.flags;
    }

-- A proxy's event, as the sink gets it.
unfoldable pub capture_event : IoCoordinator → (Batcher → Ran) → IoCoordinator
unfolding consume
capture_event io handle = elim io.pipeline [
  | none ↦ io
  | some p ↦ record io { pipeline = some (consume p (handle p.sink)) }
]

-- What happens to a coordinator: calls of the sink, those of the tracer with what they record, and
-- new positions of threads.
pub data IoStep : Type 0 where
  sink_call : Call → IoStep
  locates : ℕ → ℕ → ℤ → ℕ → IoStep

module _ (path_id_of : String → ℕ) where
  -- The path id of a chunk that has only a path is asked for.
  abbrev pub locate : Option ℕ → Option String → Option ℕ × List IoCall
  locate (some id) path = (some id, [])
  locate none none = (none, [])
  locate none (some path) = (some (path_id_of path), ensure_path_id path ∷ [])

  unfoldable pub record_chunk : LineSnapshotStore → IoChunk → List IoCall
  unfolding build_metadata from_utf8_lossy
  record_chunk store chunk =
      let (path_id, calls) = locate chunk.path_id chunk.path in
      calls
      ++ (register_special_event (kind_of chunk.stream) (build_metadata store chunk path_id)
            (from_utf8_lossy chunk.payload)
          ∷ [])

  unfoldable pub record_chunks : LineSnapshotStore → List IoChunk → List IoCall
  unfolding record_chunk
  record_chunks store [] = []
  record_chunks store (chunk ∷ chunks) = record_chunk store chunk ++ record_chunks store chunks

  -- `drain_chunks`: the buffer is taken whole; the flag says whether something was recorded.
  unfoldable pub drain_chunks :
      LineSnapshotStore → IoCapturePipeline → IoCapturePipeline × List IoCall × Bool
  unfolding record_chunks
  drain_chunks store p =
      (record p { queue = [] }, record_chunks store p.queue, not (is_empty p.queue))

  -- A flush of the sink, and what it brings to the trace.
  abbrev pub flushed : IoCoordinator → (Batcher → Ran) → IoCoordinator × List IoCall × Bool
  flushed io flush = elim io.pipeline [
    | none ↦ (io, [], false)
    | some p ↦
        let (p', calls, any) = drain_chunks io.snapshots (consume p (flush p.sink)) in
        (record io { pipeline = some p' }, calls, any)
  ]

  unfoldable pub flush_before_step_io : IoCoordinator → ℕ → ℕ → IoCoordinator × List IoCall × Bool
  unfolding drain_chunks consume
  flush_before_step_io io thread_id now = flushed io (λ b. flush_before_step b thread_id now)

  unfoldable pub flush_all_io : IoCoordinator → ℕ → IoCoordinator × List IoCall × Bool
  unfolding drain_chunks consume
  flush_all_io io now = flushed io (λ b. flush_all b now)

  -- `late` is what comes to the buffer while the pipeline is uninstalled.
  unfoldable pub teardown : IoCoordinator → ℕ → List IoChunk → IoCoordinator × List IoCall × Bool
  unfolding drain_chunks consume
  teardown io now late = elim io.pipeline [
    | none ↦ (io, [], false)
    | some p ↦
        let (p', calls, any) = drain_chunks io.snapshots (consume p (flush_all p.sink now)) in
        let (p'', more, any') =
          drain_chunks io.snapshots (record p' { queue = p'.queue ++ late }) in
        (record io { pipeline = none }, calls ++ more, any || any')
  ]

  unfoldable pub io_step : IoCoordinator → IoStep → IoCoordinator × List IoCall
  unfolding capture_event flush_before_step_io flush_all_io
  io_step io (sink_call (recorded e)) = (capture_event io (λ b. handle_enriched_event b e), [])
  io_step io (sink_call (stepping thread_id now)) =
      let r = flush_before_step_io io thread_id now in (r.0, r.1)
  io_step io (sink_call (draining now)) = let r = flush_all_io io now in (r.0, r.1)
  io_step io (locates thread_id path_id line frame_id) =
      (record io { snapshots = record_snapshot io.snapshots thread_id path_id line frame_id }, [])

  unfoldable pub io_run : IoCoordinator → List IoStep → IoCoordinator × List IoCall
  unfolding io_step
  io_run io [] = (io, [])
  io_run io (s ∷ steps) =
      let (io', calls) = io_step io s in let rest = io_run io' steps in (rest.0, calls ++ rest.1)
