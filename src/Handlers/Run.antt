-- ===== src/Handlers/Run.antt =====
-- Histories of the tracer of runtime/tracer/events.rs, and its end, `finish` there.
use codetracer_python_record.Prelude.{
  ℕ, ℤ, Bool, true, false, not, Option, some, List, [], ◌∷◌, ◌++◌, String, Text, if◌then◌else◌, map,
}
use codetracer_python_record.Activation.{Code}
use codetracer_python_record.Tracer.{continue_events, reset}
use codetracer_python_record.Tracer.Exit.{
  ExitPayload, set_exit_code, mark_disabled, emit_session_exit,
}
use codetracer_python_record.Lifecycle.{
  WriterOp, mark_failure, require_trace_or_fail, reset_event_state, finalise,
}
use codetracer_python_record.IoCapture.Events.{IoChunk, ProxyEvent}
use codetracer_python_record.IoCapture.Batcher.{handle_enriched_event}
use codetracer_python_record.Coordinator.{teardown, capture_event}
use codetracer_python_record.Enricher.{clear_snapshots}
use codetracer_python_record.Values.{CallFrame, new_stats}
use codetracer_python_record.Handlers.{
  World, RuntimeTracer, Handled, TraceCall, register_exit, note_if, io_calls, flush_pending_io,
  on_py_start, on_py_resume, on_py_throw,
}
use codetracer_python_record.Handlers.Returns.{on_py_return, on_py_yield, on_py_unwind}
use codetracer_python_record.Handlers.Lines.{LineFrame, on_line}

-- What the tracer is called for: an event of the interpreter, what a proxy captured, the exit
-- status, and a failure.
pub data Event (V : Type 0) : Type 0 where
  py_start : Code Text → Option String → Option (CallFrame V) → Event V
  py_resume : Code Text → Event V
  line : Code Text → ℕ → ℕ → Option (LineFrame V) → ℕ → Event V
  py_return py_yield py_unwind : Code Text → ℕ → V → Event V
  py_throw : Code Text → V → Event V
  captures : ProxyEvent → Event V
  set_exit_status : Option ℤ → Event V
  notify_failure : Event V

module _ {V : Type 0} (w : World) where
  unfoldable pub handle : RuntimeTracer → Event V → Handled V
  unfolding on_py_start on_py_resume on_line on_py_return on_py_yield on_py_unwind on_py_throw
  handle t (py_start code hint frame) = on_py_start w t code hint frame
  handle t (py_resume code) = on_py_resume w t code
  handle t (line code thread_id now frame lineno) = on_line w t code thread_id now frame lineno
  handle t (py_return code now value) = on_py_return w t code now value
  handle t (py_yield code now value) = on_py_yield w t code now value
  handle t (py_unwind code now value) = on_py_unwind w t code now value
  handle t (py_throw code exception) = on_py_throw w t code exception
  handle t (captures e) = record {
    tracer = record t { io = capture_event t.io (λ b. handle_enriched_event b e) };
    calls = [];
    answer = some continue_events;
  }
  handle t (set_exit_status exit_code) = record {
    tracer = record t { session_exit = set_exit_code t.session_exit exit_code };
    calls = [];
    answer = some continue_events;
  }
  handle t notify_failure = record {
    tracer = record t {
      session_exit = mark_disabled t.session_exit;
      lifecycle = mark_failure t.lifecycle;
    };
    calls = [];
    answer = some continue_events;
  }

  -- Events in turn, with all calls on the writer.
  unfoldable pub handle_all : RuntimeTracer → List (Event V) → RuntimeTracer × List (TraceCall V)
  unfolding handle
  handle_all t [] = (t, [])
  handle_all t (e ∷ events) =
      let h = handle t e in let rest = handle_all h.tracer events in (rest.0, h.calls ++ rest.1)

  -- `RuntimeTracer::emit_session_exit`.
  unfoldable pub emit_exit : RuntimeTracer → ℕ → RuntimeTracer × List (TraceCall V)
  unfolding flush_pending_io
  emit_exit t now =
      let (t', flushed) = flush_pending_io w t now in
      let (s, payloads) = emit_session_exit t.session_exit in
      if t.session_exit.emitted then (t, []) else (
        record t' { session_exit = s },
        flushed ++ map (λ (p : ExitPayload). register_exit p) payloads,
      )

-- What `finish` does: the calls on the writer, those of the finalisation, and whether it is `Ok`.
pub record Finished (V : Type 0) : Type 0 where
  pub tracer : RuntimeTracer
  pub calls : List (TraceCall V)
  pub final : List WriterOp
  pub ok : Bool

unfoldable pub reset_tracer : RuntimeTracer → RuntimeTracer
reset_tracer t = record t {
  gate = record { activation = t.gate.activation; filter = reset t.gate.filter };
  lifecycle = reset_event_state t.lifecycle;
  stats = new_stats;
  function_ids = [];
  io = record { snapshots = clear_snapshots t.io.snapshots; pipeline = t.io.pipeline };
}

-- The writer's successes, the summary of the filter, whether partial outputs can be removed, and the
-- policy: whether a partial trace is kept, and whether a trace is required.
pub record Closing : Type 0 where
  pub succeeds : WriterOp → Bool
  pub summary : Option (List (ℕ × List ℕ))
  pub removes : Bool
  pub keep_partial_trace : Bool
  pub require_trace : Bool

module _ {V : Type 0} (w : World) where
  -- Behind the failure: the trace is kept, and errors of the finalisation are logged, or removed.
  unfoldable pub finish_failed : Closing → RuntimeTracer → List (TraceCall V) → Finished V
  unfolding reset_tracer
  finish_failed c t calls =
      if c.keep_partial_trace
      then record {
        tracer = reset_tracer t;
        calls = calls;
        final = (finalise c.succeeds c.summary).0;
        ok = true;
      }
      else record {
        tracer = if c.removes then reset_tracer t else t;
        calls = calls;
        final = [];
        ok = c.removes;
      }

  unfoldable pub finish_whole : Closing → RuntimeTracer → List (TraceCall V) → Finished V
  unfolding reset_tracer
  finish_whole c t calls =
      let (ops, done) = finalise c.succeeds c.summary in
      if not (require_trace_or_fail t.lifecycle c.require_trace)
      then record { tracer = t; calls = calls; final = []; ok = false }
      else record {
        tracer = if done then reset_tracer t else t;
        calls = calls;
        final = ops;
        ok = done;
      }

  -- `late` is what is captured while the pipeline is uninstalled.
  unfoldable pub finish : Closing → RuntimeTracer → ℕ → List IoChunk → Finished V
  unfolding finish_failed finish_whole emit_exit
  finish c t now late =
      let (io, torn, any) = teardown w.path_id_of t.io now late in
      let (t', exited) = emit_exit {V = V} w (note_if any (record t { io = io })) now in
      let calls = io_calls torn ++ exited in
      if t'.lifecycle.encountered_failure then finish_failed c t' calls else finish_whole c t' calls
