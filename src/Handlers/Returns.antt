-- ===== src/Handlers/Returns.antt =====
-- The handlers of runtime/tracer/events.rs for the ends of a call: a return, a yield and an unwind.
use codetracer_python_record.Prelude.{
  ℕ, Bool, true, false, Option, none, some, ◌++◌, String, Text, or_else,
}
use codetracer_python_record.Activation.{
  Code, ActivationExitKind, suspended, completed, handle_exit,
}
use codetracer_python_record.Tracer.{continue_events}
use codetracer_python_record.Values.{record_return_value_streaming}
use codetracer_python_record.Handlers.{
  World, RuntimeTracer, Handled, note_event, policy_of, object_of, value_calls, start_capture,
  end_capture, flush_pending_io, behind_gate,
}

abbrev pub leave : Code Text → ActivationExitKind → RuntimeTracer → RuntimeTracer
leave code kind t = record t {
  gate = record {
    activation = (handle_exit t.gate.activation code.id kind).0;
    filter = t.gate.filter;
  };
}

module _ {V : Type 0} (w : World) where
  abbrev pub return_from :
      Code Text → ℕ → V → Option String → ActivationExitKind → RuntimeTracer → Handled V
  return_from code now value label kind t =
      let (t', calls) = flush_pending_io w t now in
      let resolution = w.resolution code in
      let policy = policy_of resolution in
      let c =
        record_return_value_streaming policy value (or_else label (object_of resolution))
          (start_capture t' policy) in
      record {
        tracer = leave code kind (note_event (end_capture t' c));
        calls = calls ++ value_calls c.calls;
        answer = some continue_events;
      }

  unfoldable pub handle_return_edge :
      RuntimeTracer → Code Text → ℕ → V → Option String → ActivationExitKind → Bool → Handled V
  unfolding behind_gate flush_pending_io
  handle_return_edge t code now value label kind allow_disable =
      behind_gate w t code allow_disable (return_from code now value label kind)

  unfoldable pub on_py_return : RuntimeTracer → Code Text → ℕ → V → Handled V
  unfolding handle_return_edge
  on_py_return t code now value = handle_return_edge t code now value none completed true

  unfoldable pub on_py_yield : RuntimeTracer → Code Text → ℕ → V → Handled V
  unfolding handle_return_edge
  on_py_yield t code now value =
      handle_return_edge t code now value (some "<yield>") suspended false

  unfoldable pub on_py_unwind : RuntimeTracer → Code Text → ℕ → V → Handled V
  unfolding handle_return_edge
  on_py_unwind t code now value =
      handle_return_edge t code now value (some "<unwind>") completed false
