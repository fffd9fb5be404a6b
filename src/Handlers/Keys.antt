-- ===== src/Handlers/Keys.antt =====
-- The key of the last call in runtime/tracer/events.rs, against the calls that were registered.
pub mod Calls
use codetracer_python_record.Prelude.{
  pos, negsuc, ◌+ℤ◌, ◌≡◌, subst, map, one_of, not, ◌&&◌, Bool-cases,
}
use codetracer_python_record.Coordinator.{IoCall, flush_all_io, flush_before_step_io}
use codetracer_python_record.Stepping.{StepCall}
use codetracer_python_record.Emission
use codetracer_python_record.Values
use codetracer_python_record.Values.{ValuePolicy}
use codetracer_python_record.Handlers.{
  RuntimeTracer, Handled, io_call, value_call, assignment_call, step_call, ensure_path_id,
  register_path_with_line_lengths, register_exit, io_calls, known_function_id, gated, note_if,
}
use codetracer_python_record.Handlers.Lines.{emit_lines}
use codetracer_python_record.Handlers.Keys.Calls.{
  registered_calls, io_none, assignments_none, note_if_key,
}

module _ {V : Type 0} where
  -- The key moves on by the calls that are registered.
  abbrev Counts : RuntimeTracer → Handled V → Type 0
  Counts t h = h.tracer.last_call_key ≡ t.last_call_key +ℤ pos (registered_calls h.calls)
