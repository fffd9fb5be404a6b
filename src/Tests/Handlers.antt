-- ===== src/Tests/Handlers.antt =====
-- The theorems on the handlers of the tracer at concrete inputs.
use codetracer_python_record.Prelude.{
  ℕ, pos, ◌≡◌, refl, true, false, none, some, List, [], ◌∷◌, Text, codes, text_eq, member, trim,
  trim_end, trim_start, is_whitespace, lookup,
}
use codetracer_python_record.Activation.{
  Code, ActivationController, should_process_event, ensure_started, resume_if_needed,
}
use codetracer_python_record.Tracer.{
  new_filter, evaluate_gate, decide, set_module_name_hint, is_real_filename,
}
use codetracer_python_record.Stepping.{write_step}
use codetracer_python_record.Tracer.Exit.{emit_session_exit}
use codetracer_python_record.Lifecycle.{require_trace_or_fail, finalise, publish_filter_provenance}
use codetracer_python_record.Coordinator.{
  teardown, new_coordinator, flush_all_io, flush_before_step_io,
}
use codetracer_python_record.Values.{
  CallFrame, capture_call_arguments, record_visible_scope_streaming, record_return_value_streaming,
}
use codetracer_python_record.Handlers.{World, RuntimeTracer, new_tracer, flush_pending_io}
use codetracer_python_record.Handlers.Lines.{LineFrame, register_path}
use codetracer_python_record.Handlers.Run.{
  Event, py_start, line, py_return, set_exit_status, handle_all, Closing, finish,
}
use codetracer_python_record.Handlers.Silence.{IsWaiting, handle_all-IsWaiting}
use codetracer_python_record.Handlers.Keys.Calls.{registered_calls}
use codetracer_python_record.Handlers.Finish.{IsReset, finish-IsReset}

abbrev world : World
world = record {
  same_path = text_eq;
  resolution = λ code. none;
  path_id_of = λ path. 1;
  variable_id_of = λ name. 2;
  new_function_id = λ code. some 3;
  decoded = λ id. none;
  read_file = λ path. none;
}

abbrev main_code : Code Text
main_code = record { id = 1; filename = some (codes "main.py") }

abbrev library_code : Code Text
library_code = record { id = 2; filename = some (codes "lib.py") }

abbrev call_frame : CallFrame ℕ
call_frame = record {
  argcount = 0;
  kwonly = 0;
  varargs = false;
  varkeywords = false;
  varnames = [];
  locals = λ name. none;
}

abbrev line_frame : LineFrame ℕ
line_frame = record {
  frame_ptr = 7;
  path_id = 1;
  snapshot = record { locals = (some "x", 1) ∷ []; globals = none; locals_is_globals = true };
}

abbrev waiting : ActivationController Text
waiting = record {
  activation_path = some (codes "main.py");
  activation_code_id = none;
  activation_done = false;
  started = false;
  is_suspended = false;
}

abbrev tracer : RuntimeTracer
tracer = new_tracer waiting (new_filter none) true

abbrev calls_of : Code Text → List (Event ℕ)
calls_of code =
    py_start code (some "m") (some call_frame)
    ∷ line code 1 10 (some line_frame) 4
    ∷ py_return code 11 9
    ∷ set_exit_status (some (pos 0))
    ∷ []

handle_all-IsWaiting_example :
    ((handle_all world tracer (calls_of library_code)).1 ≡ [])
    × IsWaiting
        (codes "main.py")
        (handle_all world tracer (calls_of library_code)).0.gate.activation
unfolding new_tracer
handle_all-IsWaiting_example =
    handle_all-IsWaiting world (codes "main.py") tracer (calls_of library_code) (refl, refl)
      (refl, (refl, (refl, (tt, tt))))

-- One call of the traced program.
main_calls : registered_calls (handle_all world tracer (calls_of main_code)).1 ≡ 1
unfolding handle_all new_tracer evaluate_gate decide member set_module_name_hint is_real_filename
    trim trim_end trim_start is_whitespace should_process_event ensure_started resume_if_needed
    capture_call_arguments lookup flush_before_step_io flush_all_io register_path write_step
    record_visible_scope_streaming record_return_value_streaming new_coordinator
main_calls = refl

abbrev closing : Closing
closing = record {
  succeeds = λ op. true;
  summary = none;
  removes = true;
  keep_partial_trace = false;
  require_trace = false;
}

finish-IsReset_example : IsReset (finish {V = ℕ} world closing tracer 12 []).tracer
unfolding finish new_tracer teardown new_coordinator flush_pending_io flush_all_io emit_session_exit
    require_trace_or_fail finalise publish_filter_provenance
finish-IsReset_example = finish-IsReset ℕ world closing tracer 12 [] refl
