-- ===== src/Handlers.antt =====
-- The tracer and its handlers of interpreter events: `RuntimeTracer` of runtime/tracer/runtime_tracer.rs
-- and the `Tracer` implementation of runtime/tracer/events.rs. The parts are the modelled ones: the
-- gate, the lifecycle, the IO, the values, the assignments, the steps and the exit. What comes from
-- outside (the interpreter, the files, the trace filter's resolution, the ids of the trace writer) is a
-- `World`. The injection of failures, which test builds compile, log messages and the formatted view
-- of a source are left out.
pub mod Returns
pub mod Lines
pub mod Run
pub mod Keys
pub mod Silence
pub mod Finish
use codetracer_python_record.Prelude.{
  ℕ, ◌+◌, ℤ, pos, negsuc, ◌+ℤ◌, Bool, true, false, not, ◌&&◌, ◌||◌, Option, none, some, List, [],
  ◌∷◌, ◌++◌, String, Text, if◌then◌else◌, lookup, insert, map, unwrap_or,
}
use codetracer_python_record.Activation.{Code, ActivationController}
use codetracer_python_record.Tracer.{
  GateState, evaluate_gate, CallbackOutcome, continue_events, set_module_name_hint,
  FilterCoordinator, reset,
}
use codetracer_python_record.Tracer.Exit.{
  SessionExitState, ExitPayload, default_exit, set_exit_code, mark_disabled, emit_session_exit,
}
use codetracer_python_record.Lifecycle.{
  LifecycleController, new_lifecycle, mark_event, mark_failure,
}
use codetracer_python_record.IoCapture.Events.{IoChunk}
use codetracer_python_record.Coordinator.{
  IoCoordinator, IoCall, new_coordinator, flush_all_io, flush_before_step_io,
}
use codetracer_python_record.Reconstructor.Window.{DecodedInstruction}
use codetracer_python_record.Reconstructor.Table.{AssignmentReconstructor}
use codetracer_python_record.Stepping.{StepState, StepCall}
use codetracer_python_record.Values
use codetracer_python_record.Values.{
  ValuePolicy, ValueFilterStats, new_stats, Encoded, Capture, new_capture, CallFrame, Arguments,
  args, missing_positional, missing_keyword, capture_call_arguments, encode_named_argument,
}
use codetracer_python_record.Emission

-- What `cached_resolution` answers: the policy of values and the name of the object.
pub record ScopeResolution : Type 0 where
  pub value_policy : ValuePolicy
  pub object_name : Option String

pub record World : Type 0 where
  pub same_path : Text → Text → Bool
  pub resolution : Code Text → Option ScopeResolution
  pub path_id_of : String → ℕ
  pub variable_id_of : String → ℕ
  pub new_function_id : Code Text → Option ℕ
  pub decoded : ℕ → Option (List DecodedInstruction)
  pub read_file : Text → Option (List ℕ)

-- Without the writer, whose calls are listed, the format, and the encoder, which holds no state
-- between values.
pub record RuntimeTracer : Type 0 where
  pub gate : GateState
  pub lifecycle : LifecycleController
  pub function_ids : List (ℕ × ℕ)
  pub io : IoCoordinator
  pub stats : ValueFilterStats
  pub assignment_reconstructor : AssignmentReconstructor
  pub frame_bound_names : List (ℕ × List String)
  pub steps : StepState
  pub paths_with_line_lengths : List Text
  pub last_call_key : ℤ
  pub session_exit : SessionExitState

-- `RuntimeTracer::new`, with columns if the format is CTFS.
unfoldable pub new_tracer : ActivationController Text → FilterCoordinator → Bool → RuntimeTracer
unfolding new_coordinator
new_tracer activation filter column_aware = record {
  gate = record { activation = activation; filter = filter };
  lifecycle = new_lifecycle;
  function_ids = [];
  io = new_coordinator;
  stats = new_stats;
  assignment_reconstructor = [];
  frame_bound_names = [];
  steps = record {
    column_aware = column_aware;
    last_line_per_frame = [];
    last_column_per_frame = [];
  };
  paths_with_line_lengths = [];
  last_call_key = negsuc 0;
  session_exit = default_exit;
}

-- A call on the trace writer.
pub data TraceCall (V : Type 0) : Type 0 where
  io_call : IoCall → TraceCall V
  value_call : Values.WriterCall V → TraceCall V
  assignment_call : Emission.WriterCall → TraceCall V
  step_call : StepCall → TraceCall V
  ensure_function_id : ℕ → TraceCall V
  register_call : ℕ → List (String × Encoded V) → TraceCall V
  ensure_path_id : Text → TraceCall V
  register_path_with_line_lengths : Text → List ℕ → TraceCall V
  register_exit : ExitPayload → TraceCall V

-- What a handler leaves: the answer is `none` where it returns an error.
pub record Handled (V : Type 0) : Type 0 where
  pub tracer : RuntimeTracer
  pub calls : List (TraceCall V)
  pub answer : Option CallbackOutcome

abbrev pub note_event : RuntimeTracer → RuntimeTracer
note_event t = record t { lifecycle = mark_event t.lifecycle }

abbrev pub note_if : Bool → RuntimeTracer → RuntimeTracer
note_if any t = if any then note_event t else t

abbrev pub policy_of : Option ScopeResolution → Option ValuePolicy
policy_of none = none
policy_of (some r) = some r.value_policy

abbrev pub object_of : Option ScopeResolution → Option String
object_of none = none
object_of (some r) = r.object_name

module _ {V : Type 0} where
  abbrev pub io_calls : List IoCall → List (TraceCall V)
  io_calls = map (λ (c : IoCall). io_call c)

  abbrev pub value_calls : List (Values.WriterCall V) → List (TraceCall V)
  value_calls = map (λ (c : Values.WriterCall V). value_call c)

  -- A capture starts with the counters where there is a policy, and leaves them.
  abbrev pub start_capture : RuntimeTracer → Option ValuePolicy → Capture V
  start_capture t none = new_capture none
  start_capture t (some policy) = new_capture (some t.stats)

  abbrev pub end_capture : RuntimeTracer → Capture V → RuntimeTracer
  end_capture t c = record t { stats = unwrap_or c.telemetry t.stats }

module _ {V : Type 0} (w : World) where
  unfoldable pub flush_pending_io : RuntimeTracer → ℕ → RuntimeTracer × List (TraceCall V)
  flush_pending_io t now =
      let (io, calls, any) = flush_all_io w.path_id_of t.io now in
      (note_if any (record t { io = io }), io_calls calls)

  unfoldable pub flush_io_before_step : RuntimeTracer → ℕ → ℕ → RuntimeTracer × List (TraceCall V)
  flush_io_before_step t thread_id now =
      let (io, calls, any) = flush_before_step_io w.path_id_of t.io thread_id now in
      (note_if any (record t { io = io }), io_calls calls)

  abbrev pub cache_function_id :
      RuntimeTracer → ℕ → Option ℕ → RuntimeTracer × List (TraceCall V) × Option ℕ
  cache_function_id t code_id none = (t, [], none)
  cache_function_id t code_id (some id) = (
    record t { function_ids = insert code_id id t.function_ids },
    ensure_function_id id ∷ [],
    some id,
  )

  abbrev pub known_function_id :
      RuntimeTracer → Code Text → Option ℕ → RuntimeTracer × List (TraceCall V) × Option ℕ
  known_function_id t code none = cache_function_id t code.id (w.new_function_id code)
  known_function_id t code (some id) = (t, [], some id)

  -- `RuntimeTracer::ensure_function_id`.
  unfoldable pub find_function_id :
      RuntimeTracer → Code Text → RuntimeTracer × List (TraceCall V) × Option ℕ
  find_function_id t code = known_function_id t code (lookup code.id t.function_ids)

  abbrev pub add_call :
      RuntimeTracer → List (TraceCall V) → Option ℕ → List (String × Encoded V) → Handled V
  add_call t calls none as_args = record {
    tracer = t;
    calls = calls;
    answer = some continue_events;
  }
  add_call t calls (some id) as_args = record {
    tracer = note_event (record t { last_call_key = t.last_call_key +ℤ pos 1 });
    calls = calls ++ register_call id as_args ∷ [];
    answer = some continue_events;
  }

  unfoldable pub register_call_record :
      RuntimeTracer → Code Text → List (String × Encoded V) → Handled V
  unfolding find_function_id
  register_call_record t code as_args =
      let (t', calls, id) = find_function_id t code in add_call t' calls id as_args

  -- The calls that were made before.
  abbrev pub after_calls : List (TraceCall V) → Handled V → Handled V
  after_calls calls h = record h { calls = calls ++ h.calls }

  -- What the gate answers, or the handler behind it.
  abbrev pub gated :
      RuntimeTracer → Option CallbackOutcome → (RuntimeTracer → Handled V) → Handled V
  gated t (some outcome) next = record { tracer = t; calls = []; answer = some outcome }
  gated t none next = next t

  unfoldable pub behind_gate :
      RuntimeTracer → Code Text → Bool → (RuntimeTracer → Handled V) → Handled V
  behind_gate t code allow_disable next =
      let (g, outcome) = evaluate_gate w.same_path t.gate code allow_disable in
      gated (record t { gate = g }) outcome next

  abbrev pub start_call : RuntimeTracer → Code Text → List (TraceCall V) → Arguments V → Handled V
  start_call t code calls (args captured) = after_calls calls (register_call_record t code captured)
  start_call t code calls (missing_positional name) = record {
    tracer = t;
    calls = calls;
    answer = none;
  }
  start_call t code calls (missing_keyword name) = record {
    tracer = t;
    calls = calls;
    answer = none;
  }

  abbrev pub enter_frame : Code Text → Option (CallFrame V) → RuntimeTracer → Handled V
  enter_frame code none t = record { tracer = t; calls = []; answer = none }
  enter_frame code (some frame) t =
      let policy = policy_of (w.resolution code) in
      let (c, captured) = capture_call_arguments policy frame (start_capture t policy) in
      start_call (end_capture t c) code (value_calls c.calls) captured

  -- `hint` is the `__name__` of the globals, trimmed, if it is not empty.
  unfoldable pub on_py_start :
      RuntimeTracer → Code Text → Option String → Option (CallFrame V) → Handled V
  unfolding behind_gate register_call_record
  on_py_start t code hint frame =
      let filter = set_module_name_hint t.gate.filter code.id hint in
      behind_gate (record t { gate = record { activation = t.gate.activation; filter = filter } })
        code true (enter_frame code frame)

  unfoldable pub on_py_resume : RuntimeTracer → Code Text → Handled V
  unfolding behind_gate register_call_record
  on_py_resume t code = behind_gate t code false (λ t'. register_call_record t' code [])

  abbrev pub listed_argument : Option (String × Encoded V) → List (String × Encoded V)
  listed_argument none = []
  listed_argument (some a) = a ∷ []

  abbrev pub throw_into : Code Text → V → RuntimeTracer → Handled V
  throw_into code exception t =
      let policy = policy_of (w.resolution code) in
      let (c, a) = encode_named_argument policy exception "exception" (start_capture t policy) in
      after_calls (value_calls c.calls)
        (register_call_record (end_capture t c) code (listed_argument a))

  unfoldable pub on_py_throw : RuntimeTracer → Code Text → V → Handled V
  unfolding behind_gate register_call_record
  on_py_throw t code exception = behind_gate t code false (throw_into code exception)
