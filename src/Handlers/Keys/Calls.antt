-- ===== src/Handlers/Keys/Calls.antt =====
-- The calls of the program among those on the trace writer, and the parts of the handlers of
-- runtime/tracer/events.rs that make none.
use codetracer_python_record.Prelude.{
  ℕ, ◌+◌, Bool, true, false, Option, none, some, List, [], ◌∷◌, ◌++◌, ◌≡◌, refl, Text, arith, map,
  one_of, not, ◌&&◌, inl, inr, Bool-cases,
}
use codetracer_python_record.Coordinator.{IoCall, flush_all_io, flush_before_step_io}
use codetracer_python_record.Stepping.{StepCall}
use codetracer_python_record.Reconstructor.Table.{LineAssignmentTable}
use codetracer_python_record.Emission
use codetracer_python_record.Values
use codetracer_python_record.Values.{
  Encoded, CallFrame, Arguments, args, missing_positional, missing_keyword, capture_call_arguments,
  encode_named_argument, ValuePolicy, record_return_value_streaming, record_visible_scope_streaming,
}
use codetracer_python_record.Handlers.{
  World, RuntimeTracer, TraceCall, io_call, value_call, assignment_call, step_call,
  ensure_function_id, register_call, ensure_path_id, register_path_with_line_lengths, register_exit,
  io_calls, value_calls, flush_pending_io, flush_io_before_step, note_if,
}
use codetracer_python_record.Handlers.Lines.{emit_executed, emit_lines, register_path}

pub note_if_key : (any : Bool) (t : RuntimeTracer) → (note_if any t).last_call_key ≡ t.last_call_key
note_if_key true t = refl
note_if_key false t = refl

module _ {V : Type 0} where
  -- The calls of the program that were registered.
  abbrev pub registered_calls : List (TraceCall V) → ℕ
  registered_calls [] = 0
  registered_calls (register_call id as_args ∷ calls) = 1 + registered_calls calls
  registered_calls (io_call c ∷ calls) = registered_calls calls
  registered_calls (value_call c ∷ calls) = registered_calls calls
  registered_calls (assignment_call c ∷ calls) = registered_calls calls
  registered_calls (step_call c ∷ calls) = registered_calls calls
  registered_calls (ensure_function_id id ∷ calls) = registered_calls calls
  registered_calls (ensure_path_id path ∷ calls) = registered_calls calls
  registered_calls (register_path_with_line_lengths path lengths ∷ calls) = registered_calls calls
  registered_calls (register_exit p ∷ calls) = registered_calls calls

  pub registered-append :
      (xs ys : List (TraceCall V))
      → registered_calls (xs ++ ys) ≡ registered_calls xs + registered_calls ys
  registered-append [] ys = omega arith
  registered-append (register_call id as_args ∷ xs) ys = omega (arith, registered-append xs ys)
  registered-append (io_call c ∷ xs) ys = registered-append xs ys
  registered-append (value_call c ∷ xs) ys = registered-append xs ys
  registered-append (assignment_call c ∷ xs) ys = registered-append xs ys
  registered-append (step_call c ∷ xs) ys = registered-append xs ys
  registered-append (ensure_function_id id ∷ xs) ys = registered-append xs ys
  registered-append (ensure_path_id path ∷ xs) ys = registered-append xs ys
  registered-append (register_path_with_line_lengths path lengths ∷ xs) ys = registered-append xs ys
  registered-append (register_exit p ∷ xs) ys = registered-append xs ys

module _ (V : Type 0) where
  -- The parts of a handler that register no call of the program.
  pub io_none : (calls : List IoCall) → registered_calls {V = V} (io_calls calls) ≡ 0
  io_none [] = refl
  io_none (c ∷ calls) = io_none calls

  pub values_none : (calls : List (Values.WriterCall V)) → registered_calls (value_calls calls) ≡ 0
  values_none [] = refl
  values_none (c ∷ calls) = values_none calls

  pub assignments_none :
      (calls : List Emission.WriterCall)
      → registered_calls {V = V} (map (λ (c : Emission.WriterCall). assignment_call c) calls) ≡ 0
  assignments_none [] = refl
  assignments_none (c ∷ calls) = assignments_none calls

  pub steps_none :
      (calls : List StepCall)
      → registered_calls {V = V} (map (λ (c : StepCall). step_call c) calls) ≡ 0
  steps_none [] = refl
  steps_none (c ∷ calls) = steps_none calls

  pub flush_key :
      (w : World) (t : RuntimeTracer) (now : ℕ)
      → ((flush_pending_io {V = V} w t now).0.last_call_key ≡ t.last_call_key)
        × (registered_calls (flush_pending_io {V = V} w t now).1 ≡ 0)
  unfolding flush_pending_io
  flush_key w t now =
      let r = flush_all_io w.path_id_of t.io now in
      (note_if_key r.2 (record t { io = r.0 }), io_none r.1)

  pub before_step_key :
      (w : World) (t : RuntimeTracer) (thread_id now : ℕ)
      → ((flush_io_before_step {V = V} w t thread_id now).0.last_call_key ≡ t.last_call_key)
        × (registered_calls (flush_io_before_step {V = V} w t thread_id now).1 ≡ 0)
  unfolding flush_io_before_step
  before_step_key w t thread_id now =
      let r = flush_before_step_io w.path_id_of t.io thread_id now in
      (note_if_key r.2 (record t { io = r.0 }), io_none r.1)

  pub emit-Counts :
      (w : World) (policy : Option ValuePolicy) (frame : ℕ) (table : Option LineAssignmentTable)
      (lines : List ℕ) (t : RuntimeTracer)
      → ((emit_executed {V = V} w policy frame table lines t).tracer.last_call_key
          ≡ t.last_call_key)
        × (registered_calls (emit_executed {V = V} w policy frame table lines t).calls ≡ 0)
  emit-Counts w policy frame none lines t = (refl, refl)
  emit-Counts w policy frame (some table) lines t = (
    refl,
    assignments_none (emit_lines w policy t.last_call_key frame table t.frame_bound_names lines).1,
  )

  pub path-Counts :
      (w : World) (t : RuntimeTracer) (path : Text)
      → ((register_path {V = V} w t path).0.last_call_key ≡ t.last_call_key)
        × (registered_calls (register_path {V = V} w t path).1 ≡ 0)
  unfolding register_path
  path-Counts w t path =
      elim (Bool-cases (t.steps.column_aware && not (one_of path t.paths_with_line_lengths))) [
        | inl e ↦ rw e (refl, refl)
        | inr e ↦ rw e (refl, refl)
      ]
