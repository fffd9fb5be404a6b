-- ===== src/Handlers/Lines.antt =====
-- The handler of runtime/tracer/events.rs for a line.
use codetracer_python_record.Prelude.{
  ℕ, ℤ, pos, Bool, true, false, not, ◌&&◌, Option, none, some, List, [], ◌∷◌, ◌++◌, String, Text,
  if◌then◌else◌, unwrap_or, map, one_of, lookup,
}
use codetracer_python_record.Activation.{Code}
use codetracer_python_record.Tracer.{continue_events}
use codetracer_python_record.Enricher.{record_snapshot}
use codetracer_python_record.Reconstructor.Table.{
  LineAssignmentTable, for_line, first_column_for_line, table_for,
}
use codetracer_python_record.Emission
use codetracer_python_record.Emission.{emit_assignment_events}
use codetracer_python_record.Stepping.{lines_to_emit, write_step, read_line_lengths, StepCall}
use codetracer_python_record.Values.{
  ValueAction, allow, redact, drop_value, ValuePolicy, local, action_of, FrameSnapshot,
  record_visible_scope_streaming,
}
use codetracer_python_record.Handlers.{
  World, RuntimeTracer, Handled, TraceCall, assignment_call, step_call, ensure_path_id,
  register_path_with_line_lengths, note_event, policy_of, value_calls, start_capture, end_capture,
  flush_io_before_step, behind_gate, after_calls,
}

abbrev pub is_drop : ValueAction → Bool
is_drop allow = false
is_drop redact = false
is_drop drop_value = true

-- What a line event finds: the thread, the pointer of the frame, and its variables. The id that the
-- writer has for the path of the code is the one of `ensure_path_id`.
pub record LineFrame (V : Type 0) : Type 0 where
  pub frame_ptr : ℕ
  pub path_id : ℕ
  pub snapshot : FrameSnapshot V

abbrev pub column_in : Option LineAssignmentTable → ℕ → Option ℕ
column_in none lineno = none
column_in (some table) lineno = first_column_for_line table lineno

module _ (w : World) where
  -- The loop over the lines: the names bound in the frames, and the calls.
  unfoldable pub emit_lines :
      Option ValuePolicy
      → ℤ
      → ℕ
      → LineAssignmentTable
      → List (ℕ × List String)
      → List ℕ
      → List (ℕ × List String) × List Emission.WriterCall
  unfolding emit_assignment_events for_line
  emit_lines policy key frame table frames [] = (frames, [])
  emit_lines policy key frame table frames (line ∷ lines) =
      let (frames', calls) =
        emit_assignment_events w.variable_id_of (λ (s : String). is_drop (action_of policy local s))
          key frames frame (for_line table line) in
      let rest = emit_lines policy key frame table frames' lines in (rest.0, calls ++ rest.1)

module _ {V : Type 0} (w : World) where
  abbrev pub emit_executed :
      Option ValuePolicy → ℕ → Option LineAssignmentTable → List ℕ → RuntimeTracer → Handled V
  emit_executed policy frame none lines t = record {
    tracer = t;
    calls = [];
    answer = some continue_events;
  }
  emit_executed policy frame (some table) lines t =
      let (frames, calls) =
        emit_lines w policy t.last_call_key frame table t.frame_bound_names lines in
      record {
        tracer = record t { frame_bound_names = frames };
        calls = map (λ (c : Emission.WriterCall). assignment_call c) calls;
        answer = some continue_events;
      }

  -- The first sight of a path with columns.
  unfoldable pub register_path : RuntimeTracer → Text → RuntimeTracer × List (TraceCall V)
  unfolding read_line_lengths
  register_path t path =
      if t.steps.column_aware && not (one_of path t.paths_with_line_lengths)
      then (
        record t { paths_with_line_lengths = path ∷ t.paths_with_line_lengths },
        register_path_with_line_lengths path (unwrap_or (read_line_lengths w.read_file path) [])
            ∷ [],
      )
      else (t, [])

  -- The position of the thread behind a step.
  abbrev pub locate_thread : RuntimeTracer → ℕ → LineFrame V → ℕ → RuntimeTracer
  locate_thread t thread_id f lineno = record t {
    io = record {
      snapshots = record_snapshot t.io.snapshots thread_id f.path_id (pos lineno) f.frame_ptr;
      pipeline = t.io.pipeline;
    };
  }

  abbrev pub step_calls : List StepCall → List (TraceCall V)
  step_calls = map (λ (c : StepCall). step_call c)

  abbrev pub step_onto :
      Option Text
      → ℕ
      → LineFrame V
      → ℕ
      → Option ℕ
      → RuntimeTracer
      → RuntimeTracer × List (TraceCall V)
  step_onto none thread_id f lineno column t =
      let (s, calls) = write_step t.steps f.frame_ptr none lineno column in
      (record t { steps = s }, step_calls calls)
  step_onto (some path) thread_id f lineno column t =
      let (t', registered) = register_path t path in
      let (s, calls) = write_step t'.steps f.frame_ptr (some path) lineno column in
      (
        locate_thread (note_event (record t' { steps = s })) thread_id f lineno,
        ensure_path_id path ∷ (registered ++ step_calls calls),
      )

  -- Behind the flush and the look at the frame.
  abbrev pub visit_line :
      Code Text
      → ℕ
      → LineFrame V
      → ℕ
      → Option LineAssignmentTable
      → Option ℕ
      → RuntimeTracer
      → Handled V
  visit_line code thread_id f lineno table previous_line t =
      let policy = policy_of (w.resolution code) in
      let emitted = emit_executed policy f.frame_ptr table (lines_to_emit previous_line lineno) t in
      let (t', stepped) =
        step_onto code.filename thread_id f lineno (column_in table lineno) emitted.tracer in
      let c = (record_visible_scope_streaming policy f.snapshot (start_capture t' policy) []).0 in
      record {
        tracer = end_capture t' c;
        calls = emitted.calls ++ (stepped ++ value_calls c.calls);
        answer = some continue_events;
      }

  abbrev pub look_at_frame :
      Code Text
      → ℕ
      → Option (LineFrame V)
      → ℕ
      → Option LineAssignmentTable
      → RuntimeTracer
      → Handled V
  look_at_frame code thread_id none lineno table t = record {
    tracer = t;
    calls = [];
    answer = none;
  }
  look_at_frame code thread_id (some f) lineno table t =
      visit_line code thread_id f lineno table (lookup f.frame_ptr t.steps.last_line_per_frame) t

  abbrev pub on_line_inside :
      Code Text → ℕ → ℕ → Option (LineFrame V) → ℕ → RuntimeTracer → Handled V
  on_line_inside code thread_id now frame lineno t =
      let (t', flushed) = flush_io_before_step w t thread_id now in
      let (cache, table) = table_for t'.assignment_reconstructor code.id (w.decoded code.id) in
      after_calls w flushed (
        look_at_frame code thread_id frame lineno table
          (record t' { assignment_reconstructor = cache }))

  -- `frame` is `none` where the frame cannot be captured.
  unfoldable pub on_line : RuntimeTracer → Code Text → ℕ → ℕ → Option (LineFrame V) → ℕ → Handled V
  unfolding behind_gate flush_io_before_step table_for
  on_line t code thread_id now frame lineno =
      behind_gate w t code false (on_line_inside code thread_id now frame lineno)
