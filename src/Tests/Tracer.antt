-- ===== src/Tests/Tracer.antt =====
-- The theorems on the gate, the session's exit and the assignment events at concrete inputs.
use codetracer_python_record.Prelude.{
  ℕ, ◌≡◌, ◌↔◌, ◌++◌, refl, pos, Bool, true, false, some, none, List, [], ◌∷◌, String, str_eq, Text,
  codes, text_eq, lookup, unwrap_or, ◌==◌, member, if◌then◌else◌, trim, trim_start, trim_end,
  keep_before, is_whitespace,
}
use codetracer_python_record.Activation.{Code, ActivationController, should_process_event}
use codetracer_python_record.Reconstructor.Window.{literal, simple, function_return}
use codetracer_python_record.Reconstructor.Table.{LineAssignment}
use codetracer_python_record.Emission.{emit_assignment_events}
use codetracer_python_record.Emission.Binds.{Emits, emit_assignment_events-Emits}
use codetracer_python_record.Tracer.{
  FilterCoordinator, new_filter, decide, resolve, is_real_filename, skip_and_disable, exec_trace,
  decide_resolved, mark_ignored, add_id, set_module_name_hint, GateState, evaluate_gate,
}
use codetracer_python_record.Tracer.Refusals.{
  FilterCall, decides, hints, clears, filter_run, refused_since, decide_lasts,
}
use codetracer_python_record.Tracer.Gate.{IsTraced, evaluate_gate-none}
use codetracer_python_record.Tracer.Exit.{ExitCall, sets, disables, emits}

-- An engine that traces everything.
abbrev filter : FilterCoordinator
filter = new_filter (some (λ code hint. some exec_trace))

abbrev synthetic_code : Code Text
synthetic_code = record { id = 7; filename = some (codes "<string>") }

abbrev real_code : Code Text
real_code = record { id = 7; filename = some (codes "a.py") }

abbrev filter_calls : List FilterCall
filter_calls =
    decides real_code
    ∷ clears
    ∷ decides synthetic_code
    ∷ hints 7 (some "m")
    ∷ decides real_code
    ∷ []

decide_lasts_example :
    let (later, notes) = filter_run filter filter_calls in
    decide later real_code ≡ (
      if refused_since 7 false notes
      then (later, skip_and_disable)
      else decide_resolved (resolve later real_code).0 real_code (resolve later real_code).1)
decide_lasts_example = decide_lasts filter filter_calls real_code refl

-- The refusal of the synthetic code object lasts until the caches are cleared.
refused_until_cleared :
    (refused_since 7 false (filter_run filter filter_calls).1 ≡ true)
    × (refused_since 7 false (filter_run filter (filter_calls ++ clears ∷ [])).1 ≡ false)
unfolding filter_run decide resolve member is_real_filename trim trim_start trim_end keep_before
    is_whitespace mark_ignored add_id set_module_name_hint refused_since
refused_until_cleared = (refl, refl)

abbrev active : ActivationController Text
active = record {
  activation_path = none;
  activation_code_id = none;
  activation_done = false;
  started = true;
  is_suspended = false;
}

abbrev gate : GateState
gate = record { activation = active; filter = filter }

evaluate_gate_example :
    ((evaluate_gate text_eq gate real_code true).1 ≡ none)
    ↔ (((should_process_event text_eq active real_code).1 ≡ true) × IsTraced filter real_code)
evaluate_gate_example = evaluate_gate-none text_eq gate real_code true

abbrev exit_calls : List ExitCall
exit_calls = sets none ∷ disables ∷ emits ∷ sets (some (pos 3)) ∷ emits ∷ []

abbrev id_of : String → ℕ
id_of s = if str_eq s "a" then 0 else if str_eq s "b" then 1 else 2

abbrev drops_b : String → Bool
drops_b s = str_eq s "b"

abbrev line_stores : List LineAssignment
line_stores =
    record { target = "a"; rvalue = function_return; column = none }
    ∷ record { target = "b"; rvalue = literal; column = none }
    ∷ record { target = "a"; rvalue = simple "b"; column = none }
    ∷ []

emit_assignment_events_example :
    let r = emit_assignment_events id_of drops_b (pos 4) [] 9 line_stores in
    Emits id_of drops_b
      (pos 4)
      (unwrap_or (lookup {V = List String} 9 []) [])
      line_stores
      (unwrap_or (lookup 9 r.0) [], r.1)
    × ((k : ℕ) → (9 == k) ≡ false → lookup k r.0 ≡ lookup k [])
emit_assignment_events_example = emit_assignment_events-Emits id_of drops_b (pos 4) [] 9 line_stores
