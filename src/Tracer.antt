-- ===== src/Tracer.antt =====
-- The gate of the tracer: `FilterCoordinator` of runtime/tracer/filtering.rs and `evaluate_gate` of
-- runtime/tracer/runtime_tracer.rs. The engine of the trace filter is a parameter: what it answers for
-- a code object and a hint, or an error. Log messages are left out, the counts of dropped events kept.
pub mod Refusals
pub mod Gate
pub mod Exit
use codetracer_python_record.Prelude.{
  ℕ, ◌+◌, Bool, true, false, not, ◌&&◌, Option, none, some, List, [], ◌∷◌, ◌++◌, String, Text,
  codes, if◌then◌else◌, lookup, insert, remove, member, trim, starts_with, ◌==◌,
}
use codetracer_python_record.Activation.{Code, ActivationController, should_process_event}

pub data TraceDecision : Type 0 where
  trace skip_and_disable : TraceDecision

pub data ExecDecision : Type 0 where
  exec_trace exec_skip : ExecDecision

-- `callback_outcome` of the monitoring: what a handler answers to the interpreter.
pub data CallbackOutcome : Type 0 where
  continue_events disable_location : CallbackOutcome

pub data DropReason : Type 0 where
  filter_scope_skip filter_resolution_error filename_lookup_failed synthetic_filename : DropReason

-- `engine.resolve`: `none` is an error.
abbrev pub Engine : Type 0
Engine = Code Text → Option String → Option ExecDecision

-- `dropped` is what `record_dropped_event` was given.
pub record FilterCoordinator : Type 0 where
  pub engine : Option Engine
  pub ignored_code_ids : List ℕ
  pub module_name_hints : List (ℕ × String)
  pub skipped_scopes : ℕ
  pub dropped : List DropReason

abbrev pub new_filter : Option Engine → FilterCoordinator
new_filter engine = record {
  engine = engine;
  ignored_code_ids = [];
  module_name_hints = [];
  skipped_scopes = 0;
  dropped = [];
}

unfoldable pub set_module_name_hint : FilterCoordinator → ℕ → Option String → FilterCoordinator
set_module_name_hint f code_id none = record f {
  module_name_hints = remove code_id f.module_name_hints;
}
set_module_name_hint f code_id (some hint) = record f {
  module_name_hints = insert code_id hint f.module_name_hints;
}

unfoldable pub clear_caches : FilterCoordinator → FilterCoordinator
clear_caches f = record f { ignored_code_ids = [] }

unfoldable pub reset : FilterCoordinator → FilterCoordinator
unfolding clear_caches
reset f = record (clear_caches f) { skipped_scopes = 0 }

-- `HashSet::insert`.
unfoldable pub add_id : ℕ → List ℕ → List ℕ
add_id k ids = if member k ids then ids else k ∷ ids

unfoldable pub mark_ignored : FilterCoordinator → ℕ → FilterCoordinator
unfolding add_id
mark_ignored f code_id = record f {
  ignored_code_ids = add_id code_id f.ignored_code_ids;
  module_name_hints = remove code_id f.module_name_hints;
}

abbrev pub record_dropped : FilterCoordinator → DropReason → FilterCoordinator
record_dropped f reason = record f { dropped = f.dropped ++ reason ∷ [] }

-- The character that a text ends with.
abbrev pub ends_with : ℕ → Text → Bool
ends_with c [] = false
ends_with c (d ∷ []) = d == c
ends_with c (d ∷ e ∷ s) = ends_with c (e ∷ s)

unfoldable pub is_real_filename : Text → Bool
is_real_filename filename =
    let trimmed = trim filename in not (starts_with (b'<' ∷ []) trimmed && ends_with b'>' trimmed)

-- `resolve`: the coordinator, and the answer where there is one.
abbrev pub resolved :
    FilterCoordinator → Option ExecDecision → FilterCoordinator × Option ExecDecision
resolved f none = (record_dropped f filter_resolution_error, none)
resolved f (some decision) = (f, some decision)

unfoldable pub resolve : FilterCoordinator → Code Text → FilterCoordinator × Option ExecDecision
resolve f code = elim f.engine [
  | none ↦ (f, none)
  | some engine ↦ resolved f (engine code (lookup code.id f.module_name_hints))
]

-- `decide` behind the resolution: the file name.
abbrev pub decide_filename : FilterCoordinator → ℕ → Option Text → FilterCoordinator × TraceDecision
decide_filename f code_id none =
    (mark_ignored (record_dropped f filename_lookup_failed) code_id, skip_and_disable)
decide_filename f code_id (some filename) =
    if is_real_filename filename
    then (f, trace)
    else (mark_ignored (record_dropped f synthetic_filename) code_id, skip_and_disable)

abbrev pub decide_resolved :
    FilterCoordinator → Code Text → Option ExecDecision → FilterCoordinator × TraceDecision
decide_resolved f code (some exec_skip) =
    let f' = mark_ignored f code.id in
    (
      record_dropped (record f' { skipped_scopes = f'.skipped_scopes + 1 }) filter_scope_skip,
      skip_and_disable,
    )
decide_resolved f code (some exec_trace) = decide_filename f code.id code.filename
decide_resolved f code none = decide_filename f code.id code.filename

unfoldable pub decide : FilterCoordinator → Code Text → FilterCoordinator × TraceDecision
unfolding resolve
decide f code =
    let (f', resolution) = resolve f code in
    if member code.id f.ignored_code_ids
    then (f, skip_and_disable)
    else decide_resolved f' code resolution

-- What the gate answers, from the decision and the state of the activation; `none` lets the event in.
abbrev pub gate_outcome : TraceDecision → Bool → Bool → Option CallbackOutcome
gate_outcome skip_and_disable allow_disable active =
    some (if allow_disable then disable_location else continue_events)
gate_outcome trace allow_disable active = if active then none else some continue_events

-- The parts of the tracer that the gate reads and changes.
pub record GateState : Type 0 where
  pub activation : ActivationController Text
  pub filter : FilterCoordinator

unfoldable pub evaluate_gate :
    (Text → Text → Bool) → GateState → Code Text → Bool → GateState × Option CallbackOutcome
evaluate_gate same_path g code allow_disable =
    let (activation, active) = should_process_event same_path g.activation code in
    let (filter, decision) = decide g.filter code in
    (
      record { activation = activation; filter = filter },
      gate_outcome decision allow_disable active,
    )
