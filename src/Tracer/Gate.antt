-- ===== src/Tracer/Gate.antt =====
-- What the gate of runtime/tracer/runtime_tracer.rs lets in.
use codetracer_python_record.Prelude.{
  ℕ, ◌≡◌, ◌↔◌, refl, Bool, true, false, Option, none, some, Text, member, arith, Bool-cases, inl,
  inr,
}
use codetracer_python_record.Activation.{Code, should_process_event}
use codetracer_python_record.Tracer.{
  TraceDecision, trace, skip_and_disable, ExecDecision, exec_trace, exec_skip, FilterCoordinator,
  is_real_filename, resolve, decide_filename, decide_resolved, decide, gate_outcome, GateState,
  evaluate_gate,
}

abbrev pub IsRealFile : Option Text → Type 0
IsRealFile none = ⊥
IsRealFile (some filename) = is_real_filename filename ≡ true

-- The engine does not skip the code object.
abbrev pub NotSkipped : Option ExecDecision → Type 0
NotSkipped none = Unit
NotSkipped (some exec_trace) = Unit
NotSkipped (some exec_skip) = ⊥

abbrev pub IsTraced : FilterCoordinator → Code Text → Type 0
IsTraced f code =
    (member code.id f.ignored_code_ids ≡ false)
    × NotSkipped (resolve f code).1
    × IsRealFile code.filename

filename_trace :
    (f : FilterCoordinator) (id : ℕ) (filename : Option Text)
    → ((decide_filename f id filename).1 ≡ trace) ↔ IsRealFile filename
filename_trace f id none = (λ h. cc, λ h. absurd h)
filename_trace f id (some filename) = elim (Bool-cases (is_real_filename filename)) [
  | inl e ↦ (λ h. e, λ h. rw e refl)
  | inr e ↦ (λ h. ground (arith, h, e), λ h. ground (arith, h, e))
]

resolved_trace :
    (f : FilterCoordinator) (code : Code Text) (r : Option ExecDecision)
    → ((decide_resolved f code r).1 ≡ trace) ↔ (NotSkipped r × IsRealFile code.filename)
resolved_trace f code none =
    let i = filename_trace f code.id code.filename in (λ h. (tt, i.0 h), λ h. i.1 h.1)
resolved_trace f code (some exec_trace) =
    let i = filename_trace f code.id code.filename in (λ h. (tt, i.0 h), λ h. i.1 h.1)
resolved_trace f code (some exec_skip) = (λ h. cc, λ h. absurd h.0)

decide_trace :
    (f : FilterCoordinator) (code : Code Text) → ((decide f code).1 ≡ trace) ↔ IsTraced f code
unfolding decide
decide_trace f code =
    let i = resolved_trace (resolve f code).0 code (resolve f code).1 in
    elim (Bool-cases (member code.id f.ignored_code_ids)) [
      | inl e ↦ rw e (λ h. cc, λ h. cc)
      | inr e ↦ rw e (λ h. (refl, (i.0 h).0, (i.0 h).1), λ h. i.1 (h.1, h.2))
    ]

gate_none :
    (d : TraceDecision) (allow active : Bool)
    → (gate_outcome d allow active ≡ none) ↔ ((active ≡ true) × (d ≡ trace))
gate_none trace allow true = (λ h. (refl, refl), λ h. refl)
gate_none trace allow false = (λ h. cc, λ h. cc)
gate_none skip_and_disable allow active = (λ h. cc, λ h. cc)

-- The gate lets an event in exactly if the activation is active behind the event, and the code
-- object was not refused before, is not skipped by the engine and has a real file.
pub evaluate_gate-none :
    (same_path : Text → Text → Bool) (g : GateState) (code : Code Text) (allow : Bool)
    → ((evaluate_gate same_path g code allow).1 ≡ none)
      ↔ (((should_process_event same_path g.activation code).1 ≡ true) × IsTraced g.filter code)
unfolding evaluate_gate
evaluate_gate-none same_path g code allow =
    let i =
      gate_none (decide g.filter code).1 allow
        (should_process_event same_path g.activation code).1 in
    let j = decide_trace g.filter code in (λ h. ((i.0 h).0, j.0 (i.0 h).1), λ h. i.1 (h.0, j.1 h.1))
