-- ===== src/Handlers/Silence.antt =====
-- The tracer of runtime/tracer/events.rs before its activation file is entered.
use codetracer_python_record.Prelude.{
  Bool, true, false, some, List, [], ◌∷◌, ◌≡◌, refl, Text, All, Bool-cases, inl, inr,
}
use codetracer_python_record.Activation.{
  Code, ActivationController, is_target, should_process_event, ensure_started, resume_if_needed,
  is_active,
}
use codetracer_python_record.Tracer.{
  TraceDecision, trace, skip_and_disable, CallbackOutcome, evaluate_gate, gate_outcome, decide,
}
use codetracer_python_record.Handlers.{
  World, RuntimeTracer, Handled, behind_gate, on_py_start, on_py_resume, on_py_throw,
}
use codetracer_python_record.Handlers.Returns.{
  on_py_return, on_py_yield, on_py_unwind, handle_return_edge,
}
use codetracer_python_record.Handlers.Lines.{on_line}
use codetracer_python_record.Handlers.Run.{
  Event, py_start, py_resume, line, py_return, py_yield, py_unwind, py_throw, captures,
  set_exit_status, notify_failure, handle, handle_all,
}

-- The window has not opened: it waits for the path.
abbrev pub IsWaiting : Text → ActivationController Text → Type 0
IsWaiting path a = (a.started ≡ false) × (a.activation_path ≡ some path)

waiting_lem :
    (same_path : Text → Text → Bool) (path : Text) (a : ActivationController Text)
    (code : Code Text)
    → IsWaiting path a
    → is_target same_path path code.filename ≡ false
    → should_process_event same_path a code ≡ (a, false)
unfolding should_process_event ensure_started resume_if_needed is_active
waiting_lem same_path path a code h e = elim (Bool-cases a.activation_done) [
  | inl d ↦ simp (h.0, d)
  | inr d ↦ simp (h.0, d, h.1, e)
]

closed_gate :
    (d : TraceDecision) (allow : Bool)
    → (o : CallbackOutcome) × (gate_outcome d allow false ≡ some o)
closed_gate trace allow = (_, refl)
closed_gate skip_and_disable allow = (_, refl)

-- The code object is not of the activation file.
abbrev pub IsElsewhere : World → Text → Code Text → Type 0
IsElsewhere w path code = is_target w.same_path path code.filename ≡ false

module _ {V : Type 0} (w : World) (path : Text) where
  abbrev pub EventIsElsewhere : Event V → Type 0
  EventIsElsewhere (py_start code hint frame) = IsElsewhere w path code
  EventIsElsewhere (py_resume code) = IsElsewhere w path code
  EventIsElsewhere (line code thread_id now frame lineno) = IsElsewhere w path code
  EventIsElsewhere (py_return code now value) = IsElsewhere w path code
  EventIsElsewhere (py_yield code now value) = IsElsewhere w path code
  EventIsElsewhere (py_unwind code now value) = IsElsewhere w path code
  EventIsElsewhere (py_throw code exception) = IsElsewhere w path code
  EventIsElsewhere (captures e) = Unit
  EventIsElsewhere (set_exit_status exit_code) = Unit
  EventIsElsewhere notify_failure = Unit

  -- Nothing is written, and the window still waits.
  abbrev Waits : Handled V → Type 0
  Waits h = (h.calls ≡ []) × IsWaiting path h.tracer.gate.activation

  gate-Waits :
      (t : RuntimeTracer) (code : Code Text) (allow : Bool) (next : RuntimeTracer → Handled V)
      → IsWaiting path t.gate.activation
      → IsElsewhere w path code
      → Waits (behind_gate w t code allow next)
  unfolding behind_gate evaluate_gate
  gate-Waits t code allow next h e =
      let (o, closed) = closed_gate (decide t.gate.filter code).1 allow in
      rw (waiting_lem w.same_path path t.gate.activation code h e, closed) (refl, h)

  handle-Waits :
      (t : RuntimeTracer) (e : Event V)
      → IsWaiting path t.gate.activation
      → EventIsElsewhere e
      → Waits (handle w t e)
  unfolding handle on_py_start on_py_resume on_line on_py_throw on_py_return on_py_yield
      on_py_unwind handle_return_edge
  handle-Waits t (py_start code hint frame) h e = gate-Waits _ code true _ h e
  handle-Waits t (py_resume code) h e = gate-Waits t code false _ h e
  handle-Waits t (line code thread_id now frame lineno) h e = gate-Waits t code false _ h e
  handle-Waits t (py_return code now value) h e = gate-Waits t code true _ h e
  handle-Waits t (py_yield code now value) h e = gate-Waits t code false _ h e
  handle-Waits t (py_unwind code now value) h e = gate-Waits t code false _ h e
  handle-Waits t (py_throw code exception) h e = gate-Waits t code false _ h e
  handle-Waits t (captures p) h e = (refl, h)
  handle-Waits t (set_exit_status exit_code) h e = (refl, h)
  handle-Waits t notify_failure h e = (refl, h)

  -- While the activation window waits for its file, no history of events of code objects of
  -- other files makes a call on the trace writer, and the window still waits behind it.
  pub handle_all-IsWaiting :
      (t : RuntimeTracer) (events : List (Event V))
      → IsWaiting path t.gate.activation
      → All EventIsElsewhere events
      → let (t', calls) = handle_all w t events in (calls ≡ []) × IsWaiting path t'.gate.activation
  unfolding handle_all
  handle_all-IsWaiting t [] h e = (refl, h)
  handle_all-IsWaiting t (x ∷ events) h e =
      let (quiet, waits) = handle-Waits t x h e.0 in
      let (rest, last) = handle_all-IsWaiting (handle w t x).tracer events waits e.1 in
      (rw (quiet, rest) refl, last)
