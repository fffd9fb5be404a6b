-- ===== src/Handlers/Finish.antt =====
-- What `finish` of runtime/tracer/events.rs leaves behind.
use codetracer_python_record.Prelude.{
  ℕ, Bool, true, false, none, List, [], ◌++◌, ◌≡◌, refl, Bool-cases, Option-cases, inl, inr, subst,
  sym, map, if◌then◌else◌,
}
use codetracer_python_record.Tracer.{reset, clear_caches}
use codetracer_python_record.Tracer.Exit.{SessionExitState, ExitPayload, emit_session_exit}
use codetracer_python_record.Lifecycle.{require_trace_or_fail, reset_event_state}
use codetracer_python_record.IoCapture.Events.{IoChunk}
use codetracer_python_record.Coordinator.{IoCoordinator, teardown, flush_all_io}
use codetracer_python_record.Values.{new_stats}
use codetracer_python_record.Handlers.{
  World, RuntimeTracer, TraceCall, register_exit, note_if, io_calls, flush_pending_io,
}
use codetracer_python_record.Handlers.Run.{
  Closing, emit_exit, reset_tracer, finish_failed, finish_whole, finish,
}

-- The capture is torn down, and the exit is in the trace.
abbrev IsEnding : RuntimeTracer → Type 0
IsEnding t = (t.io.pipeline ≡ none) × (t.session_exit.emitted ≡ true)

-- Ready for nothing more: all that belonged to the trace is gone.
abbrev pub IsReset : RuntimeTracer → Type 0
IsReset t =
    (t.io.pipeline ≡ none)
    × (t.session_exit.emitted ≡ true)
    × (t.io.snapshots ≡ [])
    × (t.function_ids ≡ [])
    × (t.stats ≡ new_stats)
    × (t.gate.filter.ignored_code_ids ≡ [])
    × (t.lifecycle.output_paths ≡ false)
    × (t.lifecycle.events_recorded ≡ false)
    × (t.lifecycle.encountered_failure ≡ false)

reset_tracer-IsReset : (t : RuntimeTracer) → IsEnding t → IsReset (reset_tracer t)
unfolding reset_tracer reset clear_caches reset_event_state
reset_tracer-IsReset t h = (h.0, h.1, refl, refl, refl, refl, refl, refl, refl)

teardown-none :
    (w : World) (io : IoCoordinator) (now : ℕ) (late : List IoChunk)
    → (teardown w.path_id_of io now late).0.pipeline ≡ none
unfolding teardown
teardown-none w io now late = elim (Option-cases io.pipeline) [
  | inl e ↦ rw (e, teardown) e
  | inr (p, e) ↦ rw (e, teardown) refl
]

flush_none :
    (w : World) (io : IoCoordinator) (now : ℕ)
    → io.pipeline ≡ none
    → flush_all_io w.path_id_of io now ≡ (io, [], false)
unfolding flush_all_io
flush_none w io now h = rw (h, flush_all_io) refl

note_if_io :
    (any : Bool) (t : RuntimeTracer) → t.io.pipeline ≡ none → (note_if any t).io.pipeline ≡ none
note_if_io true t h = h
note_if_io false t h = h

emitted_lem : (s : SessionExitState) → (emit_session_exit s).0.emitted ≡ true
unfolding emit_session_exit
emitted_lem s = elim (Bool-cases s.emitted) [ inl e ↦ rw e refl | inr e ↦ rw e refl ]

module _ (V : Type 0) (w : World) where
  pending_none :
      (t : RuntimeTracer) (now : ℕ)
      → t.io.pipeline ≡ none
      → (flush_pending_io {V = V} w t now).0.io.pipeline ≡ none
  unfolding flush_pending_io
  pending_none t now h =
      subst (λ r. (note_if r.2 (record t { io = r.0 })).io.pipeline ≡ none)
        (sym (flush_none w t.io now h)) h

  emit_eq :
      (t : RuntimeTracer) (now : ℕ) (b : Bool)
      → t.session_exit.emitted ≡ b
      → let r = flush_pending_io {V = V} w t now in
        let x = emit_session_exit t.session_exit in
        emit_exit {V = V} w t now ≡ (
          if b then (t, []) else (
            record r.0 { session_exit = x.0 },
            r.1 ++ map (λ (p : ExitPayload). register_exit p) x.1,
          ))
  unfolding emit_exit
  emit_eq t now b e = λ i. if e i then (t, []) else (
    record (flush_pending_io {V = V} w t now).0 {
      session_exit = (emit_session_exit t.session_exit).0;
    },
    (flush_pending_io {V = V} w t now).1
        ++ map (λ (p : ExitPayload). register_exit p) (emit_session_exit t.session_exit).1,
  )

  emit-IsEnding :
      (t : RuntimeTracer) (now : ℕ) → t.io.pipeline ≡ none → IsEnding (emit_exit {V = V} w t now).0
  emit-IsEnding t now h = elim (Bool-cases t.session_exit.emitted) [
    | inl e ↦ subst (λ r. IsEnding r.0) (sym (emit_eq t now true e)) (h, e)
    | inr e ↦
        subst (λ r. IsEnding r.0) (sym (emit_eq t now false e))
          (pending_none t now h, emitted_lem t.session_exit)
  ]

module _ {V : Type 0} (w : World) where
  failed-IsReset :
      (c : Closing) (t : RuntimeTracer) (calls : List (TraceCall V))
      → IsEnding t
      → (finish_failed w c t calls).ok ≡ true
      → IsReset (finish_failed w c t calls).tracer
  unfolding finish_failed
  failed-IsReset c t calls h = elim (Bool-cases c.keep_partial_trace) [
    | inl e ↦ rw (e) (λ k. reset_tracer-IsReset t h)
    | inr e ↦ rw (e) (λ k. rw k (reset_tracer-IsReset t h))
  ]

  whole-IsReset :
      (c : Closing) (t : RuntimeTracer) (calls : List (TraceCall V))
      → IsEnding t
      → (finish_whole w c t calls).ok ≡ true
      → IsReset (finish_whole w c t calls).tracer
  unfolding finish_whole
  whole-IsReset c t calls h =
      elim (Bool-cases (require_trace_or_fail t.lifecycle c.require_trace)) [
        | inr e ↦ rw e (λ k. cc)
        | inl e ↦ rw e (λ k. rw k (reset_tracer-IsReset t h))
      ]

-- Whatever fails, a finish that answers no error leaves a tracer without pipeline, snapshots,
-- function ids, counted values, refused code objects, output paths, recorded events and failure,
-- whose exit was emitted.
pub finish-IsReset :
    (V : Type 0) (w : World) (c : Closing) (t : RuntimeTracer) (now : ℕ) (late : List IoChunk)
    → (finish {V = V} w c t now late).ok ≡ true
    → IsReset (finish {V = V} w c t now late).tracer
unfolding finish
finish-IsReset V w c t now late =
    let r = teardown w.path_id_of t.io now late in
    let torn = note_if r.2 (record t { io = r.0 }) in
    let kept : torn.io.pipeline ≡ none =
      note_if_io r.2 (record t { io = r.0 }) (teardown-none w t.io now late) in
    let x = emit_exit {V = V} w torn now in
    let ending = emit-IsEnding V w torn now kept in
    elim (Bool-cases x.0.lifecycle.encountered_failure) [
      | inl e ↦ rw (e, finish) (failed-IsReset w c x.0 (io_calls r.1 ++ x.1) ending)
      | inr e ↦ rw (e, finish) (whole-IsReset w c x.0 (io_calls r.1 ++ x.1) ending)
    ]
