-- ===== src/Monitoring/Failures.antt =====
-- Errors of callbacks, monitoring/callbacks.rs, and of an install, monitoring/install.rs.
use codetracer_python_record.Prelude.{
  Bool, true, false, none, some, List, [], ◌∷◌, ◌++◌, ◌≡◌, refl, sym, ap, subst, ◌∙◌, Bool-cases,
  inl, inr, if◌then◌else◌,
}
use codetracer_python_record.Policy.{OnRecorderError, disable}
use codetracer_python_record.Monitoring.{
  PyCall, use_tool, Interpreter, Methods, Global, Monitoring, none_answer, python_error,
  catch_callback, callback, handle_callback_result, handle_callback_error, uninstall_locked,
  call_tracer, install_tracer, install_over, hook, hook_if, hook_events, register_enabled_callbacks,
  enabled_specs, set_callback, EventId, registers, sets_events,
}

module _ {T E : Type 0} (succeeds : PyCall → Bool) (methods : Methods T E) where
  callback_idle :
      (s : Monitoring T)
      → s.global ≡ none
      → (policy : OnRecorderError) (e : E) → callback succeeds methods policy s e ≡ (s, none_answer)
  unfolding callback
  callback_idle s h policy e = λ i. call_tracer succeeds methods policy s e (h i)

  -- If a tracer is installed, an event makes its method fail or panic, and the policy is to
  -- disable, then, whatever CPython answers, the tracer is taken down, it was told of the
  -- failure and then finished, once, and each later callback, under either policy, answers None
  -- and changes nothing.
  pub callback-disable :
      (s : Monitoring T) (g : Global T) (e : E)
      → s.global ≡ some g
      → catch_callback (methods.on_event g.tracer e).1 ≡ none
      → let r = (callback succeeds methods disable s e).0 in
        let failed = (methods.on_event g.tracer e).0 in
        (r.global ≡ none)
        × (r.finished ≡ s.finished ++ (methods.finish (methods.notify_failure failed)).0 ∷ [])
        × ((policy : OnRecorderError) (next : E)
            → callback succeeds methods policy r next ≡ (r, none_answer))
  unfolding callback handle_callback_result handle_callback_error uninstall_locked
  callback-disable s g e h k =
      let (t, ran) = methods.on_event g.tracer e in
      let failing = record g { tracer = t } in
      let eq : callback succeeds methods disable s e
          ≡ handle_callback_error succeeds methods disable s failing =
        (λ i. call_tracer succeeds methods disable s e (h i))
        ∙ ap (λ o. handle_callback_result succeeds methods disable s failing o) k in
      let idle = callback_idle (handle_callback_error succeeds methods disable s failing).0 refl in
      subst
        (λ r.
          (r.0.global ≡ none)
          × (r.0.finished ≡ s.finished ++ (methods.finish (methods.notify_failure t)).0 ∷ [])
          × ((policy : OnRecorderError) (next : E)
              → callback succeeds methods policy r.0 next ≡ (r.0, none_answer)))
        (sym eq) (refl, refl, idle)

  register-used :
      (ids : List EventId) (p : Interpreter)
      → (register_enabled_callbacks succeeds ids p).0.tool_used ≡ p.tool_used
  unfolding register_enabled_callbacks
  register-used [] p = refl
  register-used (id ∷ ids) p = elim (Bool-cases (succeeds (registers id))) [
    | inl e ↦ rw e (register-used ids (set_callback true id p))
    | inr e ↦ rw e refl
  ]

  -- A state in which no install succeeds.
  abbrev IsStuck : Monitoring T → Type 0
  IsStuck s = (s.global ≡ none) × (s.python.tool_used ≡ true)

  events-IsStuck :
      (s : Monitoring T) (t : T) (p : Interpreter) (done : Bool)
      → s.global ≡ none
      → p.tool_used ≡ true
      → (hook_events succeeds methods s t (p, done)).1 ≡ python_error
      → IsStuck (hook_events succeeds methods s t (p, done)).0
  events-IsStuck s t p false h k = λ f. (h, k)
  events-IsStuck s t p true h k = elim (Bool-cases (succeeds sets_events)) [
    | inl e ↦ rw e (λ f. cc)
    | inr e ↦ rw e (λ f. (h, k))
  ]

  stuck_lem :
      (s : Monitoring T) (t : T)
      → IsStuck s
      → install_tracer succeeds methods s t ≡ (s, python_error)
  unfolding install_tracer
  stuck_lem s t (h, k) =
      (λ i. install_over succeeds methods s t (h i)) ∙ λ i. hook_if succeeds methods (k i) s t

  install_eq :
      (s : Monitoring T) (t : T)
      → s.global ≡ none
      → s.python.tool_used ≡ false
      → succeeds use_tool ≡ true
      → install_tracer succeeds methods s t ≡ hook succeeds methods s t
  unfolding install_tracer
  install_eq s t h k e =
      (λ i. install_over succeeds methods s t (h i))
      ∙ (λ i. hook_if succeeds methods (k i) s t)
      ∙ λ i. if e i then hook succeeds methods s t else (s, python_error)

  -- If no tracer is installed, the id of the tool is free and CPython gives it, and the install
  -- fails nevertheless, then the next install fails as well and changes nothing: the id is not
  -- given back.
  pub install_tracer-python_error :
      (s : Monitoring T) (t next : T)
      → s.global ≡ none
      → s.python.tool_used ≡ false
      → succeeds use_tool ≡ true
      → (install_tracer succeeds methods s t).1 ≡ python_error
      → let failed = (install_tracer succeeds methods s t).0 in
        install_tracer succeeds methods failed next ≡ (failed, python_error)
  install_tracer-python_error s t next h k e f =
      let eq = install_eq s t h k e in
      let start = record s.python { tool_used = true } in
      let r = register_enabled_callbacks succeeds (enabled_specs methods.interest) start in
      stuck_lem (install_tracer succeeds methods s t).0 next (
        subst (λ x. IsStuck x.0) (sym eq)
          (events-IsStuck s t r.0 r.1 h (register-used (enabled_specs methods.interest) start)
            (subst (λ x. x.1 ≡ python_error) eq f)))
