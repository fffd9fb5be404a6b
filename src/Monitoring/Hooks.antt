-- ===== src/Monitoring/Hooks.antt =====
-- What `sys.monitoring` holds while a tracer is installed, monitoring/install.rs.
use codetracer_python_record.Prelude.{
  Bool, true, false, ◌&&◌, ◌||◌, not, Option, none, some, List, [], ◌∷◌, ◌≡◌, refl, sym, ap, subst,
  ◌∙◌, Bool-cases, inl, inr, ◌==◌, keep, any, arith, get_elem?, unwrap_or,
}
use codetracer_python_record.Policy.{OnRecorderError, abort, disable}
use codetracer_python_record.Tracer.{CallbackOutcome, continue_events, disable_location}
use codetracer_python_record.Monitoring.{
  EventId, call, line, instruction, jump, branch, py_start, py_resume, py_return, py_yield,
  py_throw, py_unwind, raise, reraise, exception_handled, c_return, c_raise, clear_events,
  hook_events, bit, EventSet, no_events, callback_specs, enabled_specs, Interpreter, PyCall,
  set_callback, register_enabled_callbacks, unregister_enabled_callbacks, clean_up, Methods, Global,
  Monitoring, take_down, uninstall_locked, hook, hook_if, install_over, install_tracer,
  catch_callback, handle_callback_error, handle_callback_result, call_tracer, callback,
  MonitoringStep, installs, event, uninstalls, monitoring_step, monitoring_run,
}

-- CPython accepts all calls.
abbrev pub accepts_all : PyCall → Bool
accepts_all c = true

abbrev listed : EventId → List EventId → Bool
listed e ids = any (λ (id : EventId). bit e == bit id) ids

-- The callbacks that are there behind a loop over the ids.
register_lem :
    (ids : List EventId) (p : Interpreter) (e : EventId)
    → (register_enabled_callbacks accepts_all ids p).0.callbacks e ≡ (listed e ids || p.callbacks e)
unfolding register_enabled_callbacks
register_lem [] p e = refl
register_lem (id ∷ ids) p e =
    register_lem ids (set_callback true id p) e
    ∙ elim (Bool-cases (bit e == bit id)) [ inl h ↦ rw h (ground arith) | inr h ↦ rw h refl ]

unregister_lem :
    (ids : List EventId) (p : Interpreter) (e : EventId)
    → (unregister_enabled_callbacks accepts_all ids p).0.callbacks e
      ≡ (not (listed e ids) && p.callbacks e)
unfolding unregister_enabled_callbacks
unregister_lem [] p e = refl
unregister_lem (id ∷ ids) p e =
    unregister_lem ids (set_callback false id p) e
    ∙ elim (Bool-cases (bit e == bit id)) [ inl h ↦ rw h (ground arith) | inr h ↦ rw h refl ]

register_rest :
    (ids : List EventId) (p : Interpreter)
    → ((register_enabled_callbacks accepts_all ids p).0.tool_used ≡ p.tool_used)
      × ((register_enabled_callbacks accepts_all ids p).0.events ≡ p.events)
      × ((register_enabled_callbacks accepts_all ids p).1 ≡ true)
unfolding register_enabled_callbacks
register_rest [] p = (refl, refl, refl)
register_rest (id ∷ ids) p = register_rest ids (set_callback true id p)

unregister_done :
    (ids : List EventId) (p : Interpreter)
    → (unregister_enabled_callbacks accepts_all ids p).1 ≡ true
unfolding unregister_enabled_callbacks
unregister_done [] p = refl
unregister_done (id ∷ ids) p = unregister_done ids (set_callback false id p)

spec_at : (e : EventId) → get_elem? callback_specs (bit e) ≡ some e
unfolding callback_specs
spec_at call = refl
spec_at line = refl
spec_at instruction = refl
spec_at jump = refl
spec_at branch = refl
spec_at py_start = refl
spec_at py_resume = refl
spec_at py_return = refl
spec_at py_yield = refl
spec_at py_throw = refl
spec_at py_unwind = refl
spec_at raise = refl
spec_at reraise = refl
spec_at exception_handled = refl
spec_at c_return = refl
spec_at c_raise = refl

listed_all : (e : EventId) → listed e callback_specs ≡ true
unfolding callback_specs
listed_all call = refl
listed_all line = refl
listed_all instruction = refl
listed_all jump = refl
listed_all branch = refl
listed_all py_start = refl
listed_all py_resume = refl
listed_all py_return = refl
listed_all py_yield = refl
listed_all py_throw = refl
listed_all py_unwind = refl
listed_all raise = refl
listed_all reraise = refl
listed_all exception_handled = refl
listed_all c_return = refl
listed_all c_raise = refl

same_event : (e f : EventId) → (bit e == bit f) ≡ true → e ≡ f
same_event e f h =
    let eq : bit e ≡ bit f = ground arith in
    ap (λ o. unwrap_or o e) (sym (spec_at e) ∙ ap (λ n. get_elem? callback_specs n) eq ∙ spec_at f)

listed-keep :
    (mask : EventSet) (ids : List EventId) (e : EventId)
    → listed e (keep mask ids) ≡ (listed e ids && mask e)
listed-keep mask [] e = refl
listed-keep mask (id ∷ ids) e = elim (Bool-cases (bit e == bit id)) [
  | inl h ↦
      let same = ap mask (same_event e id h) in
      elim (Bool-cases (mask id)) [
        | inl k ↦ rw (same, k, h) refl
        | inr k ↦ rw (k, h) (listed-keep mask ids e ∙ rw (same, k) (ground arith))
      ]
  | inr h ↦ elim (Bool-cases (mask id)) [
    | inl k ↦ rw (k, h) (listed-keep mask ids e)
    | inr k ↦ rw (k, h) (listed-keep mask ids e)
  ]
]

specs_lem : (mask : EventSet) (e : EventId) → listed e (enabled_specs mask) ≡ mask e
unfolding enabled_specs
specs_lem mask e = listed-keep mask callback_specs e ∙ rw (listed_all e) refl

-- Nothing is left at CPython, or the tool with the callbacks and the events of the tracer.
abbrev pub Holds : {T : Type 0} → Option (Global T) → Interpreter → Type 0
Holds none p =
    (p.tool_used ≡ false)
    × ((e : EventId) → p.callbacks e ≡ false)
    × ((e : EventId) → p.events e ≡ false)
Holds (some g) p =
    (p.tool_used ≡ true)
    × ((e : EventId) → p.callbacks e ≡ g.mask e)
    × ((e : EventId) → p.events e ≡ g.mask e)

abbrev pub IsHooked : {T : Type 0} → Monitoring T → Type 0
IsHooked s = Holds s.global s.python

cleared_lem :
    (r : Interpreter × Bool)
    → r.1 ≡ true
    → (clear_events accepts_all r).0 ≡ record r.0 { events = no_events; tool_used = false }
cleared_lem (p, true) h = refl
cleared_lem (p, false) h = cc

clean_up-Holds :
    {T : Type 0} (g : Global T) (p : Interpreter)
    → Holds (some g) p
    → Holds {T = T} none (clean_up accepts_all g.mask p).0
unfolding clean_up
clean_up-Holds {T = T} g p (used, hooked, on) =
    let ids = enabled_specs g.mask in
    subst (λ q. Holds {T = T} none q)
      (sym (cleared_lem (unregister_enabled_callbacks accepts_all ids p) (unregister_done ids p)))
      (
        refl,
        (λ e. unregister_lem ids p e ∙ rw (specs_lem g.mask e, hooked e) (ground arith)),
        (λ e. refl),
      )

module _ {T E : Type 0} (methods : Methods T E) where
  take_down-Holds :
      (s : Monitoring T) (o : Option (Global T))
      → s.global ≡ o
      → Holds o s.python
      → IsHooked (take_down accepts_all methods s o).0
  take_down-Holds s none eq h = subst (λ o. Holds o s.python) (sym eq) h
  take_down-Holds s (some g) eq h = clean_up-Holds g s.python h

  uninstall_locked-IsHooked :
      (s : Monitoring T) → IsHooked s → IsHooked (uninstall_locked accepts_all methods s).0
  unfolding uninstall_locked
  uninstall_locked-IsHooked s h = take_down-Holds s s.global refl h

  hooked_lem :
      (s : Monitoring T) (t : T) (r : Interpreter × Bool)
      → r.1 ≡ true
      → (hook_events accepts_all methods s t r).0 ≡ record s {
        global = some (record { tracer = t; mask = methods.interest });
        python = record r.0 { events = methods.interest };
      }
  hooked_lem s t (p, true) h = refl
  hooked_lem s t (p, false) h = cc

  hook-IsHooked :
      (s : Monitoring T) (t : T)
      → Holds {T = T} none s.python
      → IsHooked (hook accepts_all methods s t).0
  hook-IsHooked s t (unused, bare, off) =
      let ids = enabled_specs methods.interest in
      let p = record s.python { tool_used = true } in
      let (used, events, done) = register_rest ids p in
      subst (λ q. IsHooked q)
        (sym (hooked_lem s t (register_enabled_callbacks accepts_all ids p) done))
        (
          used,
          (λ e. register_lem ids p e ∙ rw (specs_lem methods.interest e, bare e) (ground arith)),
          (λ e. refl),
        )

  install_over-IsHooked :
      (s : Monitoring T) (t : T) (o : Option (Global T))
      → s.global ≡ o
      → Holds o s.python
      → IsHooked (install_over accepts_all methods s t o).0
  install_over-IsHooked s t (some g) eq h = subst (λ o. Holds o s.python) (sym eq) h
  install_over-IsHooked s t none eq h =
      subst (λ b. IsHooked (hook_if accepts_all methods b s t).0) (sym h.0) (hook-IsHooked s t h)

  error-IsHooked :
      (policy : OnRecorderError) (s : Monitoring T) (g : Global T)
      → Holds (some g) s.python
      → IsHooked (handle_callback_error accepts_all methods policy s g).0
  unfolding handle_callback_error
  error-IsHooked abort s g h = h
  error-IsHooked disable s g h =
      let notified = record g { tracer = methods.notify_failure g.tracer } in
      uninstall_locked-IsHooked (record s { global = some notified }) h

  result-IsHooked :
      (policy : OnRecorderError) (s : Monitoring T) (g : Global T) (o : Option CallbackOutcome)
      → Holds (some g) s.python
      → IsHooked (handle_callback_result accepts_all methods policy s g o).0
  unfolding handle_callback_result
  result-IsHooked policy s g (some continue_events) h = h
  result-IsHooked policy s g (some disable_location) h = h
  result-IsHooked policy s g none h = error-IsHooked policy s g h

  call_tracer-IsHooked :
      (policy : OnRecorderError) (s : Monitoring T) (e : E) (o : Option (Global T))
      → s.global ≡ o
      → Holds o s.python
      → IsHooked (call_tracer accepts_all methods policy s e o).0
  call_tracer-IsHooked policy s e none eq h = subst (λ o. Holds o s.python) (sym eq) h
  call_tracer-IsHooked policy s e (some g) eq h =
      let (t, ran) = methods.on_event g.tracer e in
      result-IsHooked policy s (record g { tracer = t }) (catch_callback ran) h

  step-IsHooked :
      (s : Monitoring T) (x : MonitoringStep T E)
      → IsHooked s
      → IsHooked (monitoring_step accepts_all methods s x)
  unfolding monitoring_step install_tracer callback
  step-IsHooked s (installs t) h = install_over-IsHooked s t s.global refl h
  step-IsHooked s (event policy e) h = call_tracer-IsHooked policy s e s.global refl h
  step-IsHooked s uninstalls h = uninstall_locked-IsHooked s h

  -- Where CPython accepts every call, any sequence of installs, events under either policy, and
  -- uninstalls keeps this: without an installed tracer the id of the tool is free, and no event
  -- has a callback or is on; with one, the id is in use, and just the events of its mask have a
  -- callback and are on.
  pub monitoring_run-IsHooked :
      (s : Monitoring T) (xs : List (MonitoringStep T E))
      → IsHooked s
      → IsHooked (monitoring_run accepts_all methods s xs)
  unfolding monitoring_run
  monitoring_run-IsHooked s [] h = h
  monitoring_run-IsHooked s (x ∷ xs) h =
      monitoring_run-IsHooked (monitoring_step accepts_all methods s x) xs (step-IsHooked s x h)
