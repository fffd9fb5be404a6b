-- ===== src/Monitoring.antt =====
-- How the tracer hangs on `sys.monitoring`: monitoring/callbacks.rs, monitoring/install.rs and the calls
-- of CPython in monitoring/mod.rs. The tracer is any type with the methods that these files call. A
-- call of CPython may fail; it takes an id that is in use no second time. An event id is one bit of a
-- set, so a set is a test on ids. The cache of code objects is left out.
pub mod Hooks
pub mod Failures
use codetracer_python_record.Prelude.{
  ℕ, Bool, true, false, ◌&&◌, Option, none, some, List, [], ◌∷◌, ◌++◌, if◌then◌else◌, ◌==◌, keep,
}
use codetracer_python_record.Policy.{OnRecorderError, abort, disable}
use codetracer_python_record.Tracer.{CallbackOutcome, continue_events, disable_location}

-- The events that have a callback.
pub data EventId : Type 0 where
  call line instruction jump branch py_start py_resume py_return py_yield py_throw : EventId
  py_unwind raise reraise exception_handled c_return c_raise : EventId

abbrev pub bit : EventId → ℕ
bit call = 0
bit line = 1
bit instruction = 2
bit jump = 3
bit branch = 4
bit py_start = 5
bit py_resume = 6
bit py_return = 7
bit py_yield = 8
bit py_throw = 9
bit py_unwind = 10
bit raise = 11
bit reraise = 12
bit exception_handled = 13
bit c_return = 14
bit c_raise = 15

abbrev pub EventSet : Type 0
EventSet = EventId → Bool

abbrev pub no_events : EventSet
no_events e = false

unfoldable pub callback_specs : List EventId
callback_specs =
    call ∷ line ∷ instruction ∷ jump ∷ branch ∷ py_start ∷ py_resume ∷ py_return ∷ py_yield
    ∷ py_throw ∷ py_unwind ∷ raise ∷ reraise ∷ exception_handled ∷ c_return ∷ c_raise ∷ []

unfoldable pub enabled_specs : EventSet → List EventId
unfolding callback_specs
enabled_specs mask = keep mask callback_specs

-- What CPython holds for the id of the tool: whether it is in use, the events that have a callback,
-- and those that are on.
pub record Interpreter : Type 0 where
  pub tool_used : Bool
  pub callbacks : EventSet
  pub events : EventSet

pub data PyCall : Type 0 where
  use_tool : PyCall
  registers unregisters : EventId → PyCall
  sets_events : PyCall
  clears_events : PyCall
  free_tool : PyCall

abbrev pub set_callback : Bool → EventId → Interpreter → Interpreter
set_callback on id p = record p { callbacks = λ e. if bit e == bit id then on else p.callbacks e }

module _ (succeeds : PyCall → Bool) where
  unfoldable pub register_enabled_callbacks : List EventId → Interpreter → Interpreter × Bool
  register_enabled_callbacks [] p = (p, true)
  register_enabled_callbacks (id ∷ ids) p =
      let rest = register_enabled_callbacks ids (set_callback true id p) in
      if succeeds (registers id) then rest else (p, false)

  unfoldable pub unregister_enabled_callbacks : List EventId → Interpreter → Interpreter × Bool
  unregister_enabled_callbacks [] p = (p, true)
  unregister_enabled_callbacks (id ∷ ids) p =
      let rest = unregister_enabled_callbacks ids (set_callback false id p) in
      if succeeds (unregisters id) then rest else (p, false)

  abbrev pub free_tool_id : Interpreter → Interpreter × Bool
  free_tool_id p = if succeeds free_tool then (record p { tool_used = false }, true) else (p, false)

  abbrev pub clear_events : Interpreter × Bool → Interpreter × Bool
  clear_events (p, false) = (p, false)
  clear_events (p, true) =
      if succeeds clears_events then free_tool_id (record p { events = no_events }) else (p, false)

  unfoldable pub clean_up : EventSet → Interpreter → Interpreter × Bool
  unfolding unregister_enabled_callbacks
  clean_up mask p = clear_events (unregister_enabled_callbacks (enabled_specs mask) p)

-- How a method of the tracer ends.
pub data Ran : Type 0 where
  returns : CallbackOutcome → Ran
  fails panics : Ran

-- `catch_callback`: a panic becomes an error, which is `none`.
abbrev pub catch_callback : Ran → Option CallbackOutcome
catch_callback (returns outcome) = some outcome
catch_callback fails = none
catch_callback panics = none

-- The methods of a tracer `T`; `E` is what an event brings.
pub record Methods (T : Type 0) (E : Type 0) : Type 0 where
  pub interest : EventSet
  pub on_event : T → E → T × Ran
  pub notify_failure : T → T
  pub finish : T → T × Bool

pub record Global (T : Type 0) : Type 0 where
  pub tracer : T
  pub mask : EventSet

-- What is installed, CPython, and the tracers that were finished, in turn.
pub record Monitoring (T : Type 0) : Type 0 where
  pub global : Option (Global T)
  pub python : Interpreter
  pub finished : List T

-- What Python gets: `None`, the sentinel that turns a location off, or an exception.
pub data PyAnswer : Type 0 where
  none_answer disable_sentinel raised : PyAnswer

pub data InstallAnswer : Type 0 where
  installed conflict python_error : InstallAnswer

abbrev pub answer_of : Bool → PyAnswer
answer_of true = none_answer
answer_of false = raised

module _ {T E : Type 0} (succeeds : PyCall → Bool) (methods : Methods T E) where
  abbrev pub take_down : Monitoring T → Option (Global T) → Monitoring T × Bool
  take_down s none = (s, true)
  take_down s (some g) =
      let (t, ok) = methods.finish g.tracer in
      let (p, clean) = clean_up succeeds g.mask s.python in
      (record { global = none; python = p; finished = s.finished ++ t ∷ [] }, ok && clean)

  unfoldable pub uninstall_locked : Monitoring T → Monitoring T × Bool
  unfolding clean_up
  uninstall_locked s = take_down s s.global

  abbrev pub hook_events : Monitoring T → T → Interpreter × Bool → Monitoring T × InstallAnswer
  hook_events s t (p, false) = (record s { python = p }, python_error)
  hook_events s t (p, true) =
      if succeeds sets_events
      then (
        record s {
          global = some (record { tracer = t; mask = methods.interest });
          python = record p { events = methods.interest };
        },
        installed,
      )
      else (record s { python = p }, python_error)

  abbrev pub hook : Monitoring T → T → Monitoring T × InstallAnswer
  hook s t = hook_events s t (
      register_enabled_callbacks succeeds (enabled_specs methods.interest)
        (record s.python { tool_used = true }))

  abbrev pub hook_if : Bool → Monitoring T → T → Monitoring T × InstallAnswer
  hook_if true s t = (s, python_error)
  hook_if false s t = if succeeds use_tool then hook s t else (s, python_error)

  abbrev pub install_over : Monitoring T → T → Option (Global T) → Monitoring T × InstallAnswer
  install_over s t (some g) = (s, conflict)
  install_over s t none = hook_if s.python.tool_used s t

  unfoldable pub install_tracer : Monitoring T → T → Monitoring T × InstallAnswer
  unfolding register_enabled_callbacks
  install_tracer s t = install_over s t s.global

  -- An error under the policy, with the tracer that failed and its mask.
  unfoldable pub handle_callback_error :
      OnRecorderError → Monitoring T → Global T → Monitoring T × PyAnswer
  unfolding uninstall_locked
  handle_callback_error abort s g = (record s { global = some g }, raised)
  handle_callback_error disable s g =
      let notified = record g { tracer = methods.notify_failure g.tracer } in
      let (s', ok) = uninstall_locked (record s { global = some notified }) in (s', answer_of ok)

  unfoldable pub handle_callback_result :
      OnRecorderError → Monitoring T → Global T → Option CallbackOutcome → Monitoring T × PyAnswer
  unfolding handle_callback_error
  handle_callback_result policy s g (some continue_events) =
      (record s { global = some g }, none_answer)
  handle_callback_result policy s g (some disable_location) =
      (record s { global = some g }, disable_sentinel)
  handle_callback_result policy s g none = handle_callback_error policy s g

  abbrev pub call_tracer :
      OnRecorderError → Monitoring T → E → Option (Global T) → Monitoring T × PyAnswer
  call_tracer policy s e none = (s, none_answer)
  call_tracer policy s e (some g) =
      let (t, ran) = methods.on_event g.tracer e in
      handle_callback_result policy s (record g { tracer = t }) (catch_callback ran)

  -- A callback of `sys.monitoring`.
  unfoldable pub callback : OnRecorderError → Monitoring T → E → Monitoring T × PyAnswer
  unfolding handle_callback_result
  callback policy s e = call_tracer policy s e s.global

-- What happens: an install, an event under the policy of that time, or an uninstall.
pub data MonitoringStep (T : Type 0) (E : Type 0) : Type 0 where
  installs : T → MonitoringStep T E
  event : OnRecorderError → E → MonitoringStep T E
  uninstalls : MonitoringStep T E

module _ {T E : Type 0} (succeeds : PyCall → Bool) (methods : Methods T E) where
  unfoldable pub monitoring_step : Monitoring T → MonitoringStep T E → Monitoring T
  unfolding install_tracer callback uninstall_locked
  monitoring_step s (installs t) = (install_tracer succeeds methods s t).0
  monitoring_step s (event policy e) = (callback succeeds methods policy s e).0
  monitoring_step s uninstalls = (uninstall_locked succeeds methods s).0

  unfoldable pub monitoring_run : Monitoring T → List (MonitoringStep T E) → Monitoring T
  unfolding monitoring_step
  monitoring_run s [] = s
  monitoring_run s (x ∷ xs) = monitoring_run (monitoring_step s x) xs
