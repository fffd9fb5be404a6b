-- ===== src/Tests/Monitoring.antt =====
-- The theorems on the monitoring at concrete inputs.
use codetracer_python_record.Prelude.{
  ℕ, ◌+◌, Bool, true, false, ◌≡◌, refl, none, some, [], ◌∷◌, List, if◌then◌else◌,
}
use codetracer_python_record.Policy.{OnRecorderError, abort, disable}
use codetracer_python_record.Tracer.{continue_events}
use codetracer_python_record.Monitoring.{
  line, PyCall, use_tool, registers, unregisters, sets_events, clears_events, free_tool, EventSet,
  no_events, returns, fails, Methods, Global, Monitoring, none_answer, python_error, MonitoringStep,
  installs, event, callback, install_tracer, monitoring_run, enabled_specs, callback_specs,
  register_enabled_callbacks,
}
use codetracer_python_record.Monitoring.Hooks.{accepts_all, IsHooked, monitoring_run-IsHooked}
use codetracer_python_record.Monitoring.Failures.{callback-disable, install_tracer-python_error}

abbrev lines_only : EventSet
lines_only line = true
lines_only e = false

-- A tracer that counts its events; an event that is `false` is an error.
abbrev counting : Methods ℕ Bool
counting = record {
  interest = lines_only;
  on_event = λ t e. (t + 1, if e then returns continue_events else fails);
  notify_failure = λ t. t + 100;
  finish = λ t. (t, true);
}

abbrev bare : Monitoring ℕ
bare = record {
  global = none;
  python = record { tool_used = false; callbacks = no_events; events = no_events };
  finished = [];
}

abbrev counter : Global ℕ
counter = record { tracer = 5; mask = lines_only }

abbrev counting_lines : Monitoring ℕ
counting_lines = record {
  global = some counter;
  python = record { tool_used = true; callbacks = lines_only; events = lines_only };
  finished = [];
}

abbrev history : List (MonitoringStep ℕ Bool)
history = installs 0 ∷ event abort true ∷ event disable false ∷ event disable true ∷ installs 7 ∷ []

monitoring_run-IsHooked_example : IsHooked (monitoring_run accepts_all counting bare history)
monitoring_run-IsHooked_example =
    monitoring_run-IsHooked counting bare history (refl, (λ e. refl), (λ e. refl))

callback-disable_example :
    let r = (callback accepts_all counting disable counting_lines false).0 in
    (r.global ≡ none)
    × (r.finished ≡ 106 ∷ [])
    × ((policy : OnRecorderError) (next : Bool)
        → callback accepts_all counting policy r next ≡ (r, none_answer))
callback-disable_example =
    callback-disable accepts_all counting counting_lines counter false refl refl

-- CPython refuses the callback of lines.
abbrev refuses_lines : PyCall → Bool
refuses_lines use_tool = true
refuses_lines (registers id) = false
refuses_lines (unregisters id) = true
refuses_lines sets_events = true
refuses_lines clears_events = true
refuses_lines free_tool = true

install_tracer-python_error_example :
    let failed = (install_tracer refuses_lines counting bare 1).0 in
    install_tracer refuses_lines counting failed 2 ≡ (failed, python_error)
unfolding install_tracer register_enabled_callbacks enabled_specs callback_specs
install_tracer-python_error_example =
    install_tracer-python_error refuses_lines counting bare 1 2 refl refl refl refl
