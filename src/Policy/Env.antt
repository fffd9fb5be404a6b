-- ===== src/Policy/Env.antt =====
-- `configure_policy_from_env` of policy/env.rs and `configure_policy_py` of policy/ffi.rs. The
-- environment is a function: `none` for a variable that is unset or not Unicode. The global policy
-- is the state that both update; the call that hands the new policy to the logger is left out.
use codetracer_python_record.Prelude.{
  Bool, Option, none, some, String, if◌then◌else◌, is_empty, Text, trim,
}
use codetracer_python_record.Policy.{
  RecorderPolicy, PolicyPath, clear, value, PolicyUpdate, apply_update,
}
use codetracer_python_record.Policy.Parse.{
  Result, ok, err, ◌>>=◌, on_recorder_error_from_str, parse_bool, parse_capture_io,
}

-- The process environment.
abbrev pub Env : Type 0
Env = String → Option Text

-- A parser on a variable that may be unset.
abbrev pub parsed : {A : Type 0} → (Text → Result A) → Option Text → Result (Option A)
parsed parse none = ok none
parsed parse (some s) = parse s >>= λ a. ok (some a)

-- `PolicyPath` of a text: blank clears.
unfoldable pub path_update : Text → PolicyPath
path_update s = if is_empty (trim s) then clear else value s

abbrev path_of : Option Text → Option PolicyPath
path_of none = none
path_of (some s) = some (path_update s)

abbrev first_of_pair : Option (Bool × Bool) → Option Bool
first_of_pair none = none
first_of_pair (some p) = some p.0

abbrev second_of_pair : Option (Bool × Bool) → Option Bool
second_of_pair none = none
second_of_pair (some p) = some p.1

-- The update that the variables ask for, or the first bad value.
unfoldable pub update_from_env : Env → Result PolicyUpdate
update_from_env env = do
  on_err ← parsed on_recorder_error_from_str (env "CODETRACER_ON_RECORDER_ERROR")
  require ← parsed parse_bool (env "CODETRACER_REQUIRE_TRACE")
  keep_partial ← parsed parse_bool (env "CODETRACER_KEEP_PARTIAL_TRACE")
  json ← parsed parse_bool (env "CODETRACER_JSON_ERRORS")
  capture ← parsed parse_capture_io (env "CODETRACER_CAPTURE_IO")
  from_globals ← parsed parse_bool (env "CODETRACER_MODULE_NAME_FROM_GLOBALS")
  propagate ← parsed parse_bool (env "CODETRACER_PROPAGATE_SCRIPT_EXIT")
  ok (record {
    on_recorder_error = on_err;
    require_trace = require;
    keep_partial_trace = keep_partial;
    log_level = env "CODETRACER_LOG_LEVEL";
    log_file = path_of (env "CODETRACER_LOG_FILE");
    json_errors = json;
    io_capture_line_proxies = first_of_pair capture;
    io_capture_fd_fallback = second_of_pair capture;
    module_name_from_globals = from_globals;
    propagate_script_exit = propagate;
  })

-- The policy afterwards, and the result.
abbrev pub applied : RecorderPolicy → Result PolicyUpdate → RecorderPolicy × Result (Unit {0})
applied p (ok u) = (apply_update p u, ok tt)
applied p (err e) = (p, err e)

unfoldable pub configure_policy_from_env : RecorderPolicy → Env → RecorderPolicy × Result (Unit {0})
configure_policy_from_env p env = applied p (update_from_env env)

-- The arguments of `configure_policy_py`.
pub record PolicyArgs : Type 0 where
  pub on_recorder_error : Option Text
  pub require_trace : Option Bool
  pub keep_partial_trace : Option Bool
  pub log_level : Option Text
  pub log_file : Option Text
  pub json_errors : Option Bool
  pub io_capture_line_proxies : Option Bool
  pub io_capture_fd_fallback : Option Bool
  pub module_name_from_globals : Option Bool
  pub propagate_script_exit : Option Bool

unfoldable pub update_from_args : PolicyArgs → Result PolicyUpdate
update_from_args a = do
  on_err ← parsed on_recorder_error_from_str a.on_recorder_error
  ok (record {
    on_recorder_error = on_err;
    require_trace = a.require_trace;
    keep_partial_trace = a.keep_partial_trace;
    log_level = a.log_level;
    log_file = path_of a.log_file;
    json_errors = a.json_errors;
    io_capture_line_proxies = a.io_capture_line_proxies;
    io_capture_fd_fallback = a.io_capture_fd_fallback;
    module_name_from_globals = a.module_name_from_globals;
    propagate_script_exit = a.propagate_script_exit;
  })

unfoldable pub configure_policy_py :
    RecorderPolicy → PolicyArgs → RecorderPolicy × Result (Unit {0})
configure_policy_py p a = applied p (update_from_args a)
