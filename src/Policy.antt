-- ===== src/Policy.antt =====
-- The recorder's policy, codetracer-python-recorder/src/policy: its data and updates here, and in
-- the children its readers from the environment and from Python, and what they guarantee.
pub mod Parse
pub mod Env
pub mod Update
pub mod Capture
pub mod Atomic
use codetracer_python_record.Prelude.{
  Bool, true, false, not, ◌&&◌, Option, none, some, if◌then◌else◌, unwrap_or, is_empty, Text, trim,
}

pub data OnRecorderError : Type 0 where
  abort disable : OnRecorderError

pub record IoCapturePolicy : Type 0 where
  pub line_proxies : Bool
  pub fd_fallback : Bool

-- A path is its text.
pub record RecorderPolicy : Type 0 where
  pub on_recorder_error : OnRecorderError
  pub require_trace : Bool
  pub keep_partial_trace : Bool
  pub log_level : Option Text
  pub log_file : Option Text
  pub json_errors : Bool
  pub io_capture : IoCapturePolicy
  pub module_name_from_globals : Bool
  pub propagate_script_exit : Bool

abbrev pub default_io_capture : IoCapturePolicy
default_io_capture = record { line_proxies = true; fd_fallback = false }

abbrev pub default_policy : RecorderPolicy
default_policy = record {
  on_recorder_error = abort;
  require_trace = false;
  keep_partial_trace = false;
  log_level = none;
  log_file = none;
  json_errors = false;
  io_capture = default_io_capture;
  module_name_from_globals = true;
  propagate_script_exit = false;
}

pub data PolicyPath : Type 0 where
  clear : PolicyPath
  value : Text → PolicyPath

pub record PolicyUpdate : Type 0 where
  pub on_recorder_error : Option OnRecorderError
  pub require_trace : Option Bool
  pub keep_partial_trace : Option Bool
  pub log_level : Option Text
  pub log_file : Option PolicyPath
  pub json_errors : Option Bool
  pub io_capture_line_proxies : Option Bool
  pub io_capture_fd_fallback : Option Bool
  pub module_name_from_globals : Option Bool
  pub propagate_script_exit : Option Bool

-- `PolicyUpdate::default()`: nothing changes.
abbrev pub no_update : PolicyUpdate
no_update = record {
  on_recorder_error = none;
  require_trace = none;
  keep_partial_trace = none;
  log_level = none;
  log_file = none;
  json_errors = none;
  io_capture_line_proxies = none;
  io_capture_fd_fallback = none;
  module_name_from_globals = none;
  propagate_script_exit = none;
}

-- A blank level clears the field.
unfoldable pub new_log_level : Option Text → Option Text → Option Text
new_log_level none old = old
new_log_level (some level) old =
    let trimmed = trim level in if is_empty trimmed then none else some trimmed

unfoldable pub new_log_file : Option PolicyPath → Option Text → Option Text
new_log_file none old = old
new_log_file (some clear) old = none
new_log_file (some (value path)) old = some path

-- Switching the proxies off switches the fallback off.
unfoldable pub set_line_proxies : Option Bool → IoCapturePolicy → IoCapturePolicy
set_line_proxies none io = io
set_line_proxies (some on) io = record {
  line_proxies = on;
  fd_fallback = if not on then false else io.fd_fallback;
}

-- The fallback requires the proxies to be on.
unfoldable pub set_fd_fallback : Option Bool → IoCapturePolicy → IoCapturePolicy
set_fd_fallback none io = io
set_fd_fallback (some on) io = record io { fd_fallback = on && io.line_proxies }

-- `RecorderPolicy::apply_update`.
unfoldable pub apply_update : RecorderPolicy → PolicyUpdate → RecorderPolicy
apply_update p u = record {
  on_recorder_error = unwrap_or u.on_recorder_error p.on_recorder_error;
  require_trace = unwrap_or u.require_trace p.require_trace;
  keep_partial_trace = unwrap_or u.keep_partial_trace p.keep_partial_trace;
  log_level = new_log_level u.log_level p.log_level;
  log_file = new_log_file u.log_file p.log_file;
  json_errors = unwrap_or u.json_errors p.json_errors;
  io_capture =
      set_fd_fallback u.io_capture_fd_fallback
        (set_line_proxies u.io_capture_line_proxies p.io_capture);
  module_name_from_globals = unwrap_or u.module_name_from_globals p.module_name_from_globals;
  propagate_script_exit = unwrap_or u.propagate_script_exit p.propagate_script_exit;
}
