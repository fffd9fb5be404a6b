-- ===== src/Tests/Policy.antt =====
-- The policy theorems at concrete settings.
use codetracer_python_record.Prelude.{
  ◌≡◌, refl, true, false, none, some, codes, Text, trim, trim_start, trim_end, keep_before,
  is_whitespace, lower, to_ascii_lowercase, if◌then◌else◌, str_eq,
}
use codetracer_python_record.Policy.{PolicyUpdate, default_policy, no_update}
use codetracer_python_record.Policy.Parse.{
  PolicyError, bad_boolean, ok, err, parse_bool, parse_capture_io, split_list, is_proxy_word,
  is_fd_word, is_off_word, is_on_word,
}
use codetracer_python_record.Policy.Env.{
  Env, PolicyArgs, configure_policy_from_env, configure_policy_py, update_from_env,
}
use codetracer_python_record.Policy.Update.{IsConsistent}
use codetracer_python_record.Policy.Capture.{parse_capture_io_list}
use codetracer_python_record.Policy.Atomic.{configure_atomic}

abbrev mirror_only : PolicyUpdate
mirror_only = record no_update {
  io_capture_line_proxies = some false;
  io_capture_fd_fallback = some true;
}

parse_capture_io_example : parse_capture_io (codes " Proxies, FD ") ≡ ok (true, true)
unfolding trim trim_start trim_end keep_before is_whitespace to_ascii_lowercase lower split_list
    is_proxy_word is_fd_word is_off_word is_on_word
parse_capture_io_example = parse_capture_io_list (codes " Proxies, FD ") refl refl refl

-- An environment that sets the capture and a bad boolean.
abbrev env : Text → Env
env flag name =
    if str_eq name "CODETRACER_CAPTURE_IO"
    then some (codes "fd")
    else if str_eq name "CODETRACER_JSON_ERRORS"
    then some flag
    else none

-- What configuring from Python is given.
abbrev args : PolicyArgs
args = record {
  on_recorder_error = some (codes "explode");
  require_trace = some true;
  keep_partial_trace = none;
  log_level = none;
  log_file = none;
  json_errors = none;
  io_capture_line_proxies = some false;
  io_capture_fd_fallback = none;
  module_name_from_globals = none;
  propagate_script_exit = none;
}

configure_atomic_example :
    ((e : PolicyError)
      → (configure_policy_from_env default_policy (env (codes "maybe"))).1 ≡ err e
      → (configure_policy_from_env default_policy (env (codes "maybe"))).0 ≡ default_policy)
    × ((e : PolicyError)
        → (configure_policy_py default_policy args).1 ≡ err e
        → (configure_policy_py default_policy args).0 ≡ default_policy)
    × (IsConsistent default_policy
        → IsConsistent (configure_policy_from_env default_policy (env (codes "maybe"))).0
          × IsConsistent (configure_policy_py default_policy args).0)
configure_atomic_example = configure_atomic default_policy (env (codes "maybe")) args

bad_boolean_example :
    (configure_policy_from_env default_policy (env (codes "maybe"))).1
    ≡ err (bad_boolean (codes "maybe"))
unfolding configure_policy_from_env update_from_env parse_bool trim trim_start trim_end keep_before
    is_whitespace to_ascii_lowercase lower
bad_boolean_example = refl
