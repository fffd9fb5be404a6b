-- ===== src/Tests/Values.antt =====
-- The theorems on the capture of values at concrete inputs.
use codetracer_python_record.Prelude.{
  ℕ, ◌≡◌, refl, true, false, Option, none, some, List, [], ◌∷◌, ◌++◌, String, str_eq, if◌then◌else◌,
  arith, take,
}
use codetracer_python_record.Emission.{has_name}
use codetracer_python_record.Values.{
  ValueKind, local, global, arg, return_kind, attr, ValueAction, allow, redact, drop_value,
  ValuePolicy, WriterCall, encodes, register_variable, encoded, cbor, new_capture, CallFrame, args,
  capture_call_arguments, FrameSnapshot, record_visible_scope_streaming,
}
use codetracer_python_record.Values.Calls.{announced, kept_arguments, capture_call_arguments_lem}
use codetracer_python_record.Values.Policy.{
  Permits, scope, arguments_of, exception, returns, capture_run, capture_run-Permits,
}
use codetracer_python_record.Values.Scope.{
  Distinct, registered_names, record_visible_scope_streaming-Distinct,
  record_visible_scope_streaming-shadowed,
}

abbrev guarded : Option ValuePolicy
guarded = some (λ kind name.
    if str_eq name "token" then drop_value else if str_eq name "key" then redact else allow)

-- `def f(a, *rest, key)`.
abbrev frame : CallFrame ℕ
frame = record {
  argcount = 1;
  kwonly = 1;
  varargs = true;
  varkeywords = false;
  varnames = "a" ∷ "key" ∷ "rest" ∷ "other" ∷ [];
  locals = λ name. some 7;
}

capture_call_arguments_example :
    (capture_call_arguments guarded frame (new_capture none)).1
    ≡ args (kept_arguments guarded frame (take (announced guarded frame) frame.varnames))
capture_call_arguments_example =
    capture_call_arguments_lem guarded frame (omega arith) (refl, (refl, (refl, tt)))
      (new_capture none)

abbrev snapshot : FrameSnapshot ℕ
snapshot = record {
  locals = (some "x", 1) ∷ (none, 2) ∷ (some "token", 3) ∷ [];
  globals = some ((some "x", 4) ∷ (some "key", 5) ∷ []);
  locals_is_globals = false;
}

capture_run-Permits_example : Permits guarded (
    capture_run guarded
      (new_capture none)
      (scope snapshot [] ∷ arguments_of frame ∷ exception 6 "exception" ∷ returns 7 none ∷ []))
capture_run-Permits_example =
    capture_run-Permits guarded (new_capture none)
      (scope snapshot [] ∷ arguments_of frame ∷ exception 6 "exception" ∷ returns 7 none ∷ []) tt

record_visible_scope_streaming-Distinct_example :
    (registered_names
        (record_visible_scope_streaming guarded snapshot (new_capture none) []).0.calls
      ≡ (record_visible_scope_streaming guarded snapshot (new_capture none) []).1)
    × Distinct (record_visible_scope_streaming guarded snapshot (new_capture none) []).1
unfolding has_name
record_visible_scope_streaming-Distinct_example =
    record_visible_scope_streaming-Distinct guarded snapshot none (refl, (refl, tt))

-- A policy that drops locals.
abbrev no_locals : ValueKind → String → ValueAction
no_locals local name = drop_value
no_locals global name = allow
no_locals arg name = allow
no_locals return_kind name = allow
no_locals attr name = allow

abbrev shadowing : FrameSnapshot ℕ
shadowing = record {
  locals = (some "password", 1) ∷ [];
  globals = some ((some "password", 2) ∷ []);
  locals_is_globals = false;
}

record_visible_scope_streaming-shadowed_example :
    (more : List (WriterCall ℕ)) × ((record_visible_scope_streaming
        (some no_locals)
        shadowing
        (new_capture none)
        []).0.calls
      ≡ (encodes global "password" 2 ∷ register_variable "password" (encoded cbor 2) ∷ []) ++ more)
unfolding has_name
record_visible_scope_streaming-shadowed_example =
    record_visible_scope_streaming-shadowed (some no_locals) shadowing none "password" 2 [] refl
      (refl, tt) refl refl refl refl
