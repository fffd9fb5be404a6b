-- ===== src/Values/Policy.antt =====
-- What the policy of values keeps out of a trace in value_capture.rs.
use codetracer_python_record.Prelude.{
  ℕ, ◌+◌, Option, none, some, List, [], ◌∷◌, ◌≡◌, ◌≢◌, refl, String, All, All-append, Bool-cases,
  Option-cases, inl, inr, ◌⊎◌, unwrap_or, take, drop,
}
use codetracer_python_record.Values.{
  ValueKind, arg, local, global, return_kind, ValueAction, allow, redact, drop_value, ValuePolicy,
  cbor, Encoded, encoded, redacted, dropped, WriterCall, ensure_type_id, encodes, make_arg,
  register_variable, register_return, Capture, action_of, encode_action,
  encode_with_policy_streaming, calls_writer, record_redaction, record_drop, dropped_value,
  or_dropped, record_return_value_streaming, redacted_type, dropped_type, encode_named_argument,
  encode_with_policy, Arguments, CallFrame, take_required, take_optional, after_positional,
  after_varargs, kwonly_take, flagged, args, missing_positional, missing_keyword, capture_between,
  capture_call_arguments, FrameSnapshot, registered, is_skipped, record_locals, record_globals,
  record_visible_scope_streaming,
}

-- The policy lets a value be seen, and its name.
abbrev pub Shows : Option ValuePolicy → ValueKind → String → Type 0
Shows policy kind name = action_of policy kind name ≡ allow

abbrev pub Names : Option ValuePolicy → ValueKind → String → Type 0
Names policy kind name = action_of policy kind name ≢ drop_value

-- What a handler captures.
pub data CaptureStep (V : Type 0) : Type 0 where
  scope : FrameSnapshot V → List String → CaptureStep V
  arguments_of : CallFrame V → CaptureStep V
  exception : V → String → CaptureStep V
  returns : V → Option String → CaptureStep V

module _ {V : Type 0} (policy : Option ValuePolicy) where
  -- A value goes to the encoder only where the policy lets it be seen; a variable is named only
  -- where the policy does not drop it, and carries its value only where it may be seen.
  abbrev pub IsPermitted : WriterCall V → Type 0
  IsPermitted (ensure_type_id s) = Unit
  IsPermitted (encodes kind name value) = Shows policy kind name
  IsPermitted (make_arg name (encoded form value)) = Shows policy arg name
  IsPermitted (make_arg name (redacted form)) = Names policy arg name
  IsPermitted (make_arg name (dropped form)) = ⊥
  IsPermitted (register_variable name (encoded form value)) =
      Shows policy local name ⊎ Shows policy global name
  IsPermitted (register_variable name (redacted form)) =
      Names policy local name ⊎ Names policy global name
  IsPermitted (register_variable name (dropped form)) = ⊥
  IsPermitted (register_return (encoded form value)) = Unit
  IsPermitted (register_return (redacted form)) = Unit
  IsPermitted (register_return (dropped form)) = Unit

  abbrev pub Permits : Capture V → Type 0
  Permits c = All IsPermitted c.calls

  calls_writer-Permits :
      (call : WriterCall V) (c : Capture V)
      → IsPermitted call
      → Permits c
      → Permits (calls_writer call c)
  calls_writer-Permits call c p h = All-append IsPermitted c.calls (call ∷ []) h (p, tt)

  -- What an encoding leaves, and the value that it hands on.
  abbrev Keeps : ValueKind → String → Capture V × Option (Encoded V) → Type 0
  Keeps kind name (c, none) = Permits c
  Keeps kind name (c, some (encoded form value)) = Permits c × Shows policy kind name
  Keeps kind name (c, some (redacted form)) = Permits c × Names policy kind name
  Keeps kind name (c, some (dropped form)) = ⊥

  streaming-Keeps :
      (kind : ValueKind) (name : String) (value : V) (c : Capture V) (action : ValueAction)
      → action_of policy kind name ≡ action
      → Permits c
      → Keeps kind name (encode_with_policy_streaming policy kind name value c)
  unfolding encode_with_policy_streaming encode_action
  streaming-Keeps kind name value c allow e h =
      rw e (calls_writer-Permits (encodes kind name value) c e h, e)
  streaming-Keeps kind name value c redact e h =
      rw e (calls_writer-Permits (ensure_type_id _) (record_redaction kind c) tt h, λ q. cc)
  streaming-Keeps kind name value c drop_value e h = rw e h

  local-Permits :
      (name : String) (r : Capture V × Option (Encoded V)) (recorded : List String)
      → Keeps local name r
      → Permits (registered policy name r recorded).0
  local-Permits name (c, none) recorded h = h
  local-Permits name (c, some (encoded form value)) recorded h =
      calls_writer-Permits (register_variable name (encoded form value)) c (inl h.1) h.0
  local-Permits name (c, some (redacted form)) recorded h =
      calls_writer-Permits (register_variable name (redacted form)) c (inl h.1) h.0
  local-Permits name (c, some (dropped form)) recorded h = absurd h

  global-Permits :
      (name : String) (r : Capture V × Option (Encoded V)) (recorded : List String)
      → Keeps global name r
      → Permits (registered policy name r recorded).0
  global-Permits name (c, none) recorded h = h
  global-Permits name (c, some (encoded form value)) recorded h =
      calls_writer-Permits (register_variable name (encoded form value)) c (inr h.1) h.0
  global-Permits name (c, some (redacted form)) recorded h =
      calls_writer-Permits (register_variable name (redacted form)) c (inr h.1) h.0
  global-Permits name (c, some (dropped form)) recorded h = absurd h

  locals-Permits :
      (items : List (Option String × V)) (c : Capture V) (recorded : List String)
      → Permits c
      → Permits (record_locals policy items c recorded).0
  unfolding record_locals
  locals-Permits [] c recorded h = h
  locals-Permits ((none, value) ∷ items) c recorded h = locals-Permits items c recorded h
  locals-Permits ((some name, value) ∷ items) c recorded h =
      let r = encode_with_policy_streaming policy local name value c in
      locals-Permits items (registered policy name r recorded).0
        (registered policy name r recorded).1
        (local-Permits name r recorded (streaming-Keeps local name value c _ refl h))

  globals-Permits :
      (items : List (Option String × V)) (c : Capture V) (recorded : List String)
      → Permits c
      → Permits (record_globals policy items c recorded).0
  unfolding record_globals
  globals-Permits [] c recorded h = h
  globals-Permits ((none, value) ∷ items) c recorded h = globals-Permits items c recorded h
  globals-Permits ((some name, value) ∷ items) c recorded h =
      let r = encode_with_policy_streaming policy global name value c in
      elim (Bool-cases (is_skipped name recorded)) [
        | inl e ↦ rw (e, record_globals) (globals-Permits items c recorded h)
        | inr e ↦
            rw (e, record_globals)
              (globals-Permits items (registered policy name r recorded).0
                (registered policy name r recorded).1
                (global-Permits name r recorded (streaming-Keeps global name value c _ refl h)))
      ]

  scope-Permits :
      (s : FrameSnapshot V) (c : Capture V) (recorded : List String)
      → Permits c
      → Permits (record_visible_scope_streaming policy s c recorded).0
  unfolding record_visible_scope_streaming
  scope-Permits s c recorded h =
      let l = record_locals policy s.locals c recorded in
      let kept = locals-Permits s.locals c recorded h in
      elim (Bool-cases s.locals_is_globals) [
        | inl e ↦ rw e kept
        | inr e ↦ rw e (elim (Option-cases s.globals) [
          | inl n ↦ rw n kept
          | inr (items, n) ↦ rw n (globals-Permits items l.0 l.1 kept)
        ])
      ]

  argument-Permits :
      (value : V) (name : String) (c : Capture V) (action : ValueAction)
      → action_of policy arg name ≡ action
      → Permits c
      → Permits (encode_named_argument policy value name c).0
  unfolding encode_named_argument encode_with_policy encode_action
  argument-Permits value name c allow e h = rw e (
      calls_writer-Permits (make_arg name _) (calls_writer (encodes arg name value) c) e
        (calls_writer-Permits (encodes arg name value) c e h))
  argument-Permits value name c redact e h =
      let seen = record_redaction arg c in
      rw e (
        calls_writer-Permits (make_arg name _) (calls_writer (ensure_type_id redacted_type) seen)
          (λ q. cc) (calls_writer-Permits (ensure_type_id redacted_type) seen tt h))
  argument-Permits value name c drop_value e h = rw e h

  return-Permits :
      (value : V) (name : String) (c : Capture V) (action : ValueAction)
      → action_of policy return_kind name ≡ action
      → Permits c
      → Permits
          (or_dropped policy cbor (encode_with_policy_streaming policy return_kind name value c)).0
  unfolding encode_with_policy_streaming encode_action dropped_value
  return-Permits value name c allow e h =
      rw e (calls_writer-Permits (encodes return_kind name value) c e h)
  return-Permits value name c redact e h =
      rw e
        (calls_writer-Permits (ensure_type_id redacted_type) (record_redaction return_kind c) tt h)
  return-Permits value name c drop_value e h =
      rw e (calls_writer-Permits (ensure_type_id dropped_type) (record_drop return_kind c) tt h)

  returned-Permits :
      (e : Encoded V) (c : Capture V) → Permits c → Permits (calls_writer (register_return e) c)
  returned-Permits (encoded form value) c h =
      calls_writer-Permits (register_return (encoded form value)) c tt h
  returned-Permits (redacted form) c h =
      calls_writer-Permits (register_return (redacted form)) c tt h
  returned-Permits (dropped form) c h = calls_writer-Permits (register_return (dropped form)) c tt h

  abbrev KeepsPermits : (Capture V → Capture V × Arguments V) → Type 0
  KeepsPermits next = (c : Capture V) → Permits c → Permits (next c).0

  module _ (f : CallFrame V) where
    required-Permits :
        (missing : String → Arguments V) (names : List String)
        (next : Capture V → Capture V × Arguments V)
        → KeepsPermits next
        → KeepsPermits (take_required policy f missing names next)
    unfolding take_required
    required-Permits missing [] next keeps c h = keeps c h
    required-Permits missing (name ∷ names) next keeps c h = elim (Option-cases (f.locals name)) [
      | inl n ↦ rw (n, take_required) h
      | inr (value, n) ↦
          rw (n, take_required)
            (required-Permits missing names next keeps (encode_named_argument policy value name c).0
              (argument-Permits value name c _ refl h))
    ]

    optional-Permits :
        (name : Option String) (next : Capture V → Capture V × Arguments V)
        → KeepsPermits next
        → KeepsPermits (take_optional policy f name next)
    unfolding take_optional
    optional-Permits none next keeps c h = keeps c h
    optional-Permits (some name) next keeps c h = elim (Option-cases (f.locals name)) [
      | inl n ↦ rw (n, take_optional) (keeps c h)
      | inr (value, n) ↦
          rw (n, take_optional)
            (keeps (encode_named_argument policy value name c).0
              (argument-Permits value name c _ refl h))
    ]

    between-Permits :
        (positional start count : ℕ)
        → KeepsPermits (capture_between policy f positional start count)
    unfolding capture_between
    between-Permits positional start count =
        let last : Capture V → Capture V × Arguments V = λ c. (c, args []) in
        let keywords =
          take_optional policy f (flagged policy f f.varkeywords (start + count)) last in
        let names = take count (drop start f.varnames) in
        let only = take_required policy f (λ name. missing_keyword name) names keywords in
        let rest = take_optional policy f (flagged policy f f.varargs positional) only in
        required-Permits (λ name. missing_positional name) (take positional f.varnames) rest
          (optional-Permits (flagged policy f f.varargs positional) only (
            required-Permits (λ name. missing_keyword name) names keywords
              (optional-Permits (flagged policy f f.varkeywords (start + count)) last (λ c h. h))))

    arguments-Permits : KeepsPermits (capture_call_arguments policy f)
    unfolding capture_call_arguments
    arguments-Permits =
        between-Permits (after_positional policy f) (after_varargs policy f) (kwonly_take policy f)

  unfoldable pub capture_step : Capture V → CaptureStep V → Capture V
  capture_step c (scope s recorded) = (record_visible_scope_streaming policy s c recorded).0
  capture_step c (arguments_of f) = (capture_call_arguments policy f c).0
  capture_step c (exception value name) = (encode_named_argument policy value name c).0
  capture_step c (returns value candidate) = record_return_value_streaming policy value candidate c

  unfoldable pub capture_run : Capture V → List (CaptureStep V) → Capture V
  unfolding capture_step
  capture_run c [] = c
  capture_run c (s ∷ steps) = capture_run (capture_step c s) steps

  capture_step-Permits :
      (c : Capture V) (s : CaptureStep V) → Permits c → Permits (capture_step c s)
  unfolding capture_step record_return_value_streaming
  capture_step-Permits c (scope s recorded) h = scope-Permits s c recorded h
  capture_step-Permits c (arguments_of f) h = arguments-Permits f c h
  capture_step-Permits c (exception value name) h = argument-Permits value name c _ refl h
  capture_step-Permits c (returns value candidate) h =
      let r = or_dropped policy cbor (
        encode_with_policy_streaming policy return_kind (unwrap_or candidate "<return>") value c) in
      returned-Permits r.1 r.0 (return-Permits value (unwrap_or candidate "<return>") c _ refl h)

  -- If each call on the writer so far is one that the policy of values permits, then each is
  -- behind any sequence of captured scopes, calls, exceptions and returns: a value goes to the
  -- encoder only where the policy lets it be seen, an argument or a variable is named only where
  -- the policy does not drop it, and it carries its value only where that may be seen.
  pub capture_run-Permits :
      (c : Capture V) (steps : List (CaptureStep V)) → Permits c → Permits (capture_run c steps)
  unfolding capture_run
  capture_run-Permits c [] h = h
  capture_run-Permits c (s ∷ steps) h =
      capture_run-Permits (capture_step c s) steps (capture_step-Permits c s h)
