-- ===== src/Values.antt =====
-- The capture of values under the value policy, codetracer-python-recorder/src/runtime/value_capture.rs.
-- A Python value is a parameter; `encoded` stands for what the encoder makes of it (module Encoder).
-- The policy of the trace filter belongs to a crate that is not in the repository: it is a function
-- from the kind and the name of a value to an action. Names are texts that Python could encode.
pub mod Calls
pub mod Scope
pub mod Policy
use codetracer_python_record.Prelude.{
  ℕ, ◌+◌, ◌-◌, Bool, true, false, ◌&&◌, ◌||◌, Option, none, some, List, [], ◌∷◌, ◌++◌, String,
  str_eq, if◌then◌else◌, ltb, length, take, drop, get_elem?, unwrap_or,
}
use codetracer_python_record.Emission.{has_name, bind_name}

pub data ValueKind : Type 0 where
  arg local global return_kind attr : ValueKind

pub data ValueAction : Type 0 where
  allow redact drop_value : ValueAction

-- `ValuePolicy::decide`.
abbrev pub ValuePolicy : Type 0
ValuePolicy = ValueKind → String → ValueAction

-- A tree of records, or the bytes of the streaming encoder.
pub data Form : Type 0 where
  record_form cbor : Form

pub data Encoded (V : Type 0) : Type 0 where
  encoded : Form → V → Encoded V
  redacted dropped : Form → Encoded V

pub data Sentinel : Type 0 where
  redacted_type dropped_type : Sentinel

-- A call on the trace writer. `encodes` stands for the calls that the encoder makes for the value
-- of that kind and name.
pub data WriterCall (V : Type 0) : Type 0 where
  ensure_type_id : Sentinel → WriterCall V
  encodes : ValueKind → String → V → WriterCall V
  make_arg register_variable : String → Encoded V → WriterCall V
  register_return : Encoded V → WriterCall V

abbrev pub kind_eq : ValueKind → ValueKind → Bool
kind_eq arg arg = true
kind_eq local local = true
kind_eq global global = true
kind_eq return_kind return_kind = true
kind_eq attr attr = true
kind_eq a b = false

-- The arrays of counters, as functions of the kind.
pub record ValueFilterStats : Type 0 where
  pub redacted_count : ValueKind → ℕ
  pub dropped_count : ValueKind → ℕ

-- `ValueFilterStats::default`.
abbrev pub new_stats : ValueFilterStats
new_stats = record { redacted_count = λ k. 0; dropped_count = λ k. 0 }

abbrev pub bump : (ValueKind → ℕ) → ValueKind → ValueKind → ℕ
bump counts kind k = if kind_eq kind k then counts k + 1 else counts k

unfoldable pub count_redaction : ValueFilterStats → ValueKind → ValueFilterStats
count_redaction s kind = record s { redacted_count = bump s.redacted_count kind }

unfoldable pub count_drop : ValueFilterStats → ValueKind → ValueFilterStats
count_drop s kind = record s { dropped_count = bump s.dropped_count kind }

-- A metric that `record_dropped_event` was given.
pub data Metric : Type 0 where
  value_redacted value_dropped : ValueKind → Metric

-- What a capture changes: the calls on the writer, the counters, which are there if a policy is,
-- and the metrics.
pub record Capture (V : Type 0) : Type 0 where
  pub calls : List (WriterCall V)
  pub telemetry : Option ValueFilterStats
  pub metrics : List Metric

abbrev pub new_capture : {V : Type 0} → Option ValueFilterStats → Capture V
new_capture telemetry = record { calls = []; telemetry = telemetry; metrics = [] }

abbrev pub map_stats :
    (ValueFilterStats → ValueFilterStats) → Option ValueFilterStats → Option ValueFilterStats
map_stats f none = none
map_stats f (some s) = some (f s)

-- The answer of the policy, where there is one.
abbrev pub action_of : Option ValuePolicy → ValueKind → String → ValueAction
action_of none kind candidate = allow
action_of (some policy) kind candidate = policy kind candidate

-- A global that is not recorded.
abbrev pub is_skipped : String → List String → Bool
is_skipped name recorded = str_eq name "__builtins__" || has_name name recorded

abbrev pub min : ℕ → ℕ → ℕ
min a b = if ltb b a then b else a

module _ {V : Type 0} where
  abbrev pub calls_writer : WriterCall V → Capture V → Capture V
  calls_writer call c = record c { calls = c.calls ++ call ∷ [] }

  unfoldable pub record_redaction : ValueKind → Capture V → Capture V
  unfolding count_redaction
  record_redaction kind c = record c {
    telemetry = map_stats (λ s. count_redaction s kind) c.telemetry;
    metrics = c.metrics ++ value_redacted kind ∷ [];
  }

  unfoldable pub record_drop : ValueKind → Capture V → Capture V
  unfolding count_drop
  record_drop kind c = record c {
    telemetry = map_stats (λ s. count_drop s kind) c.telemetry;
    metrics = c.metrics ++ value_dropped kind ∷ [];
  }

  unfoldable pub redacted_value : Form → Capture V → Capture V × Encoded V
  redacted_value form c = (calls_writer (ensure_type_id redacted_type) c, redacted form)

  unfoldable pub dropped_value : Form → Capture V → Capture V × Encoded V
  dropped_value form c = (calls_writer (ensure_type_id dropped_type) c, dropped form)

  unfoldable pub encode_action :
      ValueAction → Form → ValueKind → String → V → Capture V → Capture V × Option (Encoded V)
  unfolding record_redaction record_drop redacted_value
  encode_action allow form kind candidate value c =
      (calls_writer (encodes kind candidate value) c, some (encoded form value))
  encode_action redact form kind candidate value c =
      let (c', sentinel) = redacted_value form (record_redaction kind c) in (c', some sentinel)
  encode_action drop_value form kind candidate value c = (record_drop kind c, none)

  module _ (policy : Option ValuePolicy) where
    unfoldable pub encode_with_policy :
        ValueKind → String → V → Capture V → Capture V × Option (Encoded V)
    unfolding encode_action
    encode_with_policy kind candidate =
        encode_action (action_of policy kind candidate) record_form kind candidate

    unfoldable pub encode_with_policy_streaming :
        ValueKind → String → V → Capture V → Capture V × Option (Encoded V)
    unfolding encode_action
    encode_with_policy_streaming kind candidate =
        encode_action (action_of policy kind candidate) cbor kind candidate

    -- An argument record, where the value is not dropped.
    abbrev pub argument_of :
        String → Capture V × Option (Encoded V) → Capture V × Option (String × Encoded V)
    argument_of name (c, none) = (c, none)
    argument_of name (c, some value) = (calls_writer (make_arg name value) c, some (name, value))

    unfoldable pub encode_named_argument :
        V → String → Capture V → Capture V × Option (String × Encoded V)
    unfolding encode_with_policy
    encode_named_argument value name c = argument_of name (encode_with_policy arg name value c)

    abbrev pub or_dropped : Form → Capture V × Option (Encoded V) → Capture V × Encoded V
    or_dropped form (c, none) = dropped_value form c
    or_dropped form (c, some value) = (c, value)

    -- Where no name is given the candidate is `<return>`.
    unfoldable pub record_return_value_streaming : V → Option String → Capture V → Capture V
    unfolding encode_with_policy_streaming dropped_value
    record_return_value_streaming value candidate c =
        let (c', value') =
          or_dropped cbor
            (encode_with_policy_streaming return_kind (unwrap_or candidate "<return>") value c) in
        calls_writer (register_return value') c'

-- What a call of a code object gives to capture: the arguments of the code and the locals.
pub record CallFrame (V : Type 0) : Type 0 where
  pub argcount : ℕ
  pub kwonly : ℕ
  pub varargs : Bool
  pub varkeywords : Bool
  pub varnames : List String
  pub locals : String → Option V

pub data Arguments (V : Type 0) : Type 0 where
  args : List (String × Encoded V) → Arguments V
  missing_positional missing_keyword : String → Arguments V

module _ {V : Type 0} where
  abbrev pub and_then : Option (String × Encoded V) → Arguments V → Arguments V
  and_then none rest = rest
  and_then (some a) (args others) = args (a ∷ others)
  and_then (some a) (missing_positional name) = missing_positional name
  and_then (some a) (missing_keyword name) = missing_keyword name

  module _ (policy : Option ValuePolicy) (f : CallFrame V) where
    -- A loop over names that must be bound, before what follows it.
    unfoldable pub take_required :
        (String → Arguments V)
        → List String
        → (Capture V → Capture V × Arguments V)
        → Capture V
        → Capture V × Arguments V
    unfolding encode_named_argument
    take_required missing [] next c = next c
    take_required missing (name ∷ names) next c = elim (f.locals name) [
      | none ↦ (c, missing name)
      | some value ↦
          let (c', a) = encode_named_argument policy value name c in
          let rest = take_required missing names next c' in (rest.0, and_then a rest.1)
    ]

    -- A name that may be absent or not bound.
    unfoldable pub take_optional :
        Option String → (Capture V → Capture V × Arguments V) → Capture V → Capture V × Arguments V
    unfolding encode_named_argument
    take_optional none next c = next c
    take_optional (some name) next c = elim (f.locals name) [
      | none ↦ next c
      | some value ↦
          let (c', a) = encode_named_argument policy value name c in
          let rest = next c' in (rest.0, and_then a rest.1)
    ]

    -- The name at the index, if the flag is set.
    abbrev pub flagged : Bool → ℕ → Option String
    flagged flag idx = if flag then get_elem? f.varnames idx else none

    abbrev pub after_positional : ℕ
    after_positional = min f.argcount (length f.varnames)

    abbrev pub after_varargs : ℕ
    after_varargs =
        if f.varargs && ltb after_positional (length f.varnames)
        then after_positional + 1
        else after_positional

    abbrev pub kwonly_take : ℕ
    kwonly_take = min f.kwonly (length f.varnames - after_varargs)

    -- The four parts, for the first name behind the positional ones, the first of the keyword-only
    -- ones, and the number of these.
    unfoldable pub capture_between : ℕ → ℕ → ℕ → Capture V → Capture V × Arguments V
    unfolding take_required take_optional
    capture_between positional start count =
        take_required (λ name. missing_positional name) (take positional f.varnames)
          (take_optional (flagged f.varargs positional) (
            take_required (λ name. missing_keyword name) (take count (drop start f.varnames))
              (take_optional (flagged f.varkeywords (start + count)) (λ c. (c, args [])))))

    unfoldable pub capture_call_arguments : Capture V → Capture V × Arguments V
    unfolding capture_between
    capture_call_arguments = capture_between after_positional after_varargs kwonly_take

-- What `on_line` sees of a frame. A key is `none` where it is no text.
pub record FrameSnapshot (V : Type 0) : Type 0 where
  pub locals : List (Option String × V)
  pub globals : Option (List (Option String × V))
  pub locals_is_globals : Bool

module _ {V : Type 0} (policy : Option ValuePolicy) where
  -- A variable that was encoded, and the recorded names.
  abbrev pub registered :
      String → Capture V × Option (Encoded V) → List String → Capture V × List String
  registered name (c, none) recorded = (c, recorded)
  registered name (c, some value) recorded =
      (calls_writer (register_variable name value) c, bind_name name recorded)

  unfoldable pub record_locals :
      List (Option String × V) → Capture V → List String → Capture V × List String
  unfolding bind_name encode_with_policy_streaming
  record_locals [] c recorded = (c, recorded)
  record_locals ((none, value) ∷ items) c recorded = record_locals items c recorded
  record_locals ((some name, value) ∷ items) c recorded =
      let (c', recorded') =
        registered name (encode_with_policy_streaming policy local name value c) recorded in
      record_locals items c' recorded'

  unfoldable pub record_globals :
      List (Option String × V) → Capture V → List String → Capture V × List String
  unfolding bind_name has_name encode_with_policy_streaming
  record_globals [] c recorded = (c, recorded)
  record_globals ((none, value) ∷ items) c recorded = record_globals items c recorded
  record_globals ((some name, value) ∷ items) c recorded =
      let (c', recorded') =
        (if is_skipped name recorded
          then (c, recorded)
          else registered name (encode_with_policy_streaming policy global name value c)
              recorded) in
      record_globals items c' recorded'

  unfoldable pub record_visible_scope_streaming :
      FrameSnapshot V → Capture V → List String → Capture V × List String
  unfolding record_locals record_globals
  record_visible_scope_streaming s c recorded =
      let (c', recorded') = record_locals s.locals c recorded in
      if s.locals_is_globals then (c', recorded') else elim s.globals [
        | none ↦ (c', recorded')
        | some items ↦ record_globals items c' recorded'
      ]
