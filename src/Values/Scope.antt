-- ===== src/Values/Scope.antt =====
-- The variables that value_capture.rs registers for a line.
use codetracer_python_record.Prelude.{
  true, false, ◌||◌, Option, none, some, List, [], ◌∷◌, ◌++◌, ◌∙◌, ◌≡◌, refl, String, All, ap,
  Bool-cases, Option-cases, inl, inr, arith, append-nil, append_assoc, sym, subst, str_eq, eq_iff,
}
use codetracer_python_record.Values.{
  ValueKind, local, global, ValueAction, allow, redact, drop_value, ValuePolicy, ValueFilterStats,
  cbor, Encoded, encoded, WriterCall, ensure_type_id, encodes, make_arg, register_variable,
  register_return, Capture, new_capture, action_of, encode_action, encode_with_policy_streaming,
  calls_writer, record_redaction, record_drop, redacted_value, FrameSnapshot, registered,
  is_skipped, record_locals, record_globals, record_visible_scope_streaming,
}
use codetracer_python_record.Emission.{bind_name, has_name}

abbrev pub Distinct : List String → Type 0
Distinct [] = Unit
Distinct (x ∷ xs) = (has_name x xs ≡ false) × Distinct xs

module _ {V : Type 0} where
  -- The names that the calls register a variable for.
  unfoldable pub registered_names : List (WriterCall V) → List String
  registered_names [] = []
  registered_names (register_variable name value ∷ calls) = name ∷ registered_names calls
  registered_names (ensure_type_id s ∷ calls) = registered_names calls
  registered_names (encodes kind name value ∷ calls) = registered_names calls
  registered_names (make_arg name value ∷ calls) = registered_names calls
  registered_names (register_return value ∷ calls) = registered_names calls

  names-append :
      (xs ys : List (WriterCall V))
      → registered_names (xs ++ ys) ≡ registered_names xs ++ registered_names ys
  unfolding registered_names
  names-append [] ys = refl
  names-append (register_variable name value ∷ xs) ys =
      ap (λ (l : List String). name ∷ l) (names-append xs ys)
  names-append (ensure_type_id s ∷ xs) ys = names-append xs ys
  names-append (encodes kind name value ∷ xs) ys = names-append xs ys
  names-append (make_arg name value ∷ xs) ys = names-append xs ys
  names-append (register_return value ∷ xs) ys = names-append xs ys

  -- The names of a list of variables.
  abbrev pub keys : List (Option String × V) → List String
  keys [] = []
  keys ((none, value) ∷ items) = keys items
  keys ((some name, value) ∷ items) = name ∷ keys items

has_name-append :
    (name : String) (xs ys : List String)
    → has_name name (xs ++ ys) ≡ (has_name name xs || has_name name ys)
unfolding has_name
has_name-append name [] ys = refl
has_name-append name (x ∷ xs) ys = ground (arith, has_name-append name xs ys)

str_eq_sym : (s t : String) → str_eq s t ≡ str_eq t s
str_eq_sym s t = ground (arith, eq_iff s t, eq_iff t s)

Distinct-append_one :
    (xs : List String) (name : String)
    → Distinct xs
    → has_name name xs ≡ false
    → Distinct (xs ++ (name ∷ []))
unfolding has_name
Distinct-append_one [] name d h = (refl, tt)
Distinct-append_one (x ∷ xs) name d h = (
  rw (has_name-append x xs (name ∷ [])) (ground (arith, d.0, h, str_eq_sym x name)),
  Distinct-append_one xs name d.1 (ground (arith, h)),
)

-- None of the names is recorded.
abbrev Unseen : List String → List String → Type 0
Unseen recorded names = All (λ n. has_name n recorded ≡ false) names

module _ {V : Type 0} (policy : Option ValuePolicy) where
  -- The registered names are the recorded ones, without a repetition.
  abbrev Matches : Capture V → List String → Type 0
  Matches c recorded = (registered_names c.calls ≡ recorded) × Distinct recorded

  -- An encoding registers no name.
  streaming_names :
      (kind : ValueKind) (name : String) (value : V) (c : Capture V) (action : ValueAction)
      → action_of policy kind name ≡ action
      → registered_names (encode_with_policy_streaming policy kind name value c).0.calls
        ≡ registered_names c.calls
  unfolding encode_with_policy_streaming encode_action redacted_value record_redaction record_drop
      registered_names
  streaming_names kind name value c allow e =
      rw (e, names-append c.calls (encodes kind name value ∷ []), append-nil) refl
  streaming_names kind name value c redact e =
      rw (e, names-append c.calls (ensure_type_id _ ∷ []), append-nil) refl
  streaming_names kind name value c drop_value e = rw e refl

  registered-Matches :
      (name : String) (r : Capture V × Option (Encoded V)) (recorded : List String)
      → has_name name recorded ≡ false
      → Matches r.0 recorded
      → Matches (registered policy name r recorded).0 (registered policy name r recorded).1
  unfolding bind_name registered_names
  registered-Matches name (c, none) recorded h m = m
  registered-Matches name (c, some value) recorded h m =
      rw (h, names-append c.calls (register_variable name value ∷ []), m.0)
        (refl, Distinct-append_one recorded name m.1 h)

  -- The recorded names grow by at most the name.
  registered_has :
      (name other : String) (r : Capture V × Option (Encoded V)) (recorded : List String)
      → has_name name recorded ≡ false
      → str_eq name other ≡ false
      → has_name other recorded ≡ false
      → has_name other (registered policy name r recorded).1 ≡ false
  unfolding bind_name has_name
  registered_has name other (c, none) recorded h n o = o
  registered_has name other (c, some value) recorded h n o =
      rw h (rw (has_name-append other recorded (name ∷ [])) (ground (arith, n, o)))

  registered-Unseen :
      (name : String) (r : Capture V × Option (Encoded V)) (recorded names : List String)
      → has_name name recorded ≡ false
      → has_name name names ≡ false
      → Unseen recorded names
      → Unseen (registered policy name r recorded).1 names
  unfolding has_name
  registered-Unseen name r recorded [] h n u = tt
  registered-Unseen name r recorded (other ∷ names) h n u =
      let differs : str_eq name other ≡ false = ground (arith, n, str_eq_sym name other) in
      (
        registered_has name other r recorded h differs u.0,
        registered-Unseen name r recorded names h (ground (arith, n)) u.1,
      )

  locals-Matches :
      (items : List (Option String × V)) (c : Capture V) (recorded : List String)
      → Distinct (keys items)
      → Unseen recorded (keys items)
      → Matches c recorded
      → Matches (record_locals policy items c recorded).0 (record_locals policy items c recorded).1
  unfolding record_locals
  locals-Matches [] c recorded d u m = m
  locals-Matches ((none, value) ∷ items) c recorded d u m = locals-Matches items c recorded d u m
  locals-Matches ((some name, value) ∷ items) c recorded d u m =
      let r = encode_with_policy_streaming policy local name value c in
      let same = streaming_names local name value c _ refl in
      locals-Matches items (registered policy name r recorded).0
        (registered policy name r recorded).1 d.1
        (registered-Unseen name r recorded (keys items) u.0 d.0 u.1)
        (registered-Matches name r recorded u.0 (same ∙ m.0, m.1))

  globals-Matches :
      (items : List (Option String × V)) (c : Capture V) (recorded : List String)
      → Matches c recorded
      → Matches
          (record_globals policy items c recorded).0
          (record_globals policy items c recorded).1
  unfolding record_globals
  globals-Matches [] c recorded m = m
  globals-Matches ((none, value) ∷ items) c recorded m = globals-Matches items c recorded m
  globals-Matches ((some name, value) ∷ items) c recorded m =
      let r = encode_with_policy_streaming policy global name value c in
      elim (Bool-cases (is_skipped name recorded)) [
        | inl e ↦ rw (e, record_globals) (globals-Matches items c recorded m)
        | inr e ↦
            let same = streaming_names global name value c _ refl in
            let unseen : has_name name recorded ≡ false = ground (arith, e) in
            rw (e, record_globals)
              (globals-Matches items (registered policy name r recorded).0
                (registered policy name r recorded).1
                (registered-Matches name r recorded unseen (same ∙ m.0, m.1)))
      ]

  -- If the names of the locals are distinct, the names that a fresh capture registers for a line
  -- are the recorded ones and are distinct.
  pub record_visible_scope_streaming-Distinct :
      (s : FrameSnapshot V) (telemetry : Option ValueFilterStats)
      → Distinct (keys s.locals)
      → let (c, recorded) = record_visible_scope_streaming policy s (new_capture telemetry) [] in
        (registered_names c.calls ≡ recorded) × Distinct recorded
  unfolding record_visible_scope_streaming registered_names
  record_visible_scope_streaming-Distinct s telemetry d =
      let l = record_locals policy s.locals (new_capture telemetry) [] in
      let m =
        locals-Matches s.locals (new_capture telemetry) [] d (unseen_nil (keys s.locals))
          (refl, tt) in
      elim (Bool-cases s.locals_is_globals) [
        | inl e ↦ rw e m
        | inr e ↦ rw e (elim (Option-cases s.globals) [
          | inl n ↦ rw n m
          | inr (items, n) ↦ rw n (globals-Matches items l.0 l.1 m)
        ])
      ]
    where
      unseen_nil : (names : List String) → Unseen [] names
      unseen_nil [] = tt
      unseen_nil (name ∷ names) = (refl, unseen_nil names)

module _ {V : Type 0} (policy : Option ValuePolicy) where
  -- The policy drops every local.
  abbrev pub DropsLocals : List (Option String × V) → Type 0
  DropsLocals items = All (λ n. action_of policy local n ≡ drop_value) (keys items)

  dropped_step :
      (kind : ValueKind) (name : String) (value : V) (c : Capture V)
      → action_of policy kind name ≡ drop_value
      → encode_with_policy_streaming policy kind name value c ≡ (record_drop kind c, none)
  unfolding encode_with_policy_streaming encode_action
  dropped_step kind name value c e = rw e refl

  dropped_locals :
      (items : List (Option String × V)) (c : Capture V) (recorded : List String)
      → DropsLocals items
      → ((record_locals policy items c recorded).0.calls ≡ c.calls)
        × ((record_locals policy items c recorded).1 ≡ recorded)
  unfolding record_locals record_drop
  dropped_locals [] c recorded h = (refl, refl)
  dropped_locals ((none, value) ∷ items) c recorded h = dropped_locals items c recorded h
  dropped_locals ((some name, value) ∷ items) c recorded h =
      subst
        (λ r.
          ((record_locals policy items (registered policy name r recorded).0
              (registered policy name r recorded).1).0.calls
            ≡ c.calls)
          × ((record_locals policy items (registered policy name r recorded).0
                (registered policy name r recorded).1).1
              ≡ recorded))
        (sym (dropped_step local name value c h.0))
        (dropped_locals items (record_drop local c) recorded h.1)

  -- Calls that were made stay.
  abbrev Begins : List (WriterCall V) → Capture V → Type 0
  Begins calls c = (more : List (WriterCall V)) × (c.calls ≡ calls ++ more)

  calls_writer-Begins :
      (calls : List (WriterCall V)) (w : WriterCall V) (c : Capture V)
      → Begins calls c
      → Begins calls (calls_writer w c)
  calls_writer-Begins calls w c (more, e) =
      (more ++ (w ∷ []), rw e (append_assoc calls more (w ∷ [])))

  streaming-Begins :
      (calls : List (WriterCall V)) (kind : ValueKind) (name : String) (value : V) (c : Capture V)
      (action : ValueAction)
      → action_of policy kind name ≡ action
      → Begins calls c
      → Begins calls (encode_with_policy_streaming policy kind name value c).0
  unfolding encode_with_policy_streaming encode_action redacted_value record_redaction record_drop
  streaming-Begins calls kind name value c allow e h =
      rw e (calls_writer-Begins calls (encodes kind name value) c h)
  streaming-Begins calls kind name value c redact e h =
      rw e (calls_writer-Begins calls (ensure_type_id _) c h)
  streaming-Begins calls kind name value c drop_value e h = rw e h

  registered-Begins :
      (calls : List (WriterCall V)) (name : String) (r : Capture V × Option (Encoded V))
      (recorded : List String)
      → Begins calls r.0
      → Begins calls (registered policy name r recorded).0
  registered-Begins calls name (c, none) recorded h = h
  registered-Begins calls name (c, some value) recorded h =
      calls_writer-Begins calls (register_variable name value) c h

  globals-Begins :
      (calls : List (WriterCall V)) (items : List (Option String × V)) (c : Capture V)
      (recorded : List String)
      → Begins calls c
      → Begins calls (record_globals policy items c recorded).0
  unfolding record_globals
  globals-Begins calls [] c recorded h = h
  globals-Begins calls ((none, value) ∷ items) c recorded h =
      globals-Begins calls items c recorded h
  globals-Begins calls ((some name, value) ∷ items) c recorded h =
      let r = encode_with_policy_streaming policy global name value c in
      elim (Bool-cases (is_skipped name recorded)) [
        | inl e ↦ rw (e, record_globals) (globals-Begins calls items c recorded h)
        | inr e ↦
            rw (e, record_globals)
              (globals-Begins calls items (registered policy name r recorded).0
                (registered policy name r recorded).1
                (registered-Begins calls name r recorded
                  (streaming-Begins calls global name value c _ refl h)))
      ]

  first_global :
      (name : String) (value : V) (items : List (Option String × V)) (c : Capture V)
      → c.calls ≡ []
      → action_of policy global name ≡ allow
      → str_eq name "__builtins__" ≡ false
      → Begins
          (encodes global name value ∷ register_variable name (encoded cbor value) ∷ [])
          (record_globals policy ((some name, value) ∷ items) c []).0
  unfolding record_globals encode_with_policy_streaming encode_action has_name
  first_global name value items c none_made shown b =
      let here =
        calls_writer (register_variable name (encoded cbor value))
          (calls_writer (encodes global name value) c) in
      rw (b, shown, record_globals)
        (globals-Begins
          (encodes global name value ∷ register_variable name (encoded cbor value) ∷ []) items here
          (bind_name name []) ([], rw none_made refl))

  -- Where a frame has a local of a name, the policy drops all its locals, and the first global
  -- has that name, is not the builtins, and may be seen, the variable that is registered first
  -- for the line is that name with the value of the global.
  pub record_visible_scope_streaming-shadowed :
      (s : FrameSnapshot V) (telemetry : Option ValueFilterStats) (name : String) (value : V)
      (items : List (Option String × V))
      → has_name name (keys s.locals) ≡ true
      → DropsLocals s.locals
      → s.locals_is_globals ≡ false
      → s.globals ≡ some ((some name, value) ∷ items)
      → action_of policy global name ≡ allow
      → str_eq name "__builtins__" ≡ false
      → Begins
          (encodes global name value ∷ register_variable name (encoded cbor value) ∷ [])
          (record_visible_scope_streaming policy s (new_capture telemetry) []).0
  unfolding record_visible_scope_streaming
  record_visible_scope_streaming-shadowed s telemetry name value items local_too drops separate
        globals shown b =
      let l = record_locals policy s.locals (new_capture telemetry) [] in
      let (calls, names) = dropped_locals s.locals (new_capture telemetry) [] drops in
      rw (separate, globals)
        (subst
          (λ recorded.
            Begins (encodes global name value ∷ register_variable name (encoded cbor value) ∷ [])
              (record_globals policy ((some name, value) ∷ items) l.0 recorded).0)
          (sym names) (first_global name value items l.0 calls shown b))
