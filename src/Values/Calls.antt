-- ===== src/Values/Calls.antt =====
-- The arguments of a call, as value_capture.rs captures them.
use codetracer_python_record.Prelude.{
  ℕ, zero, suc, ◌+◌, ◌<◌, ◌≤◌, Bool, true, false, Option, none, some, List, [], ◌∷◌, ◌++◌, ◌∙◌, ◌≡◌,
  refl, String, length, take, drop, get_elem?, arith, All, ap, sym, subst, is_some, append_assoc,
  append-nil, Bool-cases, inl, inr,
}
use codetracer_python_record.Values.{
  ValueAction, allow, redact, drop_value, ValuePolicy, arg, Encoded, encoded, redacted, record_form,
  Capture, action_of, encode_action, encode_with_policy, encode_named_argument, CallFrame,
  Arguments, args, and_then, take_required, take_optional, flagged, after_positional, after_varargs,
  kwonly_take, capture_call_arguments, capture_between, missing_positional, missing_keyword,
}

module _ {V : Type 0} where
  abbrev pub argument : ValueAction → String → V → List (String × Encoded V)
  argument allow name value = (name, encoded record_form value) ∷ []
  argument redact name value = (name, redacted record_form) ∷ []
  argument drop_value name value = []

  abbrev pub bound_argument : ValueAction → String → Option V → List (String × Encoded V)
  bound_argument action name none = []
  bound_argument action name (some value) = argument action name value

  abbrev first_of : Option (String × Encoded V) → List (String × Encoded V)
  first_of none = []
  first_of (some a) = a ∷ []

  and_then-args :
      (a : Option (String × Encoded V)) (rest : List (String × Encoded V))
      → and_then a (args rest) ≡ args (first_of a ++ rest)
  and_then-args none rest = refl
  and_then-args (some a) rest = refl

abbrev pub bit : Bool → ℕ
bit true = 1
bit false = 0

module _ {A : Type 0} where
  take-nil : (n : ℕ) → take {A = A} n [] ≡ []
  take-nil zero = refl
  take-nil (suc n) = refl

  drop-nil : (n : ℕ) → drop {A = A} n [] ≡ []
  drop-nil zero = refl
  drop-nil (suc n) = refl

  take-add : (a b : ℕ) (l : List A) → take (a + b) l ≡ take a l ++ take b (drop a l)
  take-add zero b l = let e : 0 + b ≡ b = omega arith in rw e refl
  take-add (suc a) b [] = rw (take-nil (suc a + b), take-nil b) refl
  take-add (suc a) b (x ∷ l) =
      let e : suc a + b ≡ suc (a + b) = omega arith in
      rw e (ap (λ (r : List A). x ∷ r) (take-add a b l))

  drop-add : (a b : ℕ) (l : List A) → drop (a + b) l ≡ drop b (drop a l)
  drop-add zero b l = let e : 0 + b ≡ b = omega arith in rw e refl
  drop-add (suc a) b [] = rw (drop-nil (suc a + b), drop-nil b) refl
  drop-add (suc a) b (x ∷ l) =
      let e : suc a + b ≡ suc (a + b) = omega arith in rw e (drop-add a b l)

  abbrev listed : Option A → List A
  listed none = []
  listed (some x) = x ∷ []

  listed-get : (l : List A) (i : ℕ) → i < length l → listed (get_elem? l i) ≡ take 1 (drop i l)
  listed-get [] i h = absurd (omega arith)
  listed-get (x ∷ l) zero h = refl
  listed-get (x ∷ l) (suc i) h = listed-get l i (omega arith)

  All-parts : (P : A → Type 0) (xs ys : List A) → All P (xs ++ ys) → All P xs × All P ys
  All-parts P [] ys h = (tt, h)
  All-parts P (x ∷ xs) ys h = let rest = All-parts P xs ys h.1 in ((h.0, rest.0), rest.1)

module _ {V : Type 0} (policy : Option ValuePolicy) (f : CallFrame V) where
  -- The arguments of names, less those that the policy drops.
  unfoldable pub kept_arguments : List String → List (String × Encoded V)
  kept_arguments [] = []
  kept_arguments (name ∷ names) =
      bound_argument (action_of policy arg name) name (f.locals name) ++ kept_arguments names

  kept-append :
      (xs ys : List String) → kept_arguments (xs ++ ys) ≡ kept_arguments xs ++ kept_arguments ys
  unfolding kept_arguments
  kept-append [] ys = refl
  kept-append (x ∷ xs) ys =
      ap (λ l. bound_argument (action_of policy arg x) x (f.locals x) ++ l) (kept-append xs ys)
      ∙ sym (
          append_assoc (bound_argument (action_of policy arg x) x (f.locals x)) (kept_arguments xs)
            (kept_arguments ys))

  abbrev pub IsBound : String → Type 0
  IsBound name = is_some (f.locals name) ≡ true

  named_lem :
      (action : ValueAction) (name : String) (value : V) (c : Capture V)
      → action_of policy arg name ≡ action
      → first_of (encode_named_argument policy value name c).1 ≡ argument action name value
  unfolding encode_named_argument encode_with_policy encode_action
  named_lem allow name value c e = rw e refl
  named_lem redact name value c e = rw e refl
  named_lem drop_value name value c e = rw e refl

  abbrev Gives : (Capture V → Capture V × Arguments V) → List (String × Encoded V) → Type 0
  Gives next rest = (c : Capture V) → (next c).1 ≡ args rest

  bound_value : (name : String) → IsBound name → (v : V) × (f.locals name ≡ some v)
  bound_value name h = value_of (f.locals name) h
    where
      value_of : (o : Option V) → is_some o ≡ true → (v : V) × (o ≡ some v)
      value_of none h = cc
      value_of (some v) h = (v, refl)

  here_lem :
      (name : String) (value : V) (c : Capture V) (rest : Arguments V)
      (others : List (String × Encoded V))
      → rest ≡ args others
      → and_then (encode_named_argument policy value name c).1 rest
        ≡ args (argument (action_of policy arg name) name value ++ others)
  here_lem name value c rest others r = rw r (
      and_then-args (encode_named_argument policy value name c).1 others
      ∙ ap (λ l. args (l ++ others)) (named_lem (action_of policy arg name) name value c refl))

  take_required-Gives :
      (missing : String → Arguments V) (names : List String)
      (next : Capture V → Capture V × Arguments V) (rest : List (String × Encoded V))
      → All IsBound names
      → Gives next rest
      → Gives (take_required policy f missing names next) (kept_arguments names ++ rest)
  unfolding take_required kept_arguments
  take_required-Gives missing [] next rest h gives c = gives c
  take_required-Gives missing (name ∷ names) next rest h gives c =
      let (v, e) = bound_value name h.0 in
      let more =
        take_required-Gives missing names next rest h.1 gives
          (encode_named_argument policy v name c).0 in
      rw (append_assoc) (rw (e, take_required) (here_lem name v c _ _ more))

  take_optional-Gives :
      (name : Option String) (next : Capture V → Capture V × Arguments V)
      (rest : List (String × Encoded V))
      → All IsBound (listed name)
      → Gives next rest
      → Gives (take_optional policy f name next) (kept_arguments (listed name) ++ rest)
  unfolding take_optional kept_arguments
  take_optional-Gives none next rest h gives c = gives c
  take_optional-Gives (some name) next rest h gives c =
      let (v, e) = bound_value name h.0 in
      rw (append_assoc) (
        rw (e, take_optional)
          (here_lem name v c _ _ (gives (encode_named_argument policy v name c).0)))

  -- The names that the flags and counts of the code object announce.
  abbrev pub announced : ℕ
  announced = f.argcount + (bit f.varargs + (f.kwonly + bit f.varkeywords))

  flagged_lem :
      (flag : Bool) (i : ℕ)
      → i + bit flag ≤ length f.varnames
      → listed (flagged policy f flag i) ≡ take (bit flag) (drop i f.varnames)
  flagged_lem false i h = refl
  flagged_lem true i h = listed-get f.varnames i (omega arith)

  module _ (enough : announced ≤ length f.varnames) where
    positional_lem : after_positional policy f ≡ f.argcount
    positional_lem = ground arith

    varargs_lem : after_varargs policy f ≡ f.argcount + bit f.varargs
    varargs_lem = elim (Bool-cases f.varargs) [
      | inl e ↦
          let one : bit f.varargs ≡ 1 = ap bit e in
          let room : f.argcount < length f.varnames = omega arith in
          rw e (ground (arith, positional_lem, room))
      | inr e ↦ rw e (ground (arith, positional_lem))
    ]

    kwonly_lem : kwonly_take policy f ≡ f.kwonly
    kwonly_lem = rw varargs_lem (ground arith)

    -- The lists of names that the four parts take, put together.
    names_lem :
        take f.argcount f.varnames
          ++ (take (bit f.varargs) (drop f.argcount f.varnames)
              ++ (take f.kwonly (drop (f.argcount + bit f.varargs) f.varnames)
                  ++ take
                      (bit f.varkeywords)
                      (drop (f.argcount + bit f.varargs + f.kwonly) f.varnames)))
        ≡ take announced f.varnames
    names_lem =
        let l = f.varnames in
        let tail : take (f.kwonly + bit f.varkeywords) (drop (f.argcount + bit f.varargs) l)
            ≡ take f.kwonly (drop (f.argcount + bit f.varargs) l)
              ++ take (bit f.varkeywords) (drop (f.argcount + bit f.varargs + f.kwonly) l) =
          rw (drop-add (f.argcount + bit f.varargs) f.kwonly l)
            (take-add f.kwonly (bit f.varkeywords) (drop (f.argcount + bit f.varargs) l)) in
        let middle : take (bit f.varargs + (f.kwonly + bit f.varkeywords)) (drop f.argcount l)
            ≡ take (bit f.varargs) (drop f.argcount l)
              ++ take (f.kwonly + bit f.varkeywords) (drop (f.argcount + bit f.varargs) l) =
          rw (drop-add f.argcount (bit f.varargs) l)
            (take-add (bit f.varargs) (f.kwonly + bit f.varkeywords) (drop f.argcount l)) in
        rw (← tail) (
          rw (← middle)
            (sym (take-add f.argcount (bit f.varargs + (f.kwonly + bit f.varkeywords)) l)))

    between_lem :
        All IsBound (take announced f.varnames)
        → Gives
            (capture_between policy f f.argcount (f.argcount + bit f.varargs) f.kwonly)
            (kept_arguments (take announced f.varnames))
    unfolding capture_between
    between_lem h c =
        let l = f.varnames in
        let first = take f.argcount l in
        let second = take (bit f.varargs) (drop f.argcount l) in
        let third = take f.kwonly (drop (f.argcount + bit f.varargs) l) in
        let fourth = take (bit f.varkeywords) (drop (f.argcount + bit f.varargs + f.kwonly) l) in
        let bound = subst (λ names. All IsBound names) (sym names_lem) h in
        let (b1, r1) = All-parts IsBound first (second ++ (third ++ fourth)) bound in
        let (b2, r2) = All-parts IsBound second (third ++ fourth) r1 in
        let (b3, b4) = All-parts IsBound third fourth r2 in
        let s2 : listed (flagged policy f f.varargs f.argcount) ≡ second =
          flagged_lem f.varargs f.argcount (omega arith) in
        let s4 : listed (flagged policy f f.varkeywords (f.argcount + bit f.varargs + f.kwonly))
            ≡ fourth =
          flagged_lem f.varkeywords (f.argcount + bit f.varargs + f.kwonly) (omega arith) in
        let g4 =
          take_optional-Gives
            (flagged policy f f.varkeywords (f.argcount + bit f.varargs + f.kwonly))
            (λ c'. (c', args [])) [] (rw s4 b4) (λ c'. refl) in
        let g3 = take_required-Gives (λ name. missing_keyword name) third _ _ b3 g4 in
        let g2 = take_optional-Gives (flagged policy f f.varargs f.argcount) _ _ (rw s2 b2) g3 in
        let g1 = take_required-Gives (λ name. missing_positional name) first _ _ b1 g2 c in
        g1 ∙ ap (λ l'. args l') (rw (s2, s4) (rw (← names_lem) (simp (kept-append, append-nil))))

    -- If the code object has as many variable names as its counts and flags announce, and these
    -- names are bound, the capture gives just the arguments of these names, in the order of the
    -- variable names, without those that the policy drops and with a sentinel for those that it
    -- redacts.
    pub capture_call_arguments_lem :
        All IsBound (take announced f.varnames)
        → (c : Capture V)
        → (capture_call_arguments policy f c).1 ≡ args (kept_arguments (take announced f.varnames))
    unfolding capture_call_arguments
    capture_call_arguments_lem h c =
        (λ i. (capture_between policy f (positional_lem i) (varargs_lem i) (kwonly_lem i) c).1)
        ∙ between_lem h c
