-- ===== src/Tracer/Refusals.antt =====
-- How long the refusals of the trace filter in runtime/tracer/filtering.rs last: until its caches are
-- cleared.
use codetracer_python_record.Prelude.{
  ℕ, ◌≡◌, ◌∙◌, ap, refl, sym, Bool, true, false, ◌&&◌, ◌||◌, ◌++◌, ◌==◌, if◌then◌else◌, Option,
  none, some, List, [], ◌∷◌, String, Text, member, subst, arith, Bool-cases, inl, inr,
}
use codetracer_python_record.Activation.{Code}
use codetracer_python_record.Tracer.{
  TraceDecision, trace, skip_and_disable, ExecDecision, exec_trace, exec_skip, FilterCoordinator,
  set_module_name_hint, add_id, mark_ignored, is_real_filename, resolve, decide_filename,
  decide_resolved, decide, clear_caches, reset, record_dropped, filename_lookup_failed,
  synthetic_filename,
}

-- What the coordinator is told: an event of a code object, a hint for one, the end of its caches,
-- which the tracer's `flush` asks for, or the reset of its `finish`.
pub data FilterCall : Type 0 where
  decides : Code Text → FilterCall
  hints : ℕ → Option String → FilterCall
  clears resets : FilterCall

-- What was seen of it: the decision for a code object, or that its caches were cleared.
pub data FilterNote : Type 0 where
  decided : ℕ → TraceDecision → FilterNote
  cleared : FilterNote

unfoldable pub filter_step : FilterCoordinator → FilterCall → FilterCoordinator × List FilterNote
unfolding clear_caches reset
filter_step f (decides code) =
    let (f', decision) = decide f code in (f', decided code.id decision ∷ [])
filter_step f (hints id hint) = (set_module_name_hint f id hint, [])
filter_step f clears = (clear_caches f, cleared ∷ [])
filter_step f resets = (reset f, cleared ∷ [])

unfoldable pub filter_run :
    FilterCoordinator → List FilterCall → FilterCoordinator × List FilterNote
unfolding filter_step
filter_run f [] = (f, [])
filter_run f (c ∷ calls) =
    let (f', notes) = filter_step f c in let rest = filter_run f' calls in (rest.0, notes ++ rest.1)

abbrev pub is_skip : TraceDecision → Bool
is_skip trace = false
is_skip skip_and_disable = true

-- Read off the notes alone: a skip of this code object since the caches were cleared last.
unfoldable pub refused_since : ℕ → Bool → List FilterNote → Bool
refused_since id before [] = before
refused_since id before (decided k decision ∷ notes) =
    refused_since id ((k == id && is_skip decision) || before) notes
refused_since id before (cleared ∷ notes) = refused_since id false notes

refused_since-append :
    (id : ℕ) (before : Bool) (xs ys : List FilterNote)
    → refused_since id before (xs ++ ys) ≡ refused_since id (refused_since id before xs) ys
unfolding refused_since
refused_since-append id before [] ys = refl
refused_since-append id before (decided k d ∷ xs) ys =
    refused_since-append id ((k == id && is_skip d) || before) xs ys
refused_since-append id before (cleared ∷ xs) ys = refused_since-append id false xs ys

member-add_id : (id k : ℕ) (ids : List ℕ) → member id (add_id k ids) ≡ ((k == id) || member id ids)
unfolding add_id member
member-add_id id k ids = elim (Bool-cases (member k ids)) [
  | inl e ↦ elim (Bool-cases (k == id)) [
    | inl h ↦
        let same : k ≡ id = ground arith in
        rw (e, h) (subst (λ (n : ℕ). member n ids ≡ true) same e)
    | inr h ↦ rw (e, h) refl
  ]
  | inr e ↦ rw (e, add_id) (ground arith)
]

-- What a decision for `k` leads to from a set with `before`.
abbrev Notes : ℕ → ℕ → Bool → FilterCoordinator × TraceDecision → Type 0
Notes id k before (f, d) = member id f.ignored_code_ids ≡ ((k == id && is_skip d) || before)

marked-Notes :
    (id : ℕ) (f : FilterCoordinator) (k : ℕ)
    → member id (mark_ignored f k).ignored_code_ids
      ≡ ((k == id && true) || member id f.ignored_code_ids)
unfolding mark_ignored
marked-Notes id f k = member-add_id id k f.ignored_code_ids ∙ ground arith

traced-Notes : (k id : ℕ) (b : Bool) → b ≡ ((k == id && false) || b)
traced-Notes k id b = ground arith

filename-Notes :
    (id : ℕ) (f : FilterCoordinator) (k : ℕ) (filename : Option Text)
    → Notes id k (member id f.ignored_code_ids) (decide_filename f k filename)
filename-Notes id f k none = marked-Notes id (record_dropped f filename_lookup_failed) k
filename-Notes id f k (some filename) = elim (Bool-cases (is_real_filename filename)) [
  | inl e ↦ rw e (traced-Notes k id (member id f.ignored_code_ids))
  | inr e ↦ rw e (marked-Notes id (record_dropped f synthetic_filename) k)
]

resolved-Notes :
    (id : ℕ) (f : FilterCoordinator) (code : Code Text) (r : Option ExecDecision)
    → Notes id code.id (member id f.ignored_code_ids) (decide_resolved f code r)
resolved-Notes id f code none = filename-Notes id f code.id code.filename
resolved-Notes id f code (some exec_trace) = filename-Notes id f code.id code.filename
resolved-Notes id f code (some exec_skip) = marked-Notes id f code.id

resolve_ignored :
    (f : FilterCoordinator) (code : Code Text)
    → (resolve f code).0.ignored_code_ids ≡ f.ignored_code_ids
unfolding resolve
resolve_ignored f code = ground arith

known-Notes :
    (k id : ℕ) (ids : List ℕ)
    → member k ids ≡ true
    → member id ids ≡ ((k == id && true) || member id ids)
known-Notes k id ids h = elim (Bool-cases (k == id)) [
  | inl e ↦ let same : k ≡ id = ground arith in rw e (subst (λ (n : ℕ). member n ids ≡ true) same h)
  | inr e ↦ rw e refl
]

decide-Notes :
    (id : ℕ) (f : FilterCoordinator) (code : Code Text)
    → Notes id code.id (member id f.ignored_code_ids) (decide f code)
unfolding decide
decide-Notes id f code = elim (Bool-cases (member code.id f.ignored_code_ids)) [
  | inl e ↦ rw e (known-Notes code.id id f.ignored_code_ids e)
  | inr e ↦
      let (f', r) = resolve f code in
      rw e (
        subst (λ (ids : List ℕ). Notes id code.id (member id ids) (decide_resolved f' code r))
          (resolve_ignored f code) (resolved-Notes id f' code r))
]

step-Notes :
    (id : ℕ) (f : FilterCoordinator) (c : FilterCall)
    → member id (filter_step f c).0.ignored_code_ids
      ≡ refused_since id (member id f.ignored_code_ids) (filter_step f c).1
unfolding filter_step refused_since clear_caches reset set_module_name_hint member
step-Notes id f (decides code) = decide-Notes id f code
step-Notes id f (hints k none) = refl
step-Notes id f (hints k (some hint)) = refl
step-Notes id f clears = refl
step-Notes id f resets = refl

run-Notes :
    (id : ℕ) (f : FilterCoordinator) (calls : List FilterCall)
    → member id (filter_run f calls).0.ignored_code_ids
      ≡ refused_since id (member id f.ignored_code_ids) (filter_run f calls).1
unfolding filter_run refused_since
run-Notes id f [] = refl
run-Notes id f (c ∷ calls) =
    let (f', notes) = filter_step f c in
    run-Notes id f' calls
    ∙ ap (λ b. refused_since id b (filter_run f' calls).1) (step-Notes id f c)
    ∙ sym (refused_since-append id (member id f.ignored_code_ids) notes (filter_run f' calls).1)

decide_eq :
    (f : FilterCoordinator) (code : Code Text)
    → decide f code ≡ (
        if member code.id f.ignored_code_ids
        then (f, skip_and_disable)
        else decide_resolved (resolve f code).0 code (resolve f code).1)
unfolding decide
decide_eq f code = refl

-- From a coordinator that has refused nothing, after any history of events, hints, cleared
-- caches and resets, the next decision for a code object refuses it and changes nothing,
-- whatever the engine and the file name would say, if one was refused by its id since the caches
-- were cleared last; and only then: otherwise the engine and the file name decide.
pub decide_lasts :
    (f : FilterCoordinator) (calls : List FilterCall) (again : Code Text)
    → f.ignored_code_ids ≡ []
    → let (later, notes) = filter_run f calls in
      decide later again ≡ (
        if refused_since again.id false notes
        then (later, skip_and_disable)
        else decide_resolved (resolve later again).0 again (resolve later again).1)
unfolding member
decide_lasts f calls again none_yet =
    let (later, notes) = filter_run f calls in
    let known =
      run-Notes again.id f calls
      ∙ ap (λ (ids : List ℕ). refused_since again.id (member again.id ids) notes) none_yet in
    decide_eq later again ∙ λ i.
    if known i
    then (later, skip_and_disable)
    else decide_resolved (resolve later again).0 again (resolve later again).1
