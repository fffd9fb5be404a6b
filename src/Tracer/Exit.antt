-- ===== src/Tracer/Exit.antt =====
-- `SessionExitState` of runtime/tracer/runtime_tracer.rs: what the session reports as its exit.
use codetracer_python_record.Prelude.{
  ℤ, Bool, true, false, Option, none, some, List, [], ◌∷◌, ◌++◌, ◌≡◌, refl, ap, if◌then◌else◌,
}

-- The texts in use; `<failure>` is set by tests only.
pub data ExitPayload : Type 0 where
  code : ℤ → ExitPayload
  exit_text disabled_text : ExitPayload

pub record SessionExitState : Type 0 where
  pub payload : ExitPayload
  pub emitted : Bool

abbrev pub default_exit : SessionExitState
default_exit = record { payload = exit_text; emitted = false }

abbrev pub can_override_with_code : ExitPayload → Bool
can_override_with_code (code c) = false
can_override_with_code exit_text = true
can_override_with_code disabled_text = false

abbrev pub code_payload : Option ℤ → ExitPayload
code_payload none = exit_text
code_payload (some c) = code c

unfoldable pub set_exit_code : SessionExitState → Option ℤ → SessionExitState
set_exit_code s exit_code =
    if can_override_with_code s.payload then record s { payload = code_payload exit_code } else s

abbrev pub disabled_payload : ExitPayload → ExitPayload
disabled_payload (code c) = code c
disabled_payload text = disabled_text

unfoldable pub mark_disabled : SessionExitState → SessionExitState
mark_disabled s = record s { payload = disabled_payload s.payload }

-- `emit_session_exit`: the state, and the value (the flush of pending IO before it is in IoCapture), the one that is registered as the return of the session.
unfoldable pub emit_session_exit : SessionExitState → SessionExitState × List ExitPayload
emit_session_exit s = if s.emitted then (s, []) else (record s { emitted = true }, s.payload ∷ [])

pub data ExitCall : Type 0 where
  sets : Option ℤ → ExitCall
  disables emits : ExitCall

unfoldable pub exit_step : SessionExitState → ExitCall → SessionExitState × List ExitPayload
unfolding set_exit_code mark_disabled emit_session_exit
exit_step s (sets exit_code) = (set_exit_code s exit_code, [])
exit_step s disables = (mark_disabled s, [])
exit_step s emits = emit_session_exit s

unfoldable pub exit_run : SessionExitState → List ExitCall → SessionExitState × List ExitPayload
unfolding exit_step
exit_run s [] = (s, [])
exit_run s (call ∷ calls) =
    let (s', out) = exit_step s call in let rest = exit_run s' calls in (rest.0, out ++ rest.1)

-- The first call that settles the exit: one with a code, or one that disables.
abbrev pub settled : List ExitCall → ExitPayload
settled [] = exit_text
settled (sets none ∷ calls) = settled calls
settled (sets (some c) ∷ calls) = code c
settled (disables ∷ calls) = disabled_text
settled (emits ∷ calls) = settled calls

-- The calls before the first that emits.
abbrev pub before_emit : List ExitCall → List ExitCall
before_emit [] = []
before_emit (sets c ∷ calls) = sets c ∷ before_emit calls
before_emit (disables ∷ calls) = disables ∷ before_emit calls
before_emit (emits ∷ calls) = []

abbrev pub emits_any : List ExitCall → Bool
emits_any [] = false
emits_any (sets c ∷ calls) = emits_any calls
emits_any (disables ∷ calls) = emits_any calls
emits_any (emits ∷ calls) = true

-- What a payload becomes under calls, and what they emit from there.
abbrev settled_from : ExitPayload → List ExitCall → ExitPayload
settled_from (code c) calls = code c
settled_from disabled_text calls = disabled_text
settled_from exit_text calls = settled calls

abbrev emitted_from : ExitPayload → Bool → List ExitCall → List ExitPayload
emitted_from p true calls = []
emitted_from p false calls = if emits_any calls then settled_from p (before_emit calls) ∷ [] else []

abbrev EndsAs : ExitPayload → Bool → List ExitCall → Type 0
EndsAs p e calls =
    let r = exit_run (record { payload = p; emitted = e }) calls in
    (r.0.payload ≡ settled_from p calls) × (r.1 ≡ emitted_from p e calls)

sets-EndsAs :
    (p : ExitPayload) (e : Bool) (c : Option ℤ) (calls : List ExitCall)
    → ((q : ExitPayload) → EndsAs q e calls)
    → EndsAs p e (sets c ∷ calls)
unfolding exit_run
sets-EndsAs (code k) true c calls ih = ih (code k)
sets-EndsAs (code k) false c calls ih = ih (code k)
sets-EndsAs disabled_text true c calls ih = ih disabled_text
sets-EndsAs disabled_text false c calls ih = ih disabled_text
sets-EndsAs exit_text true none calls ih = ih exit_text
sets-EndsAs exit_text false none calls ih = ih exit_text
sets-EndsAs exit_text true (some k) calls ih = ih (code k)
sets-EndsAs exit_text false (some k) calls ih = ih (code k)

disables-EndsAs :
    (p : ExitPayload) (e : Bool) (calls : List ExitCall)
    → ((q : ExitPayload) → EndsAs q e calls)
    → EndsAs p e (disables ∷ calls)
unfolding exit_run
disables-EndsAs (code k) true calls ih = ih (code k)
disables-EndsAs (code k) false calls ih = ih (code k)
disables-EndsAs disabled_text true calls ih = ih disabled_text
disables-EndsAs disabled_text false calls ih = ih disabled_text
disables-EndsAs exit_text true calls ih = ih disabled_text
disables-EndsAs exit_text false calls ih = ih disabled_text

settled_from-nil : (p : ExitPayload) → settled_from p [] ≡ p
settled_from-nil (code c) = refl
settled_from-nil disabled_text = refl
settled_from-nil exit_text = refl

emits-EndsAs :
    (p : ExitPayload) (e : Bool) (calls : List ExitCall)
    → EndsAs p true calls
    → EndsAs p e (emits ∷ calls)
unfolding exit_run
emits-EndsAs (code k) true calls ih = ih
emits-EndsAs disabled_text true calls ih = ih
emits-EndsAs exit_text true calls ih = ih
emits-EndsAs (code k) false calls ih = (ih.0, ap (λ (l : List ExitPayload). code k ∷ l) ih.1)
emits-EndsAs disabled_text false calls ih =
    (ih.0, ap (λ (l : List ExitPayload). disabled_text ∷ l) ih.1)
emits-EndsAs exit_text false calls ih = (ih.0, ap (λ (l : List ExitPayload). exit_text ∷ l) ih.1)

exit_run-EndsAs : (calls : List ExitCall) (p : ExitPayload) (e : Bool) → EndsAs p e calls
unfolding exit_run
exit_run-EndsAs [] (code c) true = (refl, refl)
exit_run-EndsAs [] (code c) false = (refl, refl)
exit_run-EndsAs [] disabled_text true = (refl, refl)
exit_run-EndsAs [] disabled_text false = (refl, refl)
exit_run-EndsAs [] exit_text true = (refl, refl)
exit_run-EndsAs [] exit_text false = (refl, refl)
exit_run-EndsAs (sets c ∷ calls) p e = sets-EndsAs p e c calls (λ q. exit_run-EndsAs calls q e)
exit_run-EndsAs (disables ∷ calls) p e = disables-EndsAs p e calls (λ q. exit_run-EndsAs calls q e)
exit_run-EndsAs (emits ∷ calls) p e = emits-EndsAs p e calls (exit_run-EndsAs calls p true)

-- In every order of the calls on a new session exit the first call that records a code or
-- disables the tracer settles the payload, and later ones do not change it; the exit is emitted
-- at most once, at the first call that emits, as it is settled by then.
exit_run_lem :
    (calls : List ExitCall)
    → ((exit_run default_exit calls).0.payload ≡ settled calls)
      × ((exit_run default_exit calls).1
          ≡ (if emits_any calls then settled (before_emit calls) ∷ [] else []))
exit_run_lem calls = exit_run-EndsAs calls exit_text false
