-- ===== src/Activation.antt =====
-- `ActivationController` of codetracer-python-recorder/src/runtime/activation.rs. Paths, their
-- equality and `std::path::absolute` belong to Rust's library: they are parameters. A code object
-- is what its wrapper answers: an id, and a file name or an error.
pub mod Window
use codetracer_python_record.Prelude.{
  ℕ, Bool, true, false, not, ◌&&◌, ◌||◌, Option, none, some, List, [], ◌∷◌, ◌==◌, if◌then◌else◌,
  is_none, unwrap_or,
}

pub data ActivationExitKind : Type 0 where
  suspended completed : ActivationExitKind

-- `filename` is `none` where the lookup fails.
pub record Code (P : Type 0) : Type 0 where
  pub id : ℕ
  pub filename : Option P

pub record ActivationController (P : Type 0) : Type 0 where
  pub activation_path : Option P
  pub activation_code_id : Option ℕ
  pub activation_done : Bool
  pub started : Bool
  pub is_suspended : Bool

-- `self.activation_code_id == Some(code_id)`.
abbrev pub is_id : Option ℕ → ℕ → Bool
is_id none k = false
is_id (some j) k = j == k

module _ {P : Type 0} where
  -- `new` with a path that `absolute` resolves; `none` is the panic of the `expect`.
  unfoldable pub new : (P → Option P) → Option P → Option (ActivationController P)
  new absolute none = some (record {
    activation_path = none;
    activation_code_id = none;
    activation_done = false;
    started = true;
    is_suspended = false;
  })
  new absolute (some path) = elim (absolute path) [
    | none ↦ none
    | some resolved ↦ some (record {
      activation_path = some resolved;
      activation_code_id = none;
      activation_done = false;
      started = false;
      is_suspended = false;
    })
  ]

  unfoldable pub is_active : ActivationController P → Bool
  is_active a = a.started

  unfoldable pub start_path : ActivationController P → P → P
  start_path a fallback = unwrap_or a.activation_path fallback

  unfoldable pub resume_if_needed : ActivationController P → Code P → ActivationController P
  resume_if_needed a code =
      if a.started && a.is_suspended && is_id a.activation_code_id code.id
      then record a { is_suspended = false }
      else a

  -- The new controller, and whether this call deactivated tracing.
  unfoldable pub handle_exit :
      ActivationController P → ℕ → ActivationExitKind → ActivationController P × Bool
  handle_exit a code_id suspended =
      if is_id a.activation_code_id code_id
      then (record a { is_suspended = true }, false)
      else (a, false)
  handle_exit a code_id completed =
      if is_id a.activation_code_id code_id
      then (record a { started = false; activation_done = true; is_suspended = false }, true)
      else (a, false)

module _ {P : Type 0} (same_path : P → P → Bool) where
  -- Whether the file of a code object is the activation file.
  abbrev pub is_target : P → Option P → Bool
  is_target path none = false
  is_target path (some file) = same_path file path

  unfoldable pub ensure_started : ActivationController P → Code P → ActivationController P
  ensure_started a code = if a.started || a.activation_done then a else elim a.activation_path [
    | none ↦ a
    | some path ↦
        if is_target path code.filename
        then record a { started = true; activation_code_id = some code.id }
        else a
  ]

  unfoldable pub should_process_event :
      ActivationController P → Code P → ActivationController P × Bool
  unfolding is_active
  should_process_event a code =
      let a' = ensure_started (resume_if_needed a code) code in (a', is_active a')

  -- What the tracer tells the controller: an event of a code object, or an exit of one.
  pub data Event : Type 0 where
    enters : Code P → Event
    exits : ℕ → ActivationExitKind → Event

  unfoldable pub step : ActivationController P → Event → ActivationController P
  step a (enters code) = (should_process_event a code).0
  step a (exits code_id kind) = (handle_exit a code_id kind).0

  unfoldable pub run : ActivationController P → List Event → ActivationController P
  run a [] = a
  run a (e ∷ es) = run (step a e) es
