-- ===== src/Tests/Activation.antt =====
-- The activation window at a concrete history: a generator of the activation file is suspended,
-- resumed and completed.
use codetracer_python_record.Prelude.{
  ℕ, ◌≡◌, refl, Bool, true, false, List, [], ◌∷◌, some, none, ◌==◌,
}
use codetracer_python_record.Activation.{
  ActivationController, Code, suspended, completed, new, is_active, Event, enters, exits, run,
}
use codetracer_python_record.Activation.Window.{is_active-run}

-- Paths are numbers here, and all of them are absolute.
abbrev same : ℕ → ℕ → Bool
same a b = a == b

abbrev code : ℕ → ℕ → Code ℕ
code id file = record { id = id; filename = some file }

abbrev history : List (Event same)
history =
    enters (code 1 7)
    ∷ enters (code 2 5)
    ∷ exits 2 suspended
    ∷ enters (code 3 7)
    ∷ exits 3 completed
    ∷ []

abbrev waiting : ActivationController ℕ
waiting = record {
  activation_path = some 5;
  activation_code_id = none;
  activation_done = false;
  started = false;
  is_suspended = false;
}

is_active-run_example : is_active (run same waiting history) ≡ true
unfolding new
is_active-run_example = is_active-run same some 5 5 waiting history refl refl
