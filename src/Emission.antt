-- ===== src/Emission.antt =====
-- The assignment events of codetracer-python-recorder/src/runtime/tracer/events.rs:
-- `emit_assignment_events` and `build_rvalue`. The trace writer is no part of the repository: the
-- model lists the calls on it, in order, and the id that it answers for a name, the same at each call,
-- is the parameter `id_of`. The value policy of the trace filter is the parameter `drops`.
pub mod Binds
pub mod Sources
use codetracer_python_record.Prelude.{
  ℕ, ℤ, pos, negsuc, Bool, true, false, ◌||◌, Option, none, some, List, [], ◌∷◌, ◌++◌, String,
  str_eq, if◌then◌else◌, lookup, insert, unwrap_or, map,
}
use codetracer_python_record.Reconstructor.Window.{
  RValueShape, literal, simple, field_access, index_access, function_return, compound, unclassified,
}
use codetracer_python_record.Reconstructor.Table.{LineAssignment}

-- `RValue` of the trace types, over the ids of variables.
pub data RValue : Type 0 where
  literal_value : RValue
  simple_value : ℕ → RValue
  field_value : ℕ → String → RValue
  index_value : ℕ → ℤ → RValue
  return_value : ℤ → RValue
  compound_value : List ℕ → RValue

-- A call on the writer: `ensure_variable_id`, and `add_event` with either event.
pub data WriterCall : Type 0 where
  ensure_variable_id : String → WriterCall
  bind_variable : ℕ → WriterCall
  assignment : ℕ → RValue → WriterCall

-- `HashSet<String>`.
unfoldable pub has_name : String → List String → Bool
has_name s [] = false
has_name s (t ∷ names) = str_eq t s || has_name s names

-- `bound.insert(..)`.
unfoldable pub bind_name : String → List String → List String
unfolding has_name
bind_name s bound = if has_name s bound then bound else bound ++ s ∷ []

module _ (id_of : String → ℕ) where
  -- The value, and the calls that its names make.
  unfoldable pub build_rvalue : RValueShape → ℤ → RValue × List WriterCall
  build_rvalue literal key = (literal_value, [])
  build_rvalue (simple source) key = (simple_value (id_of source), ensure_variable_id source ∷ [])
  build_rvalue (field_access receiver field) key =
      (field_value (id_of receiver) field, ensure_variable_id receiver ∷ [])
  build_rvalue (index_access receiver index) key =
      (index_value (id_of receiver) index, ensure_variable_id receiver ∷ [])
  build_rvalue function_return (pos key) = (return_value (pos key), [])
  build_rvalue function_return (negsuc key) = (compound_value [], [])
  build_rvalue (compound sources) key =
      (compound_value (map id_of sources), map (λ (s : String). ensure_variable_id s) sources)
  build_rvalue unclassified key = (compound_value [], [])

  -- The calls for an assignment that is not dropped.
  unfoldable pub assignment_calls : List String → LineAssignment → ℤ → List WriterCall
  unfolding has_name
  assignment_calls bound a key =
      let (value, calls) = build_rvalue a.rvalue key in
      let assigned : List WriterCall = assignment (id_of a.target) value ∷ [] in
      ensure_variable_id a.target
      ∷ (calls
          ++ (if has_name a.target bound
              then assigned
              else bind_variable (id_of a.target) ∷ assigned))

  module _ (drops : String → Bool) (key : ℤ) where
    -- The loop over the assignments of a line.
    unfoldable pub emit_loop : List String → List LineAssignment → List String × List WriterCall
    unfolding bind_name
    emit_loop bound [] = (bound, [])
    emit_loop bound (a ∷ assignments) =
        let rest =
          emit_loop (if drops a.target then bound else bind_name a.target bound) assignments in
        if drops a.target then rest else (rest.0, assignment_calls bound a key ++ rest.1)

    unfoldable pub emit_assignment_events :
        List (ℕ × List String) → ℕ → List LineAssignment → List (ℕ × List String) × List WriterCall
    unfolding emit_loop
    emit_assignment_events frames frame_id [] = (frames, [])
    emit_assignment_events frames frame_id (a ∷ assignments) =
        let (bound, calls) = emit_loop (unwrap_or (lookup frame_id frames) []) (a ∷ assignments) in
        (insert frame_id bound frames, calls)
